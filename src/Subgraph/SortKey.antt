-- ===== src/Subgraph/SortKey.antt =====
-- subgraph/src/utils/sortKey.ts and utils/activity.ts: the keys that order rows by block or time. A
-- text is its character codes; the entity ids and the keys are ASCII.
pub mod Digits
pub mod Order
use claimrush.Prelude.{
  ℕ, zero, suc, ◌+◌, ◌/◌, ◌%◌, List, [], ◌∷◌, ◌++◌, Text, length, arith, ltb, if◌then◌else◌,
}

-- `BigInt.toString()`: the decimal digits, without leading zeros. A uint256 has at most 78.
abbrev pub digits : ℕ → ℕ → Text
digits zero n = []
digits (suc places) n =
    let rest = digits places (n / 10) in
    if ltb n 10 then (48 + n) ∷ [] else rest ++ ((48 + n % 10) ∷ [])

abbrev pub to_text : ℕ → Text
to_text n = digits 78 n

abbrev pub sort_key_numeric_width : ℕ
sort_key_numeric_width = 20

-- `while (out.length < 20) out = '0' + out`, on fuel.
abbrev pub pad_loop : ℕ → Text → Text
pad_loop zero out = out
pad_loop (suc fuel) out =
    let rest = pad_loop fuel (48 ∷ out) in
    if ltb (length out) sort_key_numeric_width then rest else out

unfoldable pub pad_numeric : Text → Text
pad_numeric value = pad_loop sort_key_numeric_width value

-- `padNumeric(n.toString()) + ':' + id`
unfoldable pub block_sort_key : ℕ → Text → Text
block_sort_key block_number id = pad_numeric (to_text block_number) ++ (58 ∷ id)

unfoldable pub timestamp_sort_key : ℕ → Text → Text
timestamp_sort_key timestamp id = pad_numeric (to_text timestamp) ++ (58 ∷ id)

unfoldable pub activity_sort_key : ℕ → Text → Text
activity_sort_key timestamp id = pad_numeric (to_text timestamp) ++ (58 ∷ id)
