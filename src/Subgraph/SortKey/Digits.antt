-- ===== src/Subgraph/SortKey/Digits.antt =====
-- A padded number is its twenty decimal digits.
use native.Mathlib.Nat.{pow-suc}
use claimrush.Prelude.{
  ℕ, zero, suc, ◌+◌, ◌-◌, ◌/◌, ◌%◌, ◌^◌, ◌≤◌, ◌<◌, ◌≡◌, refl, sym, ap, ◌∙◌, false, [], ◌∷◌, ◌++◌,
  Text, length, length-append, arith, ltb, Bool-cases, inl, inr, ltb→lt,
}
use claimrush.Subgraph.SortKey.{digits, to_text, pad_loop, pad_numeric}

pub append_assoc : (xs ys zs : Text) → (xs ++ ys) ++ zs ≡ xs ++ (ys ++ zs)
append_assoc [] ys zs = refl
append_assoc (x ∷ xs) ys zs = ap (λ l. x ∷ l) (append_assoc xs ys zs)

abbrev pub zeros : ℕ → Text
zeros zero = []
zeros (suc n) = 48 ∷ zeros n

length-zeros : (n : ℕ) → length (zeros n) ≡ n
length-zeros zero = refl
length-zeros (suc n) = omega (arith, length-zeros n)

zeros_snoc : (n : ℕ) → zeros n ++ (48 ∷ []) ≡ 48 ∷ zeros n
zeros_snoc zero = refl
zeros_snoc (suc n) = ap (λ l. 48 ∷ l) (zeros_snoc n)

zeros-cons : (n : ℕ) (out : Text) → zeros n ++ (48 ∷ out) ≡ 48 ∷ (zeros n ++ out)
zeros-cons zero out = refl
zeros-cons (suc n) out = ap (λ l. 48 ∷ l) (zeros-cons n out)

-- The last `w` decimal digits of a number.
abbrev pub fixed : ℕ → ℕ → Text
fixed zero n = []
fixed (suc w) n = fixed w (n / 10) ++ ((48 + n % 10) ∷ [])

pub length-fixed : (w n : ℕ) → length (fixed w n) ≡ w
length-fixed zero n = refl
length-fixed (suc w) n =
    omega (arith, length-append (fixed w (n / 10)) ((48 + n % 10) ∷ []), length-fixed w (n / 10))

fixed_zero : (w : ℕ) → fixed w 0 ≡ zeros w
fixed_zero zero = refl
fixed_zero (suc w) = rw (fixed_zero w) (zeros_snoc w)

-- With enough fuel the loop of `padNumeric` ends, at zeros in front of the text up to the width.
pub pad_loop_lem :
    (fuel : ℕ) (out : Text)
    → 20 ≤ fuel + length out
    → pad_loop fuel out ≡ zeros (20 - length out) ++ out
pad_loop_lem zero out h = rw (enough (length out) (omega arith)) refl
  where
    enough : (n : ℕ) → 20 ≤ n → 20 - n ≡ 0
    enough n p = omega arith
pad_loop_lem (suc fuel) out h = elim (Bool-cases (ltb (length out) 20)) [
  | inl on ↦ rw on (
      pad_loop_lem fuel (48 ∷ out) (omega arith)
      ∙ zeros-cons (20 - suc (length out)) out
      ∙ ap (λ n. zeros n ++ out) (one_more (length out) (ltb→lt (length out) 20 on)))
  | inr off ↦ rw off (ap (λ n. zeros n ++ out) (sym (enough (length out) (ground (arith, off)))))
]
  where
    one_more : (n : ℕ) → n < 20 → suc (20 - suc n) ≡ 20 - n
    one_more n p = omega arith

    enough : (n : ℕ) → 20 ≤ n → 20 - n ≡ 0
    enough n p = omega arith

-- The loop of `padNumeric` ends with fuel for every missing place: its test then fails, and the text
-- stands behind as many zeros as places were missing, none where it was long enough.
pub pad_loop_ends :
    (fuel : ℕ) (out : Text)
    → 20 ≤ fuel + length out
    → (ltb (length (pad_loop fuel out)) 20 ≡ false)
      × (pad_loop fuel out ≡ zeros (20 - length out) ++ out)
pad_loop_ends fuel out h = (wide (length (pad_loop fuel out)) size, pad_loop_lem fuel out h)
  where
    wide : (n : ℕ) → 20 ≤ n → ltb n 20 ≡ false
    wide n p = ground arith

    size : 20 ≤ length (pad_loop fuel out)
    size =
        rw (pad_loop_lem fuel out h) (
          omega
            (arith, length-append (zeros (20 - length out)) out, length-zeros (20 - length out)))

tenth : (w n : ℕ) → n < 10 ^ suc w → n / 10 < 10 ^ w
tenth w n h = omega (arith, pow-suc 10 w)

one_digit :
    (w n : ℕ) → n < 10 → zeros w ++ ((48 + n) ∷ []) ≡ fixed w (n / 10) ++ ((48 + n % 10) ∷ [])
one_digit w n h = rw (small, same_digit) (ap (λ l. l ++ ((48 + n) ∷ [])) (sym (fixed_zero w)))
  where
    small : n / 10 ≡ 0
    small = omega arith

    same_digit : n % 10 ≡ n
    same_digit = omega arith

last_digit :
    (w d : ℕ) (ds : Text)
    → zeros (suc w - length (ds ++ (d ∷ []))) ++ (ds ++ (d ∷ []))
      ≡ (zeros (w - length ds) ++ ds) ++ (d ∷ [])
last_digit w d ds =
    ap (λ n. zeros n ++ (ds ++ (d ∷ []))) gap
    ∙ sym (append_assoc (zeros (w - length ds)) ds (d ∷ []))
  where
    gap : suc w - length (ds ++ (d ∷ [])) ≡ w - length ds
    gap = omega (arith, length-append ds (d ∷ []))

-- The text, padded to `w` places, is the last `w` digits of the number.
abbrev pub IsPadded : ℕ → Text → ℕ → Type 0
IsPadded w ds n = (length ds ≤ w) × (zeros (w - length ds) ++ ds ≡ fixed w n)

one_digit-IsPadded : (w n : ℕ) → n < 10 → IsPadded (suc w) ((48 + n) ∷ []) n
one_digit-IsPadded w n h = (omega arith, ap (λ k. zeros k ++ ((48 + n) ∷ [])) gap ∙ one_digit w n h)
  where
    gap : suc w - 1 ≡ w
    gap = omega arith

IsPadded-snoc :
    (w n : ℕ) (ds : Text) → IsPadded w ds (n / 10) → IsPadded (suc w) (ds ++ ((48 + n % 10) ∷ [])) n
IsPadded-snoc w n ds (short, eq) = (
  omega (arith, short, length-append ds ((48 + n % 10) ∷ [])),
  last_digit w (48 + n % 10) ds ∙ ap (λ l. l ++ ((48 + n % 10) ∷ [])) eq,
)

not_ltb : (n : ℕ) → ltb n 10 ≡ false → 10 ≤ n
not_ltb n off = ground (arith, off)

pub digits-IsPadded : (w f n : ℕ) → n < 10 ^ suc w → w ≤ f → IsPadded (suc w) (digits (suc f) n) n
digits-IsPadded zero f n h p = elim (Bool-cases (ltb n 10)) [
  | inl on ↦ rw on (one_digit-IsPadded 0 n (ltb→lt n 10 on))
  | inr off ↦ absurd (omega (arith, pow-suc 10 0, not_ltb n off))
]
digits-IsPadded (suc w) zero n h p = absurd (omega arith)
digits-IsPadded (suc w) (suc f) n h p =
    let rest = digits-IsPadded w f (n / 10) (tenth (suc w) n h) (omega arith) in
    elim (Bool-cases (ltb n 10)) [
      | inl on ↦ rw on (one_digit-IsPadded (suc w) n (ltb→lt n 10 on))
      | inr off ↦ rw off (IsPadded-snoc (suc w) n (digits (suc f) (n / 10)) rest)
    ]

-- A number below 10^20 is padded to its twenty digits.
pub pad_numeric-to_text : (n : ℕ) → n < 10 ^ 20 → pad_numeric (to_text n) ≡ fixed 20 n
unfolding pad_numeric
pad_numeric-to_text n h =
    pad_loop_lem 20 (to_text n) (omega arith) ∙ (digits-IsPadded 19 77 n h (omega arith)).1
