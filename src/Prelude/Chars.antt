-- ===== src/Prelude/Chars.antt =====
-- Texts as lists of character codes, with the tests that the source makes on names and addresses.
use Prim.Native.String.{String}
use Prim.Native.Char.{code}
use Prim.Native.Nat.{ℕ, ◌+◌}
use mathlib.Core.Path.{◌≡◌, refl}
use mathlib.Core.Bool.{Bool, true, false, ◌&&◌, ◌||◌}
use mathlib.Core.List.{List, [], ◌∷◌}
use native.Mathlib.Omega.{arith}
use claimrush.Prelude.Tests.{leb, ◌==◌, if◌then◌else◌}

abbrev pub Text : Type 0
Text = List ℕ

-- The codes of a literal.
abbrev pub codes : String → Text
codes String.[] = []
codes (String.◌∷◌ c s) = code c ∷ codes s

-- `toLowerCase` on ASCII.
unfoldable pub lower_code : ℕ → ℕ
lower_code c = if leb b'A' c && leb c b'Z' then c + 32 else c

unfoldable pub lower : Text → Text
unfolding lower_code
lower [] = []
lower (c ∷ cs) = lower_code c ∷ lower cs

-- `a === b`
unfoldable pub same_text : Text → Text → Bool
same_text [] [] = true
same_text [] (d ∷ ds) = false
same_text (c ∷ cs) [] = false
same_text (c ∷ cs) (d ∷ ds) = c == d && same_text cs ds

pub same_text_refl : (a : Text) → same_text a a ≡ true
unfolding same_text
same_text_refl [] = refl
same_text_refl (c ∷ cs) = ground (arith, same_text_refl cs)

pub eq_of_same_text : (a b : Text) → same_text a b ≡ true → a ≡ b
unfolding same_text
eq_of_same_text [] [] h = refl
eq_of_same_text [] (d ∷ ds) h = cc
eq_of_same_text (c ∷ cs) [] h = cc
eq_of_same_text (c ∷ cs) (d ∷ ds) h = ground (arith, eq_of_same_text cs ds)

-- `list.includes(a)`
unfoldable pub includes : List Text → Text → Bool
includes [] a = false
includes (x ∷ xs) a = same_text x a || includes xs a

-- `a.toLowerCase() === b.toLowerCase()`
unfoldable pub same_address : Text → Text → Bool
same_address a b = same_text (lower a) (lower b)

pub same_address_refl : (a : Text) → same_address a a ≡ true
unfolding same_address
same_address_refl a = same_text_refl (lower a)

pub same_address_sym : (a b : Text) → same_address a b ≡ true → same_address b a ≡ true
unfolding same_address
same_address_sym a b h = rw (eq_of_same_text _ _ h) (same_text_refl (lower b))

pub same_address_trans :
    (a b c : Text) → same_address a b ≡ true → same_address b c ≡ true → same_address a c ≡ true
unfolding same_address
same_address_trans a b c h k = rw (eq_of_same_text _ _ h) k

-- Whether a list of addresses has one, whatever the letters' case.
unfoldable pub has_address : List Text → Text → Bool
has_address [] a = false
has_address (x ∷ xs) a = same_address x a || has_address xs a
