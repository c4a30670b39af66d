-- ===== src/Subgraph/SortKey/Order.antt =====
-- Sorting by the key is sorting by the number, and by the id among equal numbers.
use native.Mathlib.Nat.{pow-suc}
use claimrush.Prelude.{
  ℕ, zero, suc, ◌+◌, ◌/◌, ◌%◌, ◌^◌, ◌≤◌, ◌<◌, ◌≡◌, refl, sym, ap, ◌∙◌, Bool, true, false, ◌&&◌,
  ◌||◌, [], ◌∷◌, ◌++◌, Text, arith, ltb, ◌==◌, ◌⊎◌, inl, inr, Bool-cases, ltb→lt,
}
use claimrush.Subgraph.SortKey.{block_sort_key}
use claimrush.Subgraph.SortKey.Digits.{append_assoc, fixed, pad_numeric-to_text}

-- The order of texts, code by code; a proper beginning comes first.
abbrev pub text_ltb : Text → Text → Bool
text_ltb [] [] = false
text_ltb [] (y ∷ ys) = true
text_ltb (x ∷ xs) [] = false
text_ltb (x ∷ xs) (y ∷ ys) = ltb x y || (x == y && text_ltb xs ys)

text_ltb-asym : (xs ys : Text) → text_ltb xs ys ≡ true → text_ltb ys xs ≡ false
text_ltb-asym [] [] h = cc
text_ltb-asym [] (y ∷ ys) h = refl
text_ltb-asym (x ∷ xs) [] h = cc
text_ltb-asym (x ∷ xs) (y ∷ ys) h = ground (arith, text_ltb-asym xs ys)

same_beginning : (xs us vs : Text) → text_ltb (xs ++ us) (xs ++ vs) ≡ text_ltb us vs
same_beginning [] us vs = refl
same_beginning (x ∷ xs) us vs = ground (arith, same_beginning xs us vs)

smaller_digit : (a b : ℕ) (us vs : Text) → a < b → text_ltb ((48 + a) ∷ us) ((48 + b) ∷ vs) ≡ true
smaller_digit a b us vs h = ground arith

fixed-text_ltb :
    (w n m : ℕ) (us vs : Text)
    → n < m
    → m < 10 ^ w
    → text_ltb (fixed w n ++ us) (fixed w m ++ vs) ≡ true
fixed-text_ltb zero n m us vs h p = absurd (omega arith)
fixed-text_ltb (suc w) n m us vs h p =
    rw
      (
        append_assoc (fixed w (n / 10)) ((48 + n % 10) ∷ []) us,
        append_assoc (fixed w (m / 10)) ((48 + m % 10) ∷ []) vs,
      )
      (elim (Bool-cases (ltb (n / 10) (m / 10))) [
        | inl on ↦
            fixed-text_ltb w (n / 10) (m / 10) _ _ (ltb→lt (n / 10) (m / 10) on)
              (omega (arith, pow-suc 10 w))
        | inr off ↦ last (same_tens (n / 10) (m / 10) off (omega arith))
      ])
  where
    same_tens : (a b : ℕ) → ltb a b ≡ false → a ≤ b → a ≡ b
    same_tens a b off q = ground (arith, off, q)

    last :
        n / 10 ≡ m / 10
        → text_ltb
            (fixed w (n / 10) ++ ((48 + n % 10) ∷ us))
            (fixed w (m / 10) ++ ((48 + m % 10) ∷ vs))
          ≡ true
    last e =
        ap
          (λ x.
            text_ltb (fixed w x ++ ((48 + n % 10) ∷ us)) (fixed w (m / 10) ++ ((48 + m % 10) ∷ vs)))
          e
        ∙ same_beginning (fixed w (m / 10)) ((48 + n % 10) ∷ us) ((48 + m % 10) ∷ vs)
        ∙ smaller_digit (n % 10) (m % 10) us vs (omega (arith, e))

number_order : (n m : ℕ) → ((n < m) ⊎ ((n ≡ m) ⊎ (m < n)))
number_order n m = ground arith

-- For block numbers below 10^20, one key comes before another exactly when its block number is
-- smaller, or the block numbers are equal and its entity id comes before the other's.
pub block_sort_key-orders :
    (n m : ℕ) (id id' : Text)
    → n < 10 ^ 20
    → m < 10 ^ 20
    → text_ltb (block_sort_key n id) (block_sort_key m id')
      ≡ (ltb n m || (n == m && text_ltb id id'))
unfolding block_sort_key
block_sort_key-orders n m id id' p q =
    rw (pad_numeric-to_text n p, pad_numeric-to_text m q)
      (elim (number_order n m) [
        | inl lt ↦ fixed-text_ltb 20 n m (58 ∷ id) (58 ∷ id') lt q ∙ sym (before n m _ lt)
        | inr (inl e) ↦
            rw e (same_beginning (fixed 20 m) (58 ∷ id) (58 ∷ id') ∙ at_same m (text_ltb id id'))
        | inr (inr gt) ↦
            text_ltb-asym (fixed 20 m ++ (58 ∷ id')) (fixed 20 n ++ (58 ∷ id))
              (fixed-text_ltb 20 m n (58 ∷ id') (58 ∷ id) gt p)
            ∙ sym (after n m _ gt)
      ])
  where
    before : (n m : ℕ) (b : Bool) → n < m → (ltb n m || (n == m && b)) ≡ true
    before n m b h = ground arith

    after : (n m : ℕ) (b : Bool) → m < n → (ltb n m || (n == m && b)) ≡ false
    after n m b h = ground arith

    at_same : (m : ℕ) (b : Bool) → b ≡ (ltb m m || (m == m && b))
    at_same m b = ground arith
