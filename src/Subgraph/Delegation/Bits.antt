-- ===== src/Subgraph/Delegation/Bits.antt =====
-- The binary digits of a number, and those of `bitOr`.
use Prim.Native.Nat.{bit_or, bit_or-bitwise, digits}
use claimrush.Prelude.{ℕ, zero, suc, ◌+◌, ◌*◌, ◌/◌, ◌%◌, ◌≤◌, ◌≡◌, refl, max, arith}

-- The digit with the weight 2 ^ i.
unfoldable pub digit : ℕ → ℕ → ℕ
digit zero n = n % 2
digit (suc i) n = digit i (n / 2)

pub digit_zero : (i : ℕ) → digit i 0 ≡ 0
unfolding digit
digit_zero zero = refl
digit_zero (suc i) = digit_zero i

zero_or : (i b : ℕ) → digit i b ≡ max (digit i 0) (digit i b)
zero_or i b = omega (arith, digit_zero i)

low_digit : (d x y : ℕ) → (d * 2 + max (x % 2) (y % 2)) % 2 ≡ max (x % 2) (y % 2)
low_digit d x y = ground arith

high_digits : (d x y : ℕ) → (d * 2 + max (x % 2) (y % 2)) / 2 ≡ d
high_digits d x y = ground arith

digit-digits :
    (i n a b : ℕ) → a ≤ n → digit i (digits (λ b. b) max n a b) ≡ max (digit i a) (digit i b)
unfolding digit
digit-digits i zero zero b h = zero_or i b
digit-digits i (suc n) zero b h = zero_or i b
digit-digits zero (suc n) (suc a) b h = low_digit _ (suc a) b
digit-digits (suc i) (suc n) (suc a) b h =
    rw (high_digits (digits (λ b. b) max n (suc a / 2) (b / 2)) (suc a) b)
      (digit-digits i n (suc a / 2) (b / 2) (omega (arith, h)))
digit-digits i zero (suc a) b h = absurd (omega arith)

pub digit-bit_or : (i a b : ℕ) → digit i (bit_or a b) ≡ max (digit i a) (digit i b)
digit-bit_or i a b = rw (bit_or-bitwise a b) (digit-digits i a a b (omega arith))
