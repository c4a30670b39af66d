-- ===== src/Guards/Tier.antt =====
-- The observer of keeper/src/shared/tier_observer.ts, whose majority picks the scheduling cadence. A header is
-- the result of `coerceSample` on it.
use claimrush.Prelude.{
  ℕ, zero, suc, ◌+◌, ◌-◌, ◌*◌, ◌/◌, ◌≤◌, ◌<◌, ◌≡◌, refl, sym, ap, ◌∙◌, inl, inr, Bool, true, false,
  Option, none, some, List, [], ◌∷◌, ◌++◌, ltb, leb, if◌then◌else◌, length, drop, drop-append,
  drop-drop, length-append, length-drop, arith, tests, Bool-cases, min,
}
use mathlib.Core.List.{append_assoc, append-nil}
mod Tests

pub data Tier : Type 0 where
  primary fallback unknown : Tier

pub data Sample : Type 0 where
  primary fallback absent : Sample

-- `window.shift()`
abbrev shift : List Sample → List Sample
shift [] = []
shift (s ∷ ss) = ss

unfoldable pub record_tier : ℕ → List Sample → Sample → List Sample
record_tier size window sample =
    let pushed = window ++ (sample ∷ []) in
    if ltb size (length pushed) then shift pushed else pushed

abbrev pub primaries : List Sample → ℕ
primaries [] = 0
primaries (Sample.primary ∷ ss) = suc (primaries ss)
primaries (s ∷ ss) = primaries ss

abbrev pub fallbacks : List Sample → ℕ
fallbacks [] = 0
fallbacks (Sample.fallback ∷ ss) = suc (fallbacks ss)
fallbacks (s ∷ ss) = fallbacks ss

-- `Math.ceil(window.length / 2)` is `(length + 1) / 2`.
unfoldable pub current_tier : List Sample → Tier
current_tier [] = Tier.unknown
current_tier (s ∷ ss) =
    let window = s ∷ ss in
    if ltb (primaries window + fallbacks window) ((length window + 1) / 2)
    then Tier.unknown
    else if ltb (primaries window) (fallbacks window)
    then Tier.fallback
    else Tier.primary

-- The samples one after the other.
abbrev pub record_tiers : ℕ → List Sample → List Sample → List Sample
record_tiers size window [] = window
record_tiers size window (s ∷ ss) = record_tiers size (record_tier size window s) ss

abbrev newest : ℕ → List Sample → List Sample
newest size ss = drop (length ss - size) ss

shift-drop : (ss : List Sample) → shift ss ≡ drop 1 ss
shift-drop [] = refl
shift-drop (s ∷ ss) = refl

record_tier-drop :
    (size : ℕ) (window : List Sample) (s : Sample)
    → length window ≤ size
    → record_tier size window s ≡ drop (length window + 1 - size) (window ++ (s ∷ []))
unfolding record_tier
record_tier-drop size window s h = elim (Bool-cases (ltb size (length (window ++ (s ∷ []))))) [
  | inl over ↦ rw over (
      shift-drop (window ++ (s ∷ []))
      ∙ ap (λ n. drop n (window ++ (s ∷ []))) (one_over (length-append window (s ∷ [])) over))
  | inr room ↦
      rw room
        (ap (λ n. drop n (window ++ (s ∷ []))) (none_over (length-append window (s ∷ [])) room))
]
  where
    one_over : {n : ℕ} → n ≡ length window + 1 → ltb size n ≡ true → 1 ≡ length window + 1 - size
    one_over e over = ground arith

    none_over : {n : ℕ} → n ≡ length window + 1 → ltb size n ≡ false → 0 ≡ length window + 1 - size
    none_over e room = ground arith

record_tier-newest :
    (size : ℕ) (seen : List Sample) (s : Sample)
    → record_tier size (newest size seen) s ≡ newest size (seen ++ (s ∷ []))
record_tier-newest size seen s =
    record_tier-drop size (newest size seen) s (omega (arith, kept))
    ∙ (ap (drop (length (newest size seen) + 1 - size))
          (sym (drop-append (length seen - size) seen (s ∷ []) (omega arith)))
        ∙ (drop-drop (length (newest size seen) + 1 - size) (length seen - size) (seen ++ (s ∷ []))
            ∙ ap (λ n. drop n (seen ++ (s ∷ [])))
                (omega (arith, kept, length-append seen (s ∷ [])))))
  where
    kept : length (newest size seen) ≡ length seen - (length seen - size)
    kept = length-drop (length seen - size) seen

record_tiers_from :
    (size : ℕ) (seen ss : List Sample)
    → record_tiers size (newest size seen) ss ≡ newest size (seen ++ ss)
record_tiers_from size seen [] = ap (newest size) (sym (append-nil seen))
record_tiers_from size seen (s ∷ ss) =
    ap (λ window. record_tiers size window ss) (record_tier-newest size seen s)
    ∙ (record_tiers_from size (seen ++ (s ∷ [])) ss
        ∙ ap (newest size) (append_assoc seen (s ∷ []) ss))

-- Starting from an empty window, the window is the newest samples, as many as its size.
pub record_tiers-newest :
    (size : ℕ) (ss : List Sample) → record_tiers size [] ss ≡ drop (length ss - size) ss
record_tiers-newest size ss =
    ap (λ window. record_tiers size window ss) (empty (length {A = Sample} [] - size))
    ∙ record_tiers_from size [] ss
  where
    empty : (n : ℕ) → [] ≡ drop {A = Sample} n []
    empty zero = refl
    empty (suc n) = refl

-- The tier is `fallback` only where most of the window's headers that are present say so, and these are at
-- least half of the window.
pub current_tier-fallback :
    (window : List Sample)
    → current_tier window ≡ Tier.fallback
    → (primaries window < fallbacks window)
      × (length window ≤ 2 * (primaries window + fallbacks window))
unfolding current_tier
current_tier-fallback [] h = cc
current_tier-fallback (s ∷ ss) h = majority _ _ (length (s ∷ ss)) h
  where
    majority :
        (p f n : ℕ)
        → (if ltb (p + f) ((n + 1) / 2)
            then Tier.unknown
            else if ltb p f
            then Tier.fallback
            else Tier.primary)
          ≡ Tier.fallback
        → (p < f) × (n ≤ 2 * (p + f))
    majority p f n h = ground arith
