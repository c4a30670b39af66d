-- ===== src/Guards/Payout.antt =====
-- The audit of keeper/src/shared/payout_bound.ts: a task's transaction lowers the keeper's balance by exactly
-- its cost.
use claimrush.Prelude.{
  ◌≡◌, ◌≢◌, ◌+◌, ◌<◌, ◌⊎◌, inl, inr, refl, ap, Bool, true, false, arith, Bool-cases, if◌then◌else◌,
}
use claimrush.Prelude.Int.{
  ℤ, pos, negsuc, ◌+ℤ◌, ◌-ℤ◌, ◌≤ℤ◌, ltb_ℤ, eqb_ℤ, pos_part, neg_part, +ℤ_parts, -ℤ_parts,
  eq_of_parts, int_laws,
}
mod Tests

-- Each failure with the amount that its message names.
pub data EoaPayoutCheckResult : Type 0 where
  ok negative_cost : EoaPayoutCheckResult
  received exceeds_cost rebate : ℤ → EoaPayoutCheckResult

unfoldable pub assert_keeper_eoa_payout_bound : ℤ → ℤ → ℤ → EoaPayoutCheckResult
assert_keeper_eoa_payout_bound balance_before balance_after total_cost =
    let delta = balance_after -ℤ balance_before in
    let outflow = pos 0 -ℤ delta in
    if ltb_ℤ total_cost (pos 0)
    then EoaPayoutCheckResult.negative_cost
    else if eqb_ℤ delta (pos 0 -ℤ total_cost)
    then EoaPayoutCheckResult.ok
    else if ltb_ℤ (pos 0) delta
    then EoaPayoutCheckResult.received delta
    else if ltb_ℤ total_cost outflow
    then EoaPayoutCheckResult.exceeds_cost (outflow -ℤ total_cost)
    else EoaPayoutCheckResult.rebate (total_cost -ℤ outflow)

-- What each result says of the balances and the cost.
abbrev pub IsVerdict : ℤ → ℤ → ℤ → EoaPayoutCheckResult → Type 0
IsVerdict before after cost EoaPayoutCheckResult.ok = (pos 0 ≤ℤ cost) × (after +ℤ cost ≡ before)
IsVerdict before after cost EoaPayoutCheckResult.negative_cost = cost ≤ℤ negsuc 0
IsVerdict before after cost (EoaPayoutCheckResult.received gain) =
    (pos 0 ≤ℤ cost) × (pos 1 ≤ℤ gain) × (before +ℤ gain ≡ after)
IsVerdict before after cost (EoaPayoutCheckResult.exceeds_cost excess) =
    (pos 0 ≤ℤ cost) × (pos 1 ≤ℤ excess) × (after +ℤ (cost +ℤ excess) ≡ before)
IsVerdict before after cost (EoaPayoutCheckResult.rebate amount) =
    (pos 1 ≤ℤ amount) × (amount ≤ℤ cost) × (after +ℤ cost ≡ before +ℤ amount)

-- The tests as orders on the parts.
lt_of : (a b : ℤ) → ltb_ℤ a b ≡ true → pos_part a + neg_part b < pos_part b + neg_part a
lt_of a b h = ground arith

le_of : (a b : ℤ) → ltb_ℤ a b ≡ false → b ≤ℤ a
le_of a b h = ground arith

same_of : (a b : ℤ) → eqb_ℤ a b ≡ true → pos_part a + neg_part b ≡ pos_part b + neg_part a
same_of a b h = ground arith

differ_of : (a b : ℤ) → eqb_ℤ a b ≡ false → pos_part a + neg_part b ≢ pos_part b + neg_part a
differ_of a b h = ground arith

exceeds_cost-IsVerdict :
    (before after cost : ℤ)
    → ltb_ℤ cost (pos 0) ≡ false
    → ltb_ℤ cost (pos 0 -ℤ (after -ℤ before)) ≡ true
    → IsVerdict before after cost
        (EoaPayoutCheckResult.exceeds_cost ((pos 0 -ℤ (after -ℤ before)) -ℤ cost))
exceeds_cost-IsVerdict before after cost fine more =
    let outflow = pos 0 -ℤ (after -ℤ before) in
    (
      le_of cost (pos 0) fine,
      omega (arith, lt_of cost outflow more, -ℤ_parts outflow cost),
      eq_of_parts (after +ℤ (cost +ℤ (outflow -ℤ cost))) before (
          omega (
            arith,
            +ℤ_parts after (cost +ℤ (outflow -ℤ cost)),
            +ℤ_parts cost (outflow -ℤ cost),
            -ℤ_parts outflow cost,
            -ℤ_parts (pos 0) (after -ℤ before),
            -ℤ_parts after before,
          )),
    )

rebate-IsVerdict :
    (before after cost : ℤ)
    → eqb_ℤ (after -ℤ before) (pos 0 -ℤ cost) ≡ false
    → ltb_ℤ (pos 0) (after -ℤ before) ≡ false
    → ltb_ℤ cost (pos 0 -ℤ (after -ℤ before)) ≡ false
    → IsVerdict before after cost
        (EoaPayoutCheckResult.rebate (cost -ℤ (pos 0 -ℤ (after -ℤ before))))
rebate-IsVerdict before after cost other loss less =
    let outflow = pos 0 -ℤ (after -ℤ before) in
    (
      omega (
        arith,
        le_of cost outflow less,
        differ_of (after -ℤ before) (pos 0 -ℤ cost) other,
        -ℤ_parts (pos 0) cost,
        -ℤ_parts cost outflow,
        -ℤ_parts (pos 0) (after -ℤ before),
      ),
      omega (
        arith,
        le_of (pos 0) (after -ℤ before) loss,
        -ℤ_parts cost outflow,
        -ℤ_parts (pos 0) (after -ℤ before),
      ),
      eq_of_parts (after +ℤ cost) (before +ℤ (cost -ℤ outflow)) (
          omega (
            arith,
            +ℤ_parts after cost,
            +ℤ_parts before (cost -ℤ outflow),
            -ℤ_parts cost outflow,
            -ℤ_parts (pos 0) (after -ℤ before),
            -ℤ_parts after before,
          )),
    )

-- The result is `ok` only where the balance went down by exactly the cost, and each other result names the
-- amount by which it did not: a gain, an outflow beyond the cost, or a rebate.
pub assert_keeper_eoa_payout_bound-IsVerdict :
    (before after cost : ℤ)
    → IsVerdict before after cost (assert_keeper_eoa_payout_bound before after cost)
unfolding assert_keeper_eoa_payout_bound
assert_keeper_eoa_payout_bound-IsVerdict before after cost =
    elim (Bool-cases (ltb_ℤ cost (pos 0))) [
      | inl negative ↦ rw negative (omega (arith, lt_of cost (pos 0) negative))
      | inr fine ↦ rw fine (elim (Bool-cases (eqb_ℤ (after -ℤ before) (pos 0 -ℤ cost))) [
        | inl same ↦ rw same (
          le_of cost (pos 0) fine,
          eq_of_parts (after +ℤ cost) before (
              omega (
                arith,
                +ℤ_parts after cost,
                -ℤ_parts after before,
                -ℤ_parts (pos 0) cost,
                same_of (after -ℤ before) (pos 0 -ℤ cost) same,
              )),
        )
        | inr other ↦ rw other (elim (Bool-cases (ltb_ℤ (pos 0) (after -ℤ before))) [
          | inl gain ↦ rw gain (
            le_of cost (pos 0) fine,
            omega (arith, lt_of (pos 0) (after -ℤ before) gain),
            eq_of_parts (before +ℤ (after -ℤ before)) after
                (omega (arith, +ℤ_parts before (after -ℤ before), -ℤ_parts after before)),
          )
          | inr loss ↦ rw loss (elim (Bool-cases (ltb_ℤ cost (pos 0 -ℤ (after -ℤ before)))) [
            | inl more ↦ rw more (exceeds_cost-IsVerdict before after cost fine more)
            | inr less ↦ rw less (rebate-IsVerdict before after cost other loss less)
          ])
        ])
      ])
    ]

-- Where the cost is not negative and the balance went down by exactly it, the result is `ok`.
assert_keeper_eoa_payout_bound-ok :
    (before after cost : ℤ)
    → pos 0 ≤ℤ cost
    → after +ℤ cost ≡ before
    → assert_keeper_eoa_payout_bound before after cost ≡ EoaPayoutCheckResult.ok
unfolding assert_keeper_eoa_payout_bound
assert_keeper_eoa_payout_bound-ok before after cost h e = rw fine (rw same refl)
  where
    fine : ltb_ℤ cost (pos 0) ≡ false
    fine = ground arith

    parts :
        pos_part (after -ℤ before) + neg_part (pos 0 -ℤ cost)
        ≡ pos_part (pos 0 -ℤ cost) + neg_part (after -ℤ before)
    parts = omega (
      arith,
      ap pos_part e,
      ap neg_part e,
      +ℤ_parts after cost,
      -ℤ_parts after before,
      -ℤ_parts (pos 0) cost,
    )

    same : eqb_ℤ (after -ℤ before) (pos 0 -ℤ cost) ≡ true
    same = ground (arith, parts)
