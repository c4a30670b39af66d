-- ===== src/Guards/Payout/Tests.antt =====
-- Audits of keeper/src/shared/payout_bound.ts, and the theorems at concrete inputs.
use claimrush.Prelude.{◌≡◌, refl}
use claimrush.Prelude.Int.{pos, ◌-ℤ◌}
use claimrush.Guards.Payout.{
  EoaPayoutCheckResult, assert_keeper_eoa_payout_bound, IsVerdict,
  assert_keeper_eoa_payout_bound-IsVerdict,
}

exceeds_by_five :
    assert_keeper_eoa_payout_bound (pos 100) (pos 80) (pos 15)
    ≡ EoaPayoutCheckResult.exceeds_cost (pos 5)
unfolding assert_keeper_eoa_payout_bound ◌-ℤ◌
exceeds_by_five = refl

assert_keeper_eoa_payout_bound-IsVerdict_example :
    IsVerdict
      (pos 100)
      (pos 90)
      (pos 15)
      (assert_keeper_eoa_payout_bound (pos 100) (pos 90) (pos 15))
assert_keeper_eoa_payout_bound-IsVerdict_example =
    assert_keeper_eoa_payout_bound-IsVerdict (pos 100) (pos 90) (pos 15)
