-- ===== src/Agent/Permissions.antt =====
-- The permission bits of agents/sdk/src/delegation/permissions.ts. A mask is a native number.
use Prim.Native.Nat.{bit_and, bit_or}
use claimrush.Prelude.{ℕ, ◌^◌, Bool, not, List, [], ◌∷◌, ◌==◌}

abbrev pub p_takeover_for : ℕ
p_takeover_for = 2 ^ 0

abbrev pub p_withdraw_king_bucket_for : ℕ
p_withdraw_king_bucket_for = 2 ^ 6

abbrev pub p_claim_shareholder_for : ℕ
p_claim_shareholder_for = 2 ^ 7

abbrev pub p_claim_all_for : ℕ
p_claim_all_for = 2 ^ 8

abbrev pub p_furnace_enter_eth_for : ℕ
p_furnace_enter_eth_for = 2 ^ 9

abbrev pub p_furnace_enter_claim_for : ℕ
p_furnace_enter_claim_for = 2 ^ 10

abbrev pub p_furnace_enter_token_for : ℕ
p_furnace_enter_token_for = 2 ^ 11

abbrev pub p_ve_extend_lock_for : ℕ
p_ve_extend_lock_for = 2 ^ 12

abbrev pub p_ve_merge_locks_for : ℕ
p_ve_merge_locks_for = 2 ^ 13

abbrev pub p_ve_unlock_expired_for : ℕ
p_ve_unlock_expired_for = 2 ^ 14

abbrev pub p_set_king_auto_lock_config_for : ℕ
p_set_king_auto_lock_config_for = 2 ^ 15

abbrev pub p_set_shareholder_autocompound_config_for : ℕ
p_set_shareholder_autocompound_config_for = 2 ^ 16

abbrev pub p_set_lp_autocompound_config_for : ℕ
p_set_lp_autocompound_config_for = 2 ^ 17

-- `permsMask`.
unfoldable pub perms_mask : List ℕ → ℕ
perms_mask [] = 0
perms_mask (p ∷ ps) = bit_or p (perms_mask ps)

-- `(perms & bit) !== 0n`, `hasPerm` of agents/sdk/src/agent/policy.ts.
unfoldable pub has_perm : ℕ → ℕ → Bool
has_perm perms bit = not (bit_and perms bit == 0)
