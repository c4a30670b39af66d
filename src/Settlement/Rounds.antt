-- ===== src/Settlement/Rounds.antt =====
-- The spread phase ends: rounds of the daemon's loop (keeper/src/run/daemon.ts) in which nothing is in the
-- way complete every batch.
use claimrush.Prelude.{
  ℕ, zero, suc, ◌+◌, ◌≤◌, ◌<◌, ◌≡◌, inl, inr, refl, true, false, Option, none, some, List, [], ◌∷◌,
  Text, ltb, if◌then◌else◌, every, All, arith, length,
}
use claimrush.Settlement.Types.{BatchEntry, SettlementCycleState}
use claimrush.Settlement.Round.{
  TaskRun, Round, SpreadState, not_before, note_baseline, after_task, settle_batch, settle_found,
  settle_due, is_paused_for_drift,
}
use claimrush.Settlement.Progress.{
  is_empty, complete_at, mark_batch, is_due, find_due, get_next_due_batch, is_spread_phase_complete,
}
use claimrush.Settlement.Batches.{
  Waits, IsCovered, StandsAt, Finds, find_due-Finds, stands_found, settle_found-IsCovered,
}

-- Every batch is scheduled at that time or earlier.
abbrev pub AllScheduled : ℕ → List BatchEntry → Type 0
AllScheduled now = All (λ b. b.scheduled_at_ms ≤ now)

-- The number of batches that are not completed.
open_count : List BatchEntry → ℕ
open_count [] = 0
open_count (b ∷ bs) = (if b.completed then 0 else 1) + open_count bs

open_count-complete_at :
    (now k : ℕ) (b : BatchEntry) (bs : List BatchEntry)
    → StandsAt k bs b
    → is_due now b ≡ true
    → suc (open_count (complete_at k bs)) ≡ open_count bs
unfolding open_count complete_at
open_count-complete_at now k b [] f d = elim f [ ]
open_count-complete_at now zero b (x ∷ xs) f d = ground arith
open_count-complete_at now (suc k) b (x ∷ xs) f d =
    ground (arith, open_count-complete_at now k b xs f d)

open_count-pos : (u : Text) (bs : List BatchEntry) → Waits u bs → 0 < open_count bs
unfolding open_count
open_count-pos u [] w = elim w [ ]
open_count-pos u (b ∷ bs) (inl w) = ground arith
open_count-pos u (b ∷ bs) (inr w) = omega (arith, open_count-pos u bs w)

completed_of_open_count :
    (bs : List BatchEntry) → open_count bs ≡ 0 → every (λ (b : BatchEntry). b.completed) bs ≡ true
unfolding open_count
completed_of_open_count [] e = refl
completed_of_open_count (b ∷ bs) e = ground (arith, completed_of_open_count bs)

open_count_none :
    (now : ℕ) (bs : List BatchEntry)
    → AllScheduled now bs
    → All (λ b. is_due now b ≡ false) bs
    → open_count bs ≡ 0
unfolding open_count
open_count_none now [] s d = refl
open_count_none now (b ∷ bs) s d = ground (arith, open_count_none now bs s.1 d.1)

open_count-le-length : (bs : List BatchEntry) → open_count bs ≤ length bs
unfolding open_count
open_count-le-length [] = omega arith
open_count-le-length (b ∷ bs) = ground (arith, open_count-le-length bs)

no_pending :
    (bs : List BatchEntry) (us : List Text)
    → open_count bs ≡ 0
    → All (λ u. Waits u bs) us
    → is_empty us ≡ true
no_pending bs [] e c = refl
no_pending bs (u ∷ us) e c = absurd (omega (arith, open_count-pos u bs c.0))

complete_of_open_count :
    (cycle : SettlementCycleState)
    → IsCovered cycle
    → cycle.harvest_completed ≡ true
    → open_count cycle.spread_batches_completed ≡ 0
    → is_spread_phase_complete cycle ≡ true
unfolding is_spread_phase_complete
complete_of_open_count cycle c h e = ground (
  arith,
  no_pending cycle.spread_batches_completed cycle.spread_batches_pending e c,
  completed_of_open_count cycle.spread_batches_completed e,
)

-- The daemon's loop over a list of rounds.
unfoldable pub settle_rounds : List Round → SpreadState → SpreadState
settle_rounds [] st = st
settle_rounds (r ∷ rounds) st = settle_rounds rounds (settle_due r st)

-- Nothing is in the way of a round: every batch is scheduled, each task is defined, the quote has not
-- drifted too far, no retry is waited for, and the task succeeds.
pub record IsSmooth (r : Round) (st : SpreadState) : Type 0 where
  pub scheduled : AllScheduled r.now_ms st.cycle.spread_batches_completed
  pub defined : (name : Text) → r.has_task name ≡ true
  pub steady : is_paused_for_drift r st.cycle ≡ false
  pub no_retry : (name : Text) (i : ℕ) → not_before (st.retries name i) ≤ r.now_ms
  pub succeeds : (b : BatchEntry) → (at : ℕ) × (r.run_task b ≡ TaskRun.succeeded at)

unfoldable pub IsSmoothRun : List Round → SpreadState → Type 0
IsSmoothRun [] st = Unit
IsSmoothRun (r ∷ rounds) st = IsSmooth r st × IsSmoothRun rounds (settle_due r st)

not_early : (now at : ℕ) → at ≤ now → ltb now at ≡ false
not_early now at h = ground arith

-- The found batch is completed.
smooth_found :
    (r : Round) (st : SpreadState) (b : BatchEntry) (i at : ℕ)
    → IsSmooth r st
    → r.run_task b ≡ TaskRun.succeeded at
    → (settle_found r st (some (b, i))).cycle ≡ mark_batch i b.users at (note_baseline r st.cycle)
unfolding settle_found settle_batch after_task
smooth_found r st b i at s ran =
    rw
      (
        s.defined b.task_name,
        s.steady,
        not_early r.now_ms (not_before (st.retries b.task_name i)) (s.no_retry b.task_name i),
        ran,
      )
      refl

record IsSettling (n : ℕ) (cycle : SettlementCycleState) : Type 0 where
  covered : IsCovered cycle
  harvested : cycle.harvest_completed ≡ true
  left : open_count cycle.spread_batches_completed ≤ n

settle_found-IsSettling :
    (n : ℕ) (r : Round) (st : SpreadState) (found : Option (BatchEntry × ℕ))
    → Finds r.now_ms 0 st.cycle.spread_batches_completed found
    → IsSmooth r st
    → IsSettling (suc n) st.cycle
    → IsSettling n (settle_found r st found).cycle
unfolding settle_found mark_batch
settle_found-IsSettling n r st none f smooth s = record {
  covered = s.covered;
  harvested = s.harvested;
  left =
      omega (arith, open_count_none r.now_ms st.cycle.spread_batches_completed smooth.scheduled f);
}
settle_found-IsSettling n r st (some (b, i)) f smooth s =
    let (at, ran) = smooth.succeeds b in
    let same = smooth_found r st b i at smooth ran in
    record {
      covered = (settle_found-IsCovered r st (some (b, i)) f s.covered).0;
      harvested = rw same s.harvested;
      left = rw same (
          omega (
            arith,
            s.left,
            open_count-complete_at r.now_ms i b st.cycle.spread_batches_completed
                (stands_found r.now_ms i b st.cycle.spread_batches_completed f) f.3,
          ));
    }

settle_rounds_complete :
    (rounds : List Round) (st : SpreadState)
    → IsSmoothRun rounds st
    → IsSettling (length rounds) st.cycle
    → is_spread_phase_complete (settle_rounds rounds st).cycle ≡ true
unfolding settle_rounds settle_due get_next_due_batch IsSmoothRun
settle_rounds_complete [] st smooth s =
    complete_of_open_count st.cycle s.covered s.harvested (omega (arith, s.left))
settle_rounds_complete (r ∷ rounds) st smooth s = settle_rounds_complete rounds _ smooth.1 (
    settle_found-IsSettling (length rounds) r st
      (find_due r.now_ms 0 st.cycle.spread_batches_completed)
      (find_due-Finds r.now_ms 0 st.cycle.spread_batches_completed) smooth.0 s)

-- Once the harvest is done, with each pending user in an open batch, the spread phase is complete after any
-- rounds, at least as many as there are batches, if in each of them every batch is scheduled for then or
-- earlier, each task is defined and succeeds, the vault's quote does not pause the batch, and no retry is
-- waited for.
pub settle_rounds_end :
    (rounds : List Round) (st : SpreadState)
    → IsCovered st.cycle
    → st.cycle.harvest_completed ≡ true
    → length st.cycle.spread_batches_completed ≤ length rounds
    → IsSmoothRun rounds st
    → is_spread_phase_complete (settle_rounds rounds st).cycle ≡ true
settle_rounds_end rounds st c h enough smooth = settle_rounds_complete rounds st smooth (record {
  covered = c;
  harvested = h;
  left = omega (arith, enough, open_count-le-length st.cycle.spread_batches_completed);
})
