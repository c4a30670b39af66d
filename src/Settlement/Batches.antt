-- ===== src/Settlement/Batches.antt =====
-- The spread phase of keeper/src/run/settlement.ts: no pending user is lost.
use claimrush.Prelude.{
  ℕ, zero, suc, ◌+◌, ◌≡◌, ◌⊎◌, inl, inr, refl, subst, ap, ◌∙◌, Bool, true, false, not, Option, none,
  some, List, [], ◌∷◌, Text, if◌then◌else◌, keep, has_address, All, arith, Bool-cases,
}
use claimrush.Settlement.Types.{BatchEntry, SettlementCycleState}
use claimrush.Settlement.Round.{
  TaskRun, Round, SpreadState, after_task, settle_batch, settle_found, settle_due,
  is_paused_for_drift,
}
use claimrush.Settlement.Progress.{
  complete_at, mark_batch, is_due, find_due, get_next_due_batch, fail_task,
}

-- The user is in a batch that is not completed.
abbrev pub Waits : Text → List BatchEntry → Type 0
Waits u [] = ⊥
Waits u (b ∷ bs) = ((b.completed ≡ false) × (has_address b.users u ≡ true)) ⊎ Waits u bs

-- Every pending user is in a batch that is not completed.
abbrev pub IsCovered : SettlementCycleState → Type 0
IsCovered cycle = All (λ u. Waits u cycle.spread_batches_completed) cycle.spread_batches_pending

-- The batch stands at place `k` of the list.
abbrev pub StandsAt : ℕ → List BatchEntry → BatchEntry → Type 0
StandsAt k [] b = ⊥
StandsAt zero (x ∷ xs) b = x ≡ b
StandsAt (suc k) (x ∷ xs) b = StandsAt k xs b

-- `find_due` finds a batch that is due, at its place, or there is none.
abbrev pub Finds : ℕ → ℕ → List BatchEntry → Option (BatchEntry × ℕ) → Type 0
Finds now base bs none = All (λ b. is_due now b ≡ false) bs
Finds now base bs (some (b, i)) = (k : ℕ) × (i ≡ base + k) × StandsAt k bs b × (is_due now b ≡ true)

pub find_due-Finds :
    (now base : ℕ) (bs : List BatchEntry) → Finds now base bs (find_due now base bs)
unfolding find_due
find_due-Finds now base [] = tt
find_due-Finds now base (b ∷ bs) = elim (Bool-cases (is_due now b)) [
  | inl due ↦ rw due (0, omega arith, refl, due)
  | inr later ↦
      rw later (widen later (find_due now (suc base) bs) (find_due-Finds now (suc base) bs))
]
  where
    widen :
        is_due now b ≡ false
        → (r : Option (BatchEntry × ℕ)) → Finds now (suc base) bs r
        → Finds now base (b ∷ bs) r
    widen later none f = (later, f)
    widen later (some (c, i)) (k, at, stands, due) = (suc k, omega arith, stands, due)

Waits-complete_at :
    (u : Text) (k : ℕ) (b : BatchEntry) (bs : List BatchEntry)
    → StandsAt k bs b
    → has_address b.users u ≡ false
    → Waits u bs
    → Waits u (complete_at k bs)
unfolding complete_at
Waits-complete_at u k b [] f h w = elim w [ ]
Waits-complete_at u zero b (x ∷ xs) f h w = ground arith
Waits-complete_at u (suc k) b (x ∷ xs) f h (inl w) = inl w
Waits-complete_at u (suc k) b (x ∷ xs) f h (inr w) = inr (Waits-complete_at u k b xs f h w)

keep-IsCovered :
    (k : ℕ) (b : BatchEntry) (bs : List BatchEntry) (us : List Text)
    → StandsAt k bs b
    → All (λ u. Waits u bs) us
    → All (λ u. Waits u (complete_at k bs)) (keep (λ u. not (has_address b.users u)) us)
keep-IsCovered k b bs [] f c = tt
keep-IsCovered k b bs (u ∷ us) f c = elim (Bool-cases (has_address b.users u)) [
  | inl done ↦ rw done (keep-IsCovered k b bs us f c.1)
  | inr open' ↦ rw open' (Waits-complete_at u k b bs f open' c.0, keep-IsCovered k b bs us f c.1)
]

pub stands_found :
    (now i : ℕ) (b : BatchEntry) (bs : List BatchEntry)
    → Finds now 0 bs (some (b, i))
    → StandsAt i bs b
stands_found now i b bs (k, at, stands, due) =
    let e : k ≡ i = omega arith in subst (λ j. StandsAt j bs b) e stands

-- The user is in the list.
abbrev pub IsPending : Text → List Text → Type 0
IsPending u [] = ⊥
IsPending u (x ∷ xs) = (x ≡ u) ⊎ IsPending u xs

-- The user is in a batch that is completed.
abbrev pub IsSettled : Text → List BatchEntry → Type 0
IsSettled u [] = ⊥
IsSettled u (b ∷ bs) = ((b.completed ≡ true) × (has_address b.users u ≡ true)) ⊎ IsSettled u bs

-- Whoever was pending is pending still, or is in a completed batch.
abbrev pub IsAccountedFor : SettlementCycleState → SettlementCycleState → Type 0
IsAccountedFor before after =
    All (λ u. IsPending u after.spread_batches_pending ⊎ IsSettled u after.spread_batches_completed)
      before.spread_batches_pending

IsSettled-complete_at :
    (u : Text) (k : ℕ) (b : BatchEntry) (bs : List BatchEntry)
    → StandsAt k bs b
    → has_address b.users u ≡ true
    → IsSettled u (complete_at k bs)
unfolding complete_at
IsSettled-complete_at u k b [] f h = elim f [ ]
IsSettled-complete_at u zero b (x ∷ xs) f h = inl (refl, ap (λ y. has_address y.users u) f ∙ h)
IsSettled-complete_at u (suc k) b (x ∷ xs) f h = inr (IsSettled-complete_at u k b xs f h)

IsPending-keep :
    (done : Text → Bool) (u : Text) (us : List Text)
    → done u ≡ false
    → IsPending u us
    → IsPending u (keep (λ x. not (done x)) us)
IsPending-keep done u [] h p = elim p [ ]
IsPending-keep done u (x ∷ xs) h (inl e) = rw (ap done e ∙ h) (inl e)
IsPending-keep done u (x ∷ xs) h (inr p) = elim (Bool-cases (done x)) [
  | inl on ↦ rw on (IsPending-keep done u xs h p)
  | inr off ↦ rw off (inr (IsPending-keep done u xs h p))
]

keep-IsSettled :
    (k : ℕ) (b : BatchEntry) (bs : List BatchEntry) (all us : List Text)
    → StandsAt k bs b
    → ((u : Text) → IsPending u us → IsPending u all)
    → All
        (λ u.
          IsPending u (keep (λ x. not (has_address b.users x)) all)
          ⊎ IsSettled u (complete_at k bs))
        us
keep-IsSettled k b bs all [] f sub = tt
keep-IsSettled k b bs all (u ∷ us) f sub = (
  elim (Bool-cases (has_address b.users u)) [
    | inl on ↦ inr (IsSettled-complete_at u k b bs f on)
    | inr off ↦ inl (IsPending-keep (has_address b.users) u all off (sub u (inl refl)))
  ],
  keep-IsSettled k b bs all us f (λ x p. sub x (inr p)),
)

All-IsPending :
    (bs : List BatchEntry) (all us : List Text)
    → ((u : Text) → IsPending u us → IsPending u all)
    → All (λ u. IsPending u all ⊎ IsSettled u bs) us
All-IsPending bs all [] sub = tt
All-IsPending bs all (u ∷ us) sub =
    (inl (sub u (inl refl)), All-IsPending bs all us (λ x p. sub x (inr p)))

either {ℓ κ} :
    {A : Type ℓ} (P : A → Type κ) (b : Bool) (x y : A) → P x → P y → P (if b then x else y)
either P true x y p q = p
either P false x y p q = q

-- A round leaves the batches and the pending users as they are, or completes the batch that it found.
module _ (r : Round) (P : SettlementCycleState → Type 0) where
  abbrev OfCycle : SpreadState → Type 0
  OfCycle st = P st.cycle

  after_task-P :
      (st : SpreadState) (b : BatchEntry) (i : ℕ) (run : TaskRun)
      → ((failed : List Text) → P (record st.cycle { failed_tasks = failed }))
      → ((at : ℕ) → P (mark_batch i b.users at st.cycle))
      → P (after_task r st b i run).cycle
  unfolding after_task fail_task
  after_task-P st b i (TaskRun.succeeded at) same done = done at
  after_task-P st b i (TaskRun.failed at) same done =
      either OfCycle _ _ _ (same _) (same st.cycle.failed_tasks)

  settle_found-P :
      (st : SpreadState) (b : BatchEntry) (i : ℕ)
      → ((baseline : Option ℕ) (failed : List Text)
          → P (record st.cycle {
            spread_baseline_claim_out_1_weth = baseline;
            failed_tasks = failed;
          }))
      → ((baseline : Option ℕ) (at : ℕ)
          → P (
              mark_batch i b.users at
                (record st.cycle { spread_baseline_claim_out_1_weth = baseline })))
      → P (settle_found r st (some (b, i))).cycle
  unfolding settle_found settle_batch
  settle_found-P st b i same done =
      let noted = same _ st.cycle.failed_tasks in
      either OfCycle (not (r.has_task b.task_name)) _ _ (same _ st.cycle.failed_tasks) (
        either OfCycle (is_paused_for_drift r st.cycle) _ _ noted (
          either OfCycle _ _ _ noted
            (after_task-P _ b i (r.run_task b) (λ failed. same _ failed) (λ at. done _ at))))

pub settle_found-IsCovered :
    (r : Round) (st : SpreadState) (found : Option (BatchEntry × ℕ))
    → Finds r.now_ms 0 st.cycle.spread_batches_completed found
    → IsCovered st.cycle
    → IsCovered (settle_found r st found).cycle
      × IsAccountedFor st.cycle (settle_found r st found).cycle
unfolding settle_found mark_batch
settle_found-IsCovered r st none f c =
    (c, All-IsPending _ st.cycle.spread_batches_pending st.cycle.spread_batches_pending (λ u p. p))
settle_found-IsCovered r st (some (b, i)) f c =
    let pending = st.cycle.spread_batches_pending in
    let batches = st.cycle.spread_batches_completed in
    let stands = stands_found r.now_ms i b batches f in
    settle_found-P r (λ after. IsCovered after × IsAccountedFor st.cycle after) st b i
      (λ baseline failed. (c, All-IsPending batches pending pending (λ u p. p)))
      (λ baseline at. (
        keep-IsCovered i b batches pending stands c,
        keep-IsSettled i b batches pending pending stands (λ u p. p),
      ))

-- Whatever a round of the daemon finds, if every pending user is in an open batch before it, then every
-- pending user is after it, and whoever was pending before is pending still or in a completed batch.
pub settle_due-IsCovered :
    (r : Round) (st : SpreadState)
    → IsCovered st.cycle
    → IsCovered (settle_due r st).cycle × IsAccountedFor st.cycle (settle_due r st).cycle
unfolding settle_due get_next_due_batch
settle_due-IsCovered r st c =
    settle_found-IsCovered r st (find_due r.now_ms 0 st.cycle.spread_batches_completed)
      (find_due-Finds r.now_ms 0 st.cycle.spread_batches_completed) c
