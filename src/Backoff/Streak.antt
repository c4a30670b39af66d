-- ===== src/Backoff/Streak.antt =====
-- The streak counters of agents/sdk/src/agent/backoff.ts against the history of results.
use claimrush.Prelude.{
  ◌⊎◌, inl, inr, Bool-cases, ℕ, ◌+◌, ◌<◌, ◌≡◌, ◌≢◌, refl, Bool, true, false, Option, none, some,
  List, [], ◌∷◌, arith, leb, if◌then◌else◌, All,
}
use claimrush.Backoff.{
  BackoffConfig, BackoffState, ActionResult, ErrorKind, initial, is_stale, is_truthy,
  infer_error_info, kind_of, is_timeout, should_count_error_kind, on_success, count_error, enter,
  on_error, on_action_result,
}

-- Results with the time at which each was handed over, the newest first.
abbrev pub History : Type 0
History = List (ℕ × ActionResult)

pub after : BackoffConfig → History → BackoffState
after cfg [] = initial
after cfg ((now, res) ∷ older) = (on_action_result cfg (after cfg older) res now).0

-- The time of the newest executed result, if that result is an error.
pub last_failure : History → Option ℕ
last_failure [] = none
last_failure ((now, res) ∷ older) =
    if res.simulated then last_failure older else (if is_truthy res.error then some now else none)

-- Some failure came before, and `gap` or more milliseconds have passed since.
abbrev pub lapsed : ℕ → ℕ → Option ℕ → Bool
lapsed gap now none = false
lapsed gap now (some at) = leb (at + gap) now

-- How many errors whose kind passes `counts` there are since the newest success, or since the newest
-- pause of `gap` milliseconds between two errors.
pub streak : ℕ → (ErrorKind → Bool) → History → ℕ
streak gap counts [] = 0
streak gap counts ((now, res) ∷ older) =
    let older_streak = streak gap counts older in
    if res.simulated
    then older_streak
    else (if is_truthy res.error
        then (if counts (kind_of (infer_error_info res)) then 1 else 0)
          + (if lapsed gap now (last_failure older) then 0 else older_streak)
        else 0)

abbrev pub IsTimed : History → Type 0
IsTimed = All (λ e. 0 < e.0)

module _ (cfg : BackoffConfig) (on : cfg.enabled ≡ true) where
  last_error_at_ms-after : (h : History) → (after cfg h).last_error_at_ms ≡ last_failure h
  unfolding after last_failure on_action_result on_error on_success count_error enter
  last_error_at_ms-after [] = refl
  last_error_at_ms-after ((now, res) ∷ older) = ground (arith, last_error_at_ms-after older)

  last_failure_pos : (h : History) → IsTimed h → last_failure h ≢ some 0
  unfolding last_failure
  last_failure_pos [] t = cc
  last_failure_pos ((now, res) ∷ older) t = ground (arith, last_failure_pos older t.1)

  -- The two counters after a failing result.
  fresh_streak : BackoffState → ℕ → ℕ → ℕ
  fresh_streak s now streak =
      if is_stale cfg.reset_after_ms now s.last_error_at_ms then 0 else streak

  on_error_counters :
      (s : BackoffState) (kind : ErrorKind) (info : _) (action : _) (now : ℕ)
      → let s' = (on_error cfg s kind info action now).0 in
        (s'.consecutive_errors
          ≡ (if should_count_error_kind kind cfg.count_error_kinds then 1 else 0)
            + fresh_streak s now s.consecutive_errors)
        × (s'.consecutive_timeouts
            ≡ (if is_timeout kind then 1 else 0) + fresh_streak s now s.consecutive_timeouts)
  unfolding on_error enter count_error fresh_streak
  on_error_counters s kind info action now = ground arith

  is_stale-eq-lapsed :
      (now : ℕ) (at : Option ℕ)
      → at ≢ some 0
      → is_stale cfg.reset_after_ms now at ≡ lapsed cfg.reset_after_ms now at
  is_stale-eq-lapsed now none h = refl
  is_stale-eq-lapsed now (some at) h = ground arith

  fresh_streak-lapsed :
      (older : History) (now k : ℕ)
      → IsTimed older
      → fresh_streak (after cfg older) now k
        ≡ (if lapsed cfg.reset_after_ms now (last_failure older) then 0 else k)
  unfolding fresh_streak
  fresh_streak-lapsed older now k t =
      rw
        (
          last_error_at_ms-after older,
          is_stale-eq-lapsed now (last_failure older) (last_failure_pos older t),
        )
        refl

  abbrev Counted : History → Type 0
  Counted h =
      ((after cfg h).consecutive_errors
        ≡ streak cfg.reset_after_ms (λ k. should_count_error_kind k cfg.count_error_kinds) h)
      × ((after cfg h).consecutive_timeouts ≡ streak cfg.reset_after_ms is_timeout h)

  after_newest :
      (now : ℕ) (res : ActionResult) (older : History)
      → after cfg ((now, res) ∷ older) ≡ (on_action_result cfg (after cfg older) res now).0
  unfolding after
  after_newest now res older = refl

  -- What a failing result makes of a state and of a history.
  on_action_result_failed :
      (s : BackoffState) (now : ℕ) (res : ActionResult)
      → res.simulated ≡ false
      → is_truthy res.error ≡ true
      → on_action_result cfg s res now
        ≡ on_error cfg s (kind_of (infer_error_info res)) (infer_error_info res) res.action_kind now
  unfolding on_action_result
  on_action_result_failed s now res executed failed = simp (on, executed, failed)

  streak_failed :
      (counts : ErrorKind → Bool) (now : ℕ) (res : ActionResult) (older : History)
      → res.simulated ≡ false
      → is_truthy res.error ≡ true
      → streak cfg.reset_after_ms counts ((now, res) ∷ older)
        ≡ (if counts (kind_of (infer_error_info res)) then 1 else 0)
          + (if lapsed cfg.reset_after_ms now (last_failure older)
              then 0
              else streak cfg.reset_after_ms counts older)
  unfolding streak
  streak_failed counts now res older executed failed = simp (executed, failed)

  failure-Counted :
      (now : ℕ) (res : ActionResult) (older : History)
      → IsTimed older
      → res.simulated ≡ false
      → is_truthy res.error ≡ true
      → Counted older
      → Counted ((now, res) ∷ older)
  failure-Counted now res older t executed failed (errors, timeouts) =
      let kind = kind_of (infer_error_info res) in
      let s = after cfg older in
      let (e, o) = on_error_counters s kind (infer_error_info res) res.action_kind now in
      simp
        (
          after_newest now res older,
          on_action_result_failed s now res executed failed,
          streak_failed _ now res older executed failed,
          e,
          o,
          fresh_streak-lapsed older now
              (streak cfg.reset_after_ms (λ k. should_count_error_kind k cfg.count_error_kinds)
                older)
              t,
          fresh_streak-lapsed older now (streak cfg.reset_after_ms is_timeout older) t,
          errors,
          timeouts,
        )
        (refl, refl)

  other-Counted :
      (now : ℕ) (res : ActionResult) (older : History)
      → (res.simulated ≡ true) ⊎ (is_truthy res.error ≡ false)
      → Counted older
      → Counted ((now, res) ∷ older)
  unfolding after streak on_action_result on_success
  other-Counted now res older skip c = ground arith

  after-Counted : (h : History) → IsTimed h → Counted h
  unfolding after streak
  after-Counted [] t = (refl, refl)
  after-Counted ((now, res) ∷ older) t = elim (Bool-cases res.simulated) [
    | inl sim ↦ other-Counted now res older (inl sim) (after-Counted older t.1)
    | inr executed ↦ elim (Bool-cases (is_truthy res.error)) [
      | inl failed ↦ failure-Counted now res older t.1 executed failed (after-Counted older t.1)
      | inr success ↦ other-Counted now res older (inr success) (after-Counted older t.1)
    ]
  ]

-- While the controller is enabled and is handed results alone, at times after the epoch, its two counters
-- are the lengths of the streaks in the history: of the errors whose kind the configuration counts, and of
-- the timeouts. Simulated results do not count, and a success or a long pause ends a streak.
pub consecutive_errors-after :
    (cfg : BackoffConfig) (h : History)
    → cfg.enabled ≡ true
    → IsTimed h
    → ((after cfg h).consecutive_errors
        ≡ streak cfg.reset_after_ms (λ k. should_count_error_kind k cfg.count_error_kinds) h)
      × ((after cfg h).consecutive_timeouts ≡ streak cfg.reset_after_ms is_timeout h)
consecutive_errors-after cfg h on t = after-Counted cfg on h t
