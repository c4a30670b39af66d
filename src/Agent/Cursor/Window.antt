-- ===== src/Agent/Cursor/Window.antt =====
-- How long agents/sdk/src/agent/eventCursor.ts remembers an event, and what survives a restart.
use claimrush.Prelude.{
  ℕ, suc, ◌+◌, ◌-◌, ◌≤◌, ◌<◌, ◌≡◌, refl, sym, ap, ◌∙◌, inl, inr, Bool, true, false, not, Option,
  List, [], ◌∷◌, ◌++◌, Text, subst, length, drop, drop-append, same_text_refl, includes, arith,
  Bool-cases, length-append,
}
use claimrush.Agent.Cursor.State.{
  ClaimRushEvent, key_for_event, EventCursor, should_process, record_key, record_block,
  record_processed_event, is_later,
}
use claimrush.Agent.Cursor.Keys.{
  pushed, IsSynced, keys_after_synced, key_for_event-IsKey, record_processed_event-IsSynced,
}

-- The key stands in the list with at most `n` newer ones after it.
abbrev IsRecent : ℕ → Text → List Text → Type 0
IsRecent n key keys =
    (pre : List Text) × (post : List Text) × (keys ≡ pre ++ (key ∷ post)) × (length post ≤ n)

append_snoc :
    (pre post : List Text) (key other : Text)
    → (pre ++ (key ∷ post)) ++ (other ∷ []) ≡ pre ++ (key ∷ (post ++ (other ∷ [])))
append_snoc [] post key other = refl
append_snoc (x ∷ pre) post key other = ap (λ xs. x ∷ xs) (append_snoc pre post key other)

includes-IsRecent :
    (n : ℕ) (key : Text) (keys : List Text) → IsRecent n key keys → includes keys key ≡ true
unfolding includes
includes-IsRecent n key keys (pre, post, e, h) = rw e (found pre)
  where
    found : (pre : List Text) → includes (pre ++ (key ∷ post)) key ≡ true
    found [] = rw (same_text_refl key) refl
    found (x ∷ xs) = rw (found xs) (ground arith)

-- A new key is the newest, and one more key ages the others by one.
pushed-IsRecent :
    (max : ℕ) (key : Text) (keys : List Text)
    → 1 ≤ max
    → includes keys key ≡ false
    → IsRecent 0 key (pushed max key keys)
pushed-IsRecent max key keys h absent =
    (drop d keys, [], rw absent (drop-append d keys (key ∷ []) short), omega arith)
  where
    d : ℕ
    d = length (keys ++ (key ∷ [])) - max

    short : d ≤ length keys
    short = omega (arith, length-append keys (key ∷ []))

pushed-ages :
    (max n : ℕ) (key other : Text) (keys : List Text)
    → suc (suc n) ≤ max
    → IsRecent n key keys
    → IsRecent (suc n) key (pushed max other keys)
pushed-ages max n key other keys h (pre, post, e, near) = elim (Bool-cases (includes keys other)) [
  | inl known ↦ rw known (pre, post, e, omega arith)
  | inr absent ↦ rw absent (
    drop d pre,
    post ++ (other ∷ []),
    ap (drop d) shape ∙ drop-append d pre _ enough,
    omega (arith, length-append post (other ∷ [])),
  )
]
  where
    d : ℕ
    d = length (keys ++ (other ∷ [])) - max

    shape : keys ++ (other ∷ []) ≡ pre ++ (key ∷ (post ++ (other ∷ [])))
    shape = ap (λ ks. ks ++ (other ∷ [])) e ∙ append_snoc pre post key other

    total : length (keys ++ (other ∷ [])) ≡ length pre + suc (length post + 1)
    total =
        ap length shape
        ∙ (length-append pre _ ∙ ap (λ m. length pre + suc m) (length-append post (other ∷ [])))

    enough : d ≤ length pre
    enough = omega (arith, total)

module _ (s : EventCursor) where
  keys_after_event :
      (ev : ClaimRushEvent) (hash : Option Text)
      → IsSynced s
      → ((record_processed_event s ev hash).recent_keys
          ≡ pushed s.max_recent_keys (key_for_event ev) s.recent_keys)
        × ((record_processed_event s ev hash).max_recent_keys ≡ s.max_recent_keys)
  unfolding record_processed_event record_key record_block
  keys_after_event ev hash h =
      let e =
        keys_after_synced s.max_recent_keys (key_for_event ev) s.recent_keys s.recent_set
          h.same_keys h.all_keys (key_for_event-IsKey ev) in
      elim (Bool-cases (is_later ev.block_number s.last_processed_block)) [
        | inl later ↦ rw later (rw e (refl, refl))
        | inr earlier ↦ rw earlier (rw e (refl, refl))
      ]

-- The events recorded one after the other, each with the chain's answer for its block.
abbrev pub record_all : EventCursor → List (ClaimRushEvent × Option Text) → EventCursor
record_all s [] = s
record_all s (e ∷ es) = record_all (record_processed_event s e.0 e.1) es

stays_recent :
    (s : EventCursor) (n : ℕ) (key : Text) (es : List (ClaimRushEvent × Option Text))
    → IsSynced s
    → IsRecent n key s.recent_keys
    → suc (n + length es) ≤ s.max_recent_keys
    → includes (record_all s es).recent_set key ≡ true
stays_recent s n key [] h recent room =
    rw h.same_keys (includes-IsRecent n key s.recent_keys recent)
stays_recent s n key (e ∷ es) h recent room =
    let after = keys_after_event s e.0 e.1 h in
    stays_recent (record_processed_event s e.0 e.1) (suc n) key es
      (record_processed_event-IsSynced s e.0 e.1 h)
      (subst (IsRecent (suc n) key) (sym after.0) (
        pushed-ages s.max_recent_keys n key (key_for_event e.0) s.recent_keys (omega arith) recent))
      (omega (arith, after.1))

-- In a state whose list and set of keys are in step, a new event that is recorded is not processed again
-- while fewer further events are recorded than keys are kept.
pub should_process-record_all :
    (s : EventCursor) (ev : ClaimRushEvent) (hash : Option Text)
    (es : List (ClaimRushEvent × Option Text))
    → IsSynced s
    → should_process s ev ≡ true
    → length es < s.max_recent_keys
    → should_process (record_all (record_processed_event s ev hash) es) ev ≡ false
unfolding should_process
should_process-record_all s ev hash es h new room =
    let after = keys_after_event s ev hash h in
    rw
      (stays_recent (record_processed_event s ev hash) 0 (key_for_event ev) es
        (record_processed_event-IsSynced s ev hash h)
        (subst (IsRecent 0 (key_for_event ev)) (sym after.0)
          (pushed-IsRecent s.max_recent_keys (key_for_event ev) s.recent_keys (omega arith) absent))
        (omega (arith, after.1)))
      refl
  where
    not_true : {b : Bool} → not b ≡ true → b ≡ false
    not_true e = ground arith

    absent : includes s.recent_keys (key_for_event ev) ≡ false
    absent = subst (λ ks. includes ks (key_for_event ev) ≡ false) h.same_keys (not_true new)
