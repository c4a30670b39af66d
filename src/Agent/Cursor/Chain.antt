-- ===== src/Agent/Cursor/Chain.antt =====
-- The checkpoint of agents/sdk/src/agent/eventCursor.ts against the chain.
use claimrush.Prelude.{
  ℕ, ◌<◌, ◌≡◌, refl, sym, ap, ◌∙◌, inl, inr, true, false, Option, none, some, List, [], ◌∷◌, Text,
  subst, if◌then◌else◌, max, same_text, same_text_refl, arith, Bool-cases,
}
use claimrush.Agent.Cursor.State.{
  ClaimRushEvent, EventCursor, record_key, record_block, record_processed_event, is_later, rewind,
  validate_against_chain, stands,
}
use claimrush.Agent.Cursor.Window.{record_all}

-- The highest block of the events and of the checkpoint.
abbrev pub highest : Option ℕ → List (ClaimRushEvent × Option Text) → Option ℕ
highest none [] = none
highest none (e ∷ es) = highest (some e.0.block_number) es
highest (some last) [] = some last
highest (some last) (e ∷ es) = highest (some (max last e.0.block_number)) es

abbrev later_block : Option ℕ → ℕ → ℕ
later_block none block = block
later_block (some last) block = max last block

highest-nil : (last : Option ℕ) → last ≡ highest last []
highest-nil none = refl
highest-nil (some last) = refl

highest-cons :
    (last : Option ℕ) (e : ClaimRushEvent × Option Text) (es : List (ClaimRushEvent × Option Text))
    → highest last (e ∷ es) ≡ highest (some (later_block last e.0.block_number)) es
highest-cons none e es = refl
highest-cons (some last) e es = refl

abbrev block_after : (last : Option ℕ) (block : ℕ) → Option ℕ
block_after last block = if is_later block last then some block else last

block_after-later :
    (last : Option ℕ) (block : ℕ) → block_after last block ≡ some (later_block last block)
block_after-later none block = refl
block_after-later (some last) block = ground arith

last_after_event :
    (s : EventCursor) (ev : ClaimRushEvent) (hash : Option Text)
    → (record_processed_event s ev hash).last_processed_block
      ≡ block_after s.last_processed_block ev.block_number
unfolding record_processed_event record_key record_block
last_after_event s ev hash = elim (Bool-cases (is_later ev.block_number s.last_processed_block)) [
  | inl later ↦ rw later refl
  | inr earlier ↦ rw earlier refl
]

-- After any events, the checkpoint is the highest block that was seen.
pub record_all-highest :
    (s : EventCursor) (es : List (ClaimRushEvent × Option Text))
    → (record_all s es).last_processed_block ≡ highest s.last_processed_block es
record_all-highest s [] = highest-nil s.last_processed_block
record_all-highest s (e ∷ es) =
    record_all-highest (record_processed_event s e.0 e.1) es
    ∙ (ap (λ last. highest last es)
          (last_after_event s e.0 e.1 ∙ block_after-later s.last_processed_block e.0.block_number)
        ∙ sym (highest-cons s.last_processed_block e es))

-- The events of a chain that answers every query.
abbrev pub answered : (ℕ → Text) → List ClaimRushEvent → List (ClaimRushEvent × Option Text)
answered chain [] = []
answered chain (ev ∷ evs) = (ev, some (chain ev.block_number)) ∷ answered chain evs

abbrev HasHash : (ℕ → Text) → Option ℕ → Option Text → Type 0
HasHash chain none hash = Unit
HasHash chain (some last) hash = hash ≡ some (chain last)

-- The chain's answer for the last block.
abbrev pub answer : (ℕ → Text) → Option ℕ → Option Text
answer chain none = none
answer chain (some last) = some (chain last)

HasHash-stands :
    (chain : ℕ → Text) (last : Option ℕ) (hash : Option Text)
    → HasHash chain last hash
    → stands last hash (answer chain last) ≡ true
HasHash-stands chain none hash h = refl
HasHash-stands chain (some last) hash h = rw h (rw (same_text_refl (chain last)) (ground arith))

event-HasHash :
    (chain : ℕ → Text) (s : EventCursor) (ev : ClaimRushEvent)
    → HasHash chain s.last_processed_block s.last_processed_block_hash
    → let after = record_processed_event s ev (some (chain ev.block_number)) in
      HasHash chain after.last_processed_block after.last_processed_block_hash
unfolding record_processed_event record_key record_block
event-HasHash chain s ev h = elim (Bool-cases (is_later ev.block_number s.last_processed_block)) [
  | inl later ↦ rw later refl
  | inr earlier ↦ rw earlier h
]

record_all-HasHash :
    (chain : ℕ → Text) (s : EventCursor) (evs : List ClaimRushEvent)
    → HasHash chain s.last_processed_block s.last_processed_block_hash
    → let after = record_all s (answered chain evs) in
      HasHash chain after.last_processed_block after.last_processed_block_hash
record_all-HasHash chain s [] h = h
record_all-HasHash chain s (ev ∷ evs) h =
    record_all-HasHash chain (record_processed_event s ev (some (chain ev.block_number))) evs
      (event-HasHash chain s ev h)

validated :
    (s : EventCursor) (got : Option Text)
    → stands s.last_processed_block s.last_processed_block_hash got ≡ true
    → validate_against_chain s got ≡ (true, s)
unfolding validate_against_chain
validated s got h = rw h refl

refuted :
    (s : EventCursor) (got : Option Text)
    → stands s.last_processed_block s.last_processed_block_hash got ≡ false
    → validate_against_chain s got ≡ (false, rewind s)
unfolding validate_against_chain
refuted s got h = rw h refl

stale :
    (chain : ℕ → Text) (old block : ℕ) (last : Option ℕ) (hash : Option Text)
    → last ≡ some block
    → hash ≡ some (chain old)
    → same_text (chain old) [] ≡ false
    → same_text (chain block) (chain old) ≡ false
    → stands last hash (answer chain last) ≡ false
stale chain old block last hash at is known differ = rw at (rw is (rw known (rw differ refl)))

hash_unanswered :
    (s : EventCursor) (ev : ClaimRushEvent)
    → (record_processed_event s ev none).last_processed_block_hash ≡ s.last_processed_block_hash
unfolding record_processed_event record_key record_block
hash_unanswered s ev = elim (Bool-cases (is_later ev.block_number s.last_processed_block)) [
  | inl later ↦ rw later refl
  | inr earlier ↦ rw earlier refl
]

-- From a state without a checkpoint, after events of a chain that does not change and that answered every
-- query, the checkpoint stands at the next start.
pub validate_against_chain-answered :
    (chain : ℕ → Text) (s : EventCursor) (evs : List ClaimRushEvent)
    → s.last_processed_block ≡ none
    → let after = record_all s (answered chain evs) in
      validate_against_chain after (answer chain after.last_processed_block) ≡ (true, after)
validate_against_chain-answered chain s evs first =
    let after = record_all s (answered chain evs) in
    validated after (answer chain after.last_processed_block) (
      HasHash-stands chain after.last_processed_block after.last_processed_block_hash (
        record_all-HasHash chain s evs
          (subst (λ last. HasHash chain last s.last_processed_block_hash) (sym first) tt)))

-- Where the checkpoint has the chain's hash of its block, not an empty one, and the query for the block
-- of a later event fails, the hash stays that of the earlier block: if the two blocks' hashes differ, the
-- next start finds the checkpoint wrong and rewinds, although the chain did not change.
pub validate_against_chain-unanswered :
    (chain : ℕ → Text) (s : EventCursor) (ev : ClaimRushEvent) (last : ℕ)
    → s.last_processed_block ≡ some last
    → s.last_processed_block_hash ≡ some (chain last)
    → last < ev.block_number
    → same_text (chain last) [] ≡ false
    → same_text (chain ev.block_number) (chain last) ≡ false
    → let after = record_processed_event s ev none in
      validate_against_chain after (answer chain after.last_processed_block) ≡ (false, rewind after)
validate_against_chain-unanswered chain s ev last at hash higher known differ =
    let after = record_processed_event s ev none in
    refuted after (answer chain after.last_processed_block) (
      stale chain last ev.block_number after.last_processed_block after.last_processed_block_hash
        (last_after_event s ev none ∙ (ap (λ l. block_after l ev.block_number) at ∙ moved))
        (hash_unanswered s ev ∙ hash) known differ)
  where
    moved : block_after (some last) ev.block_number ≡ some ev.block_number
    moved = ground arith
