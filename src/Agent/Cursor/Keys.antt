-- ===== src/Agent/Cursor/Keys.antt =====
-- The recent keys of agents/sdk/src/agent/eventCursor.ts: the list and the set agree.
use claimrush.Prelude.{
  ℕ, zero, suc, inl, inr, ◌-◌, ◌≤◌, ◌≡◌, refl, Bool, true, false, not, ◌&&◌, ◌||◌, Option, List, [],
  ◌∷◌, ◌++◌, Text, ltb, if◌then◌else◌, length, drop, same_text, same_text_refl, includes, codes,
  All, All-append, arith, Bool-cases, length-drop, eq_of_same_text, tests,
}
use claimrush.Agent.Cursor.State.{
  ClaimRushEvent, key_for_event, EventCursor, is_key, newest, trim, keys_after, record_key,
  record_block, record_processed_event, is_later,
}

abbrev pub IsKey : Text → Type 0
IsKey k = is_key k ≡ true

abbrev pub NoDup : List Text → Type 0
NoDup [] = Unit
NoDup (k ∷ ks) = (includes ks k ≡ false) × NoDup ks

-- The list of keys after one more.
abbrev pub pushed : ℕ → Text → List Text → List Text
pushed max key keys = if includes keys key then keys else newest max (keys ++ (key ∷ []))

-- The set holds the keys of the list, which are different, not empty and at most as many as allowed.
pub record IsSynced (s : EventCursor) : Type 0 where
  pub same_keys : s.recent_set ≡ s.recent_keys
  pub no_dup : NoDup s.recent_keys
  pub all_keys : All IsKey s.recent_keys
  pub bounded : length s.recent_keys ≤ s.max_recent_keys

drop_nil : (n : ℕ) → drop {A = Text} n [] ≡ []
drop_nil zero = refl
drop_nil (suc n) = refl

newest_longer :
    (max : ℕ) (k : Text) (ks : List Text)
    → ltb max (length (k ∷ ks)) ≡ true
    → newest max (k ∷ ks) ≡ newest max ks
newest_longer max k ks h = rw shorter refl
  where
    shorter : suc (length ks) - max ≡ suc (length ks - max)
    shorter = omega (tests, h)

pub newest_short : (max : ℕ) (ks : List Text) → ltb max (length ks) ≡ false → newest max ks ≡ ks
newest_short max ks h = rw nothing refl
  where
    nothing : length ks - max ≡ 0
    nothing = ground arith

trim_synced :
    (max : ℕ) (ks : List Text) → All IsKey ks → trim max ks ks ≡ (newest max ks, newest max ks)
unfolding trim
trim_synced max [] h = rw (drop_nil (0 - max)) refl
trim_synced max (k ∷ ks) h = elim (Bool-cases (ltb max (length (k ∷ ks)))) [
  | inl long ↦
      rw (long, trim)
        (rw h.0 (rw (same_text_refl k) (rw (newest_longer max k ks long) (trim_synced max ks h.1))))
  | inr short ↦ rw (short, trim) (rw (newest_short max (k ∷ ks) short) refl)
]

or_assoc : (a b c : Bool) → (a || (b || c)) ≡ ((a || b) || c)
or_assoc true b c = refl
or_assoc false b c = refl

pub not_same_sym : (x k : Text) → same_text x k ≡ false → same_text k x ≡ false
not_same_sym x k h = elim (Bool-cases (same_text k x)) [
  | inl same ↦ cc (h, eq_of_same_text k x same, same_text_refl k)
  | inr other ↦ other
]

includes-append :
    (xs : List Text) (k x : Text) → includes (xs ++ (k ∷ [])) x ≡ (includes xs x || same_text k x)
unfolding includes
includes-append [] k x = ground arith
includes-append (y ∷ ys) k x =
    rw (includes-append ys k x) (or_assoc (same_text y x) (includes ys x) (same_text k x))

pub NoDup-append :
    (xs : List Text) (k : Text) → NoDup xs → includes xs k ≡ false → NoDup (xs ++ (k ∷ []))
unfolding includes
NoDup-append [] k h n = (refl, tt)
NoDup-append (x ∷ xs) k h n = (
  rw (includes-append xs k x) (or_false h.0 (not_same_sym x k (or_left n))),
  NoDup-append xs k h.1 (or_right n),
)
  where
    or_left : (same_text x k || includes xs k) ≡ false → same_text x k ≡ false
    or_left e = ground arith

    or_right : (same_text x k || includes xs k) ≡ false → includes xs k ≡ false
    or_right e = ground arith

    or_false : {a b : Bool} → a ≡ false → b ≡ false → (a || b) ≡ false
    or_false ea eb = rw ea eb

NoDup-drop : (n : ℕ) (xs : List Text) → NoDup xs → NoDup (drop n xs)
NoDup-drop zero xs h = h
NoDup-drop (suc n) [] h = h
NoDup-drop (suc n) (x ∷ xs) h = NoDup-drop n xs h.1

All-drop : (n : ℕ) (xs : List Text) → All IsKey xs → All IsKey (drop n xs)
All-drop zero xs h = h
All-drop (suc n) [] h = h
All-drop (suc n) (x ∷ xs) h = All-drop n xs h.1

append-IsKey : (xs : Text) (c : ℕ) (cs : Text) → IsKey (xs ++ (c ∷ cs))
unfolding same_text
append-IsKey [] c cs = refl
append-IsKey (x ∷ xs) c cs = refl

pub key_for_event-IsKey : (ev : ClaimRushEvent) → IsKey (key_for_event ev)
unfolding key_for_event
key_for_event-IsKey ev = elim (Bool-cases (ev.from_subgraph && not (same_text ev.subgraph_id []))) [
  | inl known ↦ rw known (append-IsKey [] b's' (codes "ubgraph:" ++ ev.subgraph_id))
  | inr unknown ↦ rw unknown (append-IsKey ev.transaction_hash b'-' ev.log_index)
]

pub keys_after_synced :
    (max : ℕ) (key : Text) (keys set : List Text)
    → set ≡ keys
    → All IsKey keys
    → IsKey key
    → keys_after max key keys set ≡ (pushed max key keys, pushed max key keys)
unfolding keys_after
keys_after_synced max key keys set e all new = elim (Bool-cases (includes keys key)) [
  | inl known ↦ rw e (rw known refl)
  | inr absent ↦ rw e (
      rw absent
        (trim_synced max (keys ++ (key ∷ [])) (All-append IsKey keys (key ∷ []) all (new, tt))))
]

-- The properties of the list of keys that a new key keeps.
pub pushed-NoDup :
    (max : ℕ) (key : Text) (keys : List Text) → NoDup keys → NoDup (pushed max key keys)
pushed-NoDup max key keys h = elim (Bool-cases (includes keys key)) [
  | inl known ↦ rw known h
  | inr absent ↦ rw absent (NoDup-drop _ (keys ++ (key ∷ [])) (NoDup-append keys key h absent))
]

pushed-All :
    (max : ℕ) (key : Text) (keys : List Text)
    → All IsKey keys
    → IsKey key
    → All IsKey (pushed max key keys)
pushed-All max key keys h new = elim (Bool-cases (includes keys key)) [
  | inl known ↦ rw known h
  | inr absent ↦
      rw absent (All-drop _ (keys ++ (key ∷ [])) (All-append IsKey keys (key ∷ []) h (new, tt)))
]

length-pushed :
    (max : ℕ) (key : Text) (keys : List Text)
    → length keys ≤ max
    → length (pushed max key keys) ≤ max
length-pushed max key keys h = elim (Bool-cases (includes keys key)) [
  | inl known ↦ rw known h
  | inr absent ↦
      rw absent
        (rw (length-drop (length (keys ++ (key ∷ [])) - max) (keys ++ (key ∷ []))) (omega arith))
]

record_key-IsSynced :
    (s : EventCursor) (key : Text) → IsSynced s → IsKey key → IsSynced (record_key s key)
unfolding record_key
record_key-IsSynced s key h new =
    let e =
      keys_after_synced s.max_recent_keys key s.recent_keys s.recent_set h.same_keys h.all_keys
        new in
    record {
      same_keys = rw e refl;
      no_dup = rw e (pushed-NoDup s.max_recent_keys key s.recent_keys h.no_dup);
      all_keys = rw e (pushed-All s.max_recent_keys key s.recent_keys h.all_keys new);
      bounded = rw e (length-pushed s.max_recent_keys key s.recent_keys h.bounded);
    }

record_block-IsSynced :
    (s : EventCursor) (block : ℕ) (hash : Option Text)
    → IsSynced s
    → IsSynced (record_block s block hash)
unfolding record_block
record_block-IsSynced s block hash h = elim (Bool-cases (is_later block s.last_processed_block)) [
  | inl later ↦ rw later (record {
    same_keys = h.same_keys;
    no_dup = h.no_dup;
    all_keys = h.all_keys;
    bounded = h.bounded;
  })
  | inr earlier ↦ rw earlier h
]

-- Recording an event, where the set and the list of keys are in step, keeps them in step, with no key
-- twice and no more keys than allowed.
pub record_processed_event-IsSynced :
    (s : EventCursor) (ev : ClaimRushEvent) (hash : Option Text)
    → IsSynced s
    → IsSynced (record_processed_event s ev hash)
unfolding record_processed_event
record_processed_event-IsSynced s ev hash h =
    record_block-IsSynced (record_key s (key_for_event ev)) ev.block_number hash
      (record_key-IsSynced s (key_for_event ev) h (key_for_event-IsKey ev))
