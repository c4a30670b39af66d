-- ===== src/Agent/Cursor/Restart.antt =====
-- What a restart of agents/sdk/src/agent/eventCursor.ts restores from its file.
use claimrush.Prelude.{
  ℕ, ◌≤◌, ◌≡◌, refl, sym, ap, ◌∙◌, Bool, true, false, ◌||◌, ◌==◌, some, List, [], ◌∷◌, ◌++◌, Text,
  ltb, leb, if◌then◌else◌, Bool-cases, inl, inr, subst, length, min, includes, same_text, keep, All,
  arith,
}
use claimrush.Agent.Cursor.State.{
  EventCursor, set_from, base, is_key, newest, load, load_raw, read_file, Persisted, persist,
  hard_max_recent_keys,
}
use claimrush.Agent.Cursor.Keys.{IsKey, NoDup, IsSynced, newest_short, not_same_sym}

or_left : (a b : Bool) → (a || b) ≡ false → a ≡ false
or_left a b e = ground arith

or_right : (a b : Bool) → (a || b) ≡ false → b ≡ false
or_right a b e = ground arith

keep-All : (ks : List Text) → All IsKey ks → keep is_key ks ≡ ks
keep-All [] h = refl
keep-All (k ∷ ks) h = rw h.0 (ap (λ xs. k ∷ xs) (keep-All ks h.1))

append_one :
    (set : List Text) (k : Text) (ks : List Text) → (set ++ (k ∷ [])) ++ ks ≡ set ++ (k ∷ ks)
append_one [] k ks = refl
append_one (x ∷ set) k ks = ap (λ xs. x ∷ xs) (append_one set k ks)

append_none : (ks : List Text) → ks ++ [] ≡ ks
append_none [] = refl
append_none (k ∷ ks) = ap (λ xs. k ∷ xs) (append_none ks)

includes-middle :
    (set : List Text) (k x : Text) (ks : List Text)
    → includes (set ++ (k ∷ ks)) x ≡ false
    → same_text k x ≡ false
unfolding includes
includes-middle [] k x ks h = or_left _ _ h
includes-middle (y ∷ set) k x ks h = includes-middle set k x ks (or_right _ _ h)

includes-later :
    (set : List Text) (k : Text) (ks : List Text) → NoDup (set ++ (k ∷ ks)) → includes set k ≡ false
unfolding includes
includes-later [] k ks h = refl
includes-later (x ∷ set) k ks h =
    rw (not_same_sym k x (includes-middle set k x ks h.0)) (includes-later set k ks h.1)

-- A list with no key twice is the set of its keys.
set_from_same : (set ks : List Text) → NoDup (set ++ ks) → set_from set ks ≡ set ++ ks
set_from_same set [] h = sym (append_none set)
set_from_same set (k ∷ ks) h = rw (includes-later set k ks h) (
    set_from_same (set ++ (k ∷ [])) ks (subst NoDup (sym (append_one set k ks)) h)
    ∙ append_one set k ks)

restored_same :
    (max : ℕ) (keys : List Text)
    → All IsKey keys
    → NoDup keys
    → length keys ≤ max
    → (newest max (keep is_key keys) ≡ keys) × (set_from [] (newest max (keep is_key keys)) ≡ keys)
restored_same max keys all no_dup h =
    rw (keep-All keys all) (rw (newest_short max keys short) (refl, set_from_same [] keys no_dup))
  where
    short : ltb max (length keys) ≡ false
    short = ground arith

abbrev with_keys : EventCursor → ℕ → List Text → List Text → EventCursor
with_keys s max keys set = record s { max_recent_keys = max; recent_keys = keys; recent_set = set }

rebuilt :
    (s : EventCursor) {max max' : ℕ} {keys keys' set set' : List Text}
    → max' ≡ max
    → keys' ≡ keys
    → set' ≡ set
    → with_keys s max' keys' set' ≡ with_keys s max keys set
rebuilt s em ek es = rw em (rw ek (rw es refl))

same_id : (n : ℕ) → (n == n) ≡ true
same_id n = ground arith

not_larger : (n max : ℕ) → leb n max ≡ true → ltb max n ≡ false
not_larger n max h = ground arith

larger : (n max : ℕ) → leb n max ≡ false → ltb max n ≡ true
larger n max h = ground arith

loaded_same :
    (s : EventCursor)
    → IsSynced s
    → s.max_recent_keys ≤ hard_max_recent_keys
    → load_raw s.chain_id (base s.chain_id s.rewind_blocks s.max_recent_keys) (some (persist s)) ≡ s
unfolding base persist
loaded_same s h within =
    let fits =
      restored_same (min s.max_recent_keys hard_max_recent_keys) s.recent_keys h.all_keys h.no_dup
        room in
    rw (same_id s.chain_id) (rebuilt s limit fits.0 (fits.1 ∙ sym h.same_keys))
  where
    limit : min s.max_recent_keys hard_max_recent_keys ≡ s.max_recent_keys
    limit = omega arith

    room : length s.recent_keys ≤ min s.max_recent_keys hard_max_recent_keys
    room = omega (arith, h.bounded)

-- Loading, with the same settings, the file of a state whose list and set of keys are in step and whose
-- limit is within the hard limit, gives the state back if the file has at most 1,000,000 bytes, and a new
-- cursor without a checkpoint or keys if it has more, whatever size the state's text takes.
pub load-persist :
    (size_of : Persisted → ℕ) (s : EventCursor)
    → IsSynced s
    → s.max_recent_keys ≤ hard_max_recent_keys
    → let written = persist s in
      load s.chain_id s.rewind_blocks s.max_recent_keys (some (size_of written, some written)) ≡ (
        if leb (size_of written) 1_000_000
        then s
        else base s.chain_id s.rewind_blocks s.max_recent_keys)
unfolding load read_file
load-persist size_of s h within = elim (Bool-cases (leb (size_of (persist s)) 1_000_000)) [
  | inl fits ↦ rw (not_larger _ _ fits, fits) (loaded_same s h within)
  | inr large ↦ rw (larger _ _ large, large) refl
]
