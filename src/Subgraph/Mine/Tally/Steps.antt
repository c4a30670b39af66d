-- ===== src/Subgraph/Mine/Tally/Steps.antt =====
-- Each handler keeps the kings' aggregates equal to the history.
use claimrush.Prelude.{
  ℕ, ◌≡◌, refl, ◌∙◌, Option, none, some, List, ◌∷◌, arith, ◌==◌, if◌then◌else◌, Bool-cases, inl,
  inr,
}
use claimrush.Subgraph.Table.{Table, load}
use claimrush.Subgraph.Schema.{User, Meta, Network, zero_address}
use claimrush.Subgraph.Users.{
  load_or_create_user, load_or_create_protocol, new_user, ensure_user_ve_fields,
}
use claimrush.Subgraph.Users.Aggregate.{at, at_saved, loaded-at, at-loaded}
use claimrush.Subgraph.Mine.{
  TakeoverId, Takeover, Finalized, Reign, MineStore, note_mine_core, touch_user, add_activity,
}
use claimrush.Subgraph.Mine.Handlers.{
  with_takeover, with_reign, reign_duration, touch_previous, found_reign, handle_takeover,
  handle_reign_finalized,
}
use claimrush.Subgraph.Mine.Tally.{
  Tally, takeovers_made, eth_spent, claim_mined, longest_reign, of_row, of_history, IsTallied,
  count_made, sum_spent,
}

of_row-new : (q : Tally) (a : ℕ) → of_row q (new_user a) ≡ 0
of_row-new takeovers_made a = refl
of_row-new eth_spent a = refl
of_row-new claim_mined a = refl
of_row-new longest_reign a = refl

of_row-ensure : (q : Tally) (u : User) → of_row q (ensure_user_ve_fields u) ≡ of_row q u
of_row-ensure takeovers_made u = refl
of_row-ensure eth_spent u = refl
of_row-ensure claim_mined u = refl
of_row-ensure longest_reign u = refl

loaded :
    (q : Tally) (a : ℕ) (users : Table User)
    → of_row q (load_or_create_user a users).0 ≡ at (of_row q) a users
loaded q a users = loaded-at (of_row q) (of_row-new q) (of_row-ensure q) a users

untouched :
    (q : Tally) (u a : ℕ) (users : Table User)
    → at (of_row q) u (load_or_create_user a users).1 ≡ at (of_row q) u users
untouched q u a users = at-loaded (of_row q) (of_row-new q) (of_row-ensure q) u a users

untouched_previous :
    (q : Tally) (u previous : ℕ) (users : Table User)
    → at (of_row q) u (touch_previous previous users) ≡ at (of_row q) u users
untouched_previous q u previous users = elim (Bool-cases (previous == zero_address)) [
  | inl on ↦ rw (on, touch_previous) refl
  | inr off ↦ rw (off, touch_previous) (untouched q u previous users)
]

pub note-IsTallied :
    (network : Network) (m : Meta) (ms : MineStore)
    → IsTallied ms
    → IsTallied (note_mine_core network m ms)
unfolding note_mine_core load_or_create_protocol IsTallied
note-IsTallied network m ms h takeovers_made u = h takeovers_made u
note-IsTallied network m ms h eth_spent u = h eth_spent u
note-IsTallied network m ms h claim_mined u = h claim_mined u
note-IsTallied network m ms h longest_reign u = h longest_reign u

-- The aggregates are where they were and the history too.
pub unchanged :
    (ms ms' : MineStore)
    → ms'.takeovers ≡ ms.takeovers
    → ms'.finalized ≡ ms.finalized
    → ((q : Tally) (u : ℕ) → at (of_row q) u ms'.store.users ≡ at (of_row q) u ms.store.users)
    → IsTallied ms
    → IsTallied ms'
unfolding IsTallied
unchanged ms ms' e e' same h takeovers_made u = rw e (same takeovers_made u ∙ h takeovers_made u)
unchanged ms ms' e e' same h eth_spent u = rw e (same eth_spent u ∙ h eth_spent u)
unchanged ms ms' e e' same h claim_mined u = rw e' (same claim_mined u ∙ h claim_mined u)
unchanged ms ms' e e' same h longest_reign u = rw e' (same longest_reign u ∙ h longest_reign u)

pub touch-IsTallied : (a : ℕ) (ms : MineStore) → IsTallied ms → IsTallied (touch_user a ms)
unfolding touch_user
touch-IsTallied a ms h =
    unchanged ms (touch_user a ms) refl refl (λ q u. untouched q u a ms.store.users) h

-- What one more takeover does to a row, and to the history.
takeover_row :
    (q : Tally) (u king price n : ℕ) (row : User) (m : Meta) (reign_id reference at_time : ℕ)
    (previous : Option ℕ) (ms ms' : MineStore)
    → ms'.takeovers
      ≡ (record {
        id = TakeoverId.by_event m;
        reign = reign_id;
        previous_king = previous;
        new_king = king;
        price_paid_wei = price;
        reference_price_wei = reference;
        taken_at = at_time;
        event = m;
      })
        ∷ ms.takeovers
    → ms'.finalized ≡ ms.finalized
    → n ≡ of_history q u ms
    → (u ≡ king → of_row q row ≡ n)
    → (if u == king then of_row q (with_takeover price row) else n) ≡ of_history q u ms'
takeover_row takeovers_made u king price n row m reign_id reference at_time previous ms ms' e e' h
      own =
    rw e (ground (arith, own, h))
takeover_row eth_spent u king price n row m reign_id reference at_time previous ms ms' e e' h own =
    rw e (ground (arith, own, h))
takeover_row claim_mined u king price n row m reign_id reference at_time previous ms ms' e e' h
      own =
    rw e' (ground (arith, own, h))
takeover_row longest_reign u king price n row m reign_id reference at_time previous ms ms' e e' h
      own =
    rw e' (ground (arith, own, h))

own_row :
    (q : Tally) (u a : ℕ) (users : Table User)
    → u ≡ a
    → of_row q (load_or_create_user a users).0 ≡ at (of_row q) u users
own_row q u a users e = rw e (loaded q a users)

pub handle_takeover-IsTallied :
    (network : Network) (m : Meta) (reign_id previous king price reference at_time : ℕ)
    (ms : MineStore)
    → IsTallied ms
    → IsTallied (handle_takeover network m reign_id previous king price reference at_time ms)
unfolding handle_takeover add_activity IsTallied note_mine_core load_or_create_protocol
handle_takeover-IsTallied network m reign_id previous king price reference at_time ms h q u =
    at_saved (of_row q) u king (with_takeover price (load_or_create_user king ms.store.users).0)
      ms.store.users (touch_previous previous (load_or_create_user king ms.store.users).1)
      (λ x.
        untouched_previous q x previous (load_or_create_user king ms.store.users).1
        ∙ untouched q x king ms.store.users)
    ∙ takeover_row q u king price _ (load_or_create_user king ms.store.users).0 m reign_id reference
        at_time _ ms (handle_takeover network m reign_id previous king price reference at_time ms)
        refl refl (h q u) (own_row q u king ms.store.users)

-- What one more finalized reign does to a row, and to the history.
finalized_row :
    (q : Tally) (u n : ℕ) (row : User) (done : Finalized) (ms ms' : MineStore)
    → ms'.finalized ≡ done ∷ ms.finalized
    → (count_made u ms'.takeovers ≡ count_made u ms.takeovers)
      × (sum_spent u ms'.takeovers ≡ sum_spent u ms.takeovers)
    → n ≡ of_history q u ms
    → (u ≡ done.of_king → of_row q row ≡ n)
    → (if u == done.of_king
        then of_row q
            (with_reign done.claim_mined_wei (reign_duration done.from_time done.to_time) row)
        else n)
      ≡ of_history q u ms'
finalized_row takeovers_made u n row done ms ms' e same h own = rw same.0 (ground (arith, own, h))
finalized_row eth_spent u n row done ms ms' e same h own = rw same.1 (ground (arith, own, h))
finalized_row claim_mined u n row done ms ms' e same h own = rw e (ground (arith, own, h))
finalized_row longest_reign u n row done ms ms' e same h own = rw e (ground (arith, own, h))

-- A placeholder is no takeover and costs nothing.
found_reign-history :
    (u : ℕ) (m : Meta) (reign_id king started : ℕ) (known : Option Reign) (rows : List Takeover)
    → (count_made u (found_reign m reign_id king started known rows).1 ≡ count_made u rows)
      × (sum_spent u (found_reign m reign_id king started known rows).1 ≡ sum_spent u rows)
found_reign-history u m reign_id king started none rows = (omega arith, ground arith)
found_reign-history u m reign_id king started (some r) rows = (refl, refl)

pub handle_reign_finalized-IsTallied :
    (network : Network) (m : Meta) (reign_id king started ended mined eth : ℕ) (ms : MineStore)
    → IsTallied ms
    → IsTallied (handle_reign_finalized network m reign_id king started ended mined eth ms)
unfolding handle_reign_finalized add_activity IsTallied note_mine_core load_or_create_protocol
handle_reign_finalized-IsTallied network m reign_id king started ended mined eth ms h q u =
    at_saved (of_row q) u king
      (with_reign mined (reign_duration started ended) (load_or_create_user king ms.store.users).0)
      ms.store.users (load_or_create_user king ms.store.users).1
      (λ x. untouched q x king ms.store.users)
    ∙ finalized_row q u _ (load_or_create_user king ms.store.users).0
        (record {
          of_reign = reign_id;
          of_king = king;
          from_time = started;
          to_time = ended;
          claim_mined_wei = mined;
          eth_to_king_wei = eth;
          finalized_at = m;
        })
        ms (handle_reign_finalized network m reign_id king started ended mined eth ms) refl
        (found_reign-history u m reign_id king started (load reign_id ms.reigns) ms.takeovers)
        (h q u) (own_row q u king ms.store.users)
