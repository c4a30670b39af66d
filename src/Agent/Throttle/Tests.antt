-- ===== src/Agent/Throttle/Tests.antt =====
-- Runs of the semaphore of agents/sdk/src/util/semaphore.ts, and the theorem at a concrete input.
use claimrush.Prelude.{◌≤◌, ◌<◌, ◌≡◌, ◌⊎◌, refl, max, [], ◌∷◌, arith}
use claimrush.Agent.Throttle.{
  World, semaphore_of, acquire, release, Step, Reachable, Reachable-held,
}

-- Three acquire one of two slots each, and one releases.
abbrev busy : World
busy = acquire (acquire (acquire (semaphore_of 2) 1) 2) 3

busy_queue : busy.semaphore.queue ≡ 3 ∷ []
unfolding acquire semaphore_of
busy_queue = refl

two_hold : 0 < busy.held
unfolding acquire semaphore_of
two_hold = omega arith

-- The waiter takes the slot.
handed_on : (release busy).held ≡ 2
unfolding acquire release semaphore_of
handed_on = refl

busy_reachable : Reachable 2 (release busy)
busy_reachable =
    Reachable.next
      (Reachable.next
        (Reachable.next (Reachable.next Reachable.start (Step.acquires (semaphore_of 2) 1))
          (Step.acquires (acquire (semaphore_of 2) 1) 2))
        (Step.acquires (acquire (acquire (semaphore_of 2) 1) 2) 3))
      (Step.releases busy two_hold)

Reachable-held_example :
    ((release busy).held ≤ max 2 1)
    × (((release busy).semaphore.queue ≡ []) ⊎ ((release busy).held ≡ max 2 1))
Reachable-held_example = Reachable-held 2 (release busy) busy_reachable
