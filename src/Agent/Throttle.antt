-- ===== src/Agent/Throttle.antt =====
-- The semaphore of agents/sdk/src/util/semaphore.ts, used through `use`: who acquires a slot releases it once.
-- A waiter is a number.
use claimrush.Prelude.{
  ℕ, zero, suc, ◌+◌, ◌-◌, ◌≤◌, ◌<◌, ◌≡◌, ◌⊎◌, inl, inr, refl, List, [], ◌∷◌, ◌++◌, max, arith,
}
mod Tests

pub record Semaphore : Type 0 where
  pub max_concurrency : ℕ
  pub available : ℕ
  pub queue : List ℕ

-- The semaphore, and how many hold a slot.
pub record World : Type 0 where
  pub semaphore : Semaphore
  pub held : ℕ

-- A limit that is no positive integer is 1.
unfoldable pub semaphore_of : ℕ → World
semaphore_of limit = record {
  semaphore = record { max_concurrency = max limit 1; available = max limit 1; queue = [] };
  held = 0;
}

abbrev acquired : ℕ → ℕ → List ℕ → ℕ → ℕ → World
acquired limit zero queue' held' waiter = record {
  semaphore = record { max_concurrency = limit; available = 0; queue = queue' ++ (waiter ∷ []) };
  held = held';
}
acquired limit (suc n) queue' held' waiter = record {
  semaphore = record { max_concurrency = limit; available = n; queue = queue' };
  held = suc held';
}

unfoldable pub acquire : World → ℕ → World
acquire w waiter =
    acquired w.semaphore.max_concurrency w.semaphore.available w.semaphore.queue w.held waiter

abbrev released : ℕ → ℕ → List ℕ → ℕ → World
released limit free [] held' = record {
  semaphore = record { max_concurrency = limit; available = free + 1; queue = [] };
  held = held' - 1;
}
released limit free (next ∷ queue') held' = record {
  semaphore = record { max_concurrency = limit; available = free; queue = queue' };
  held = held';
}

-- The slot goes to the first waiter, if there is one.
unfoldable pub release : World → World
release w = released w.semaphore.max_concurrency w.semaphore.available w.semaphore.queue w.held

-- A slot is acquired at any time, and released by one who holds it.
pub data Step : World → World → Type 0 where
  acquires : (w : World) (waiter : ℕ) → Step w (acquire w waiter)
  releases : (w : World) → 0 < w.held → Step w (release w)

pub data Reachable (limit : ℕ) : World → Type 0 where
  start : Reachable limit (semaphore_of limit)
  next : {w u : World} → Reachable limit w → Step w u → Reachable limit u

-- The slots are held or available, and one waits only where none is available.
abbrev IsThrottled : ℕ → World → Type 0
IsThrottled limit w =
    (w.semaphore.max_concurrency ≡ max limit 1)
    × (w.held + w.semaphore.available ≡ max limit 1)
    × ((w.semaphore.queue ≡ []) ⊎ (w.semaphore.available ≡ 0))

acquired-IsThrottled :
    (limit m free : ℕ) (queue' : List ℕ) (held' waiter : ℕ)
    → m ≡ max limit 1
    → held' + free ≡ max limit 1
    → (queue' ≡ []) ⊎ (free ≡ 0)
    → IsThrottled limit (acquired m free queue' held' waiter)
acquired-IsThrottled limit m zero queue' held' waiter e h q = (e, h, inr refl)
acquired-IsThrottled limit m (suc n) queue' held' waiter e h (inl q) = (e, omega arith, inl q)
acquired-IsThrottled limit m (suc n) queue' held' waiter e h (inr q) = absurd (omega arith)

released-IsThrottled :
    (limit m free : ℕ) (queue' : List ℕ) (held' : ℕ)
    → 0 < held'
    → m ≡ max limit 1
    → held' + free ≡ max limit 1
    → (queue' ≡ []) ⊎ (free ≡ 0)
    → IsThrottled limit (released m free queue' held')
released-IsThrottled limit m free [] held' pos e h q = (e, omega arith, inl refl)
released-IsThrottled limit m free (x ∷ xs) held' pos e h (inl q) = cc
released-IsThrottled limit m free (x ∷ xs) held' pos e h (inr q) = (e, h, inr q)

Step-IsThrottled : (limit : ℕ) {w u : World} → Step w u → IsThrottled limit w → IsThrottled limit u
unfolding acquire release
Step-IsThrottled limit (Step.acquires w waiter) h =
    acquired-IsThrottled limit _ w.semaphore.available w.semaphore.queue w.held waiter h.0 h.1 h.2
Step-IsThrottled limit (Step.releases w some_held) h =
    released-IsThrottled limit _ w.semaphore.available w.semaphore.queue w.held some_held h.0 h.1
      h.2

Reachable-IsThrottled : (limit : ℕ) {w : World} → Reachable limit w → IsThrottled limit w
unfolding semaphore_of
Reachable-IsThrottled limit Reachable.start = (refl, omega arith, inl refl)
Reachable-IsThrottled limit (Reachable.next before step) =
    Step-IsThrottled limit step (Reachable-IsThrottled limit before)

bounded :
    (limit : ℕ) (w : World)
    → IsThrottled limit w
    → (w.held ≤ max limit 1) × ((w.semaphore.queue ≡ []) ⊎ (w.held ≡ max limit 1))
bounded limit w (m, h, inl q) = (omega arith, inl q)
bounded limit w (m, h, inr q) = (omega arith, inr (omega arith))

-- However acquiring and releasing interleave, the holders are never more than the limit (or than one, if it is
-- zero), and where one waits all slots are held.
pub Reachable-held :
    (limit : ℕ) (w : World)
    → Reachable limit w
    → (w.held ≤ max limit 1) × ((w.semaphore.queue ≡ []) ⊎ (w.held ≡ max limit 1))
Reachable-held limit w r = bounded limit w (Reachable-IsThrottled limit r)
