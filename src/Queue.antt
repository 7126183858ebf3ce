-- ===== src/Queue.antt =====
-- A first-in first-out queue with a limit: what a ring of BIOS/src/ipc/zero_copy.c promises.
use team_os_3_0_baios.Base.{
  ℕ, Bool, true, false, List, [], ◌∷◌, ◌++◌, Option, none, some, ltb, if◌then◌else◌, length,
}

module _ {ℓ} {A : Type ℓ} where
  -- The oldest entry and the rest.
  unfoldable pub dequeue : List A → Option A × List A
  dequeue [] = (none, [])
  dequeue (x ∷ q) = (some x, q)

  -- Whether there was room, and the queue after.
  unfoldable pub enqueue : ℕ → List A → A → Bool × List A
  enqueue limit q x = if ltb (length q) limit then (true, q ++ (x ∷ [])) else (false, q)
