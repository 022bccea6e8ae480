-- ===== src/Order/Locking.antt =====
-- The checkout lock (apps/order/src/infrastructure/redis/checkout.lock.ts).
use food_ordering_app.Prelude.{ℕ, ◌+◌, ◌≤◌, ◌<◌, String, true, false, ◌≡◌, arith, eq_refl}
use food_ordering_app.Effect.{ok}
use food_ordering_app.Order.Model.{Env, World}
use food_ordering_app.Order.Ports.{is_held, acquire, release}

module _ {Num C : Type 0} (env : Env Num C) where
  open env use {clock}

  -- Redis's time when a state's next command runs.
  abbrev pub time : World C → ℕ
  time w = clock.now w.draws

  -- A customer's lock that one checkout took is refused to every other until 5 seconds have passed
  -- or it is released.
  pub acquire_excludes :
      (user : String) (w v : World C)
      → (acquire env user 5000 w).0 ≡ ok true
      → v.locks user ≡ (acquire env user 5000 w).1.locks user
      → time v < time w + 5000
      → (acquire env user 5000 v).0 ≡ ok false
  unfolding acquire is_held
  acquire_excludes user w v got kept soon = ground (arith, eq_refl user)

  -- A checkout that outlives its 5 seconds lets a second one in, and its own release then frees the
  -- second one's lock: a third gets in while the second one's time is not over.
  pub release_frees_successor :
      (user : String) (w v : World C)
      → (acquire env user 5000 w).0 ≡ ok true
      → v.locks user ≡ (acquire env user 5000 w).1.locks user
      → time w + 5000 ≤ time v
      → ((acquire env user 5000 v).0 ≡ ok true)
        × ((acquire env user 5000 (release user (acquire env user 5000 v).1).1).0 ≡ ok true)
  unfolding acquire release is_held
  release_frees_successor user w v got kept late = ground (arith, eq_refl user)
