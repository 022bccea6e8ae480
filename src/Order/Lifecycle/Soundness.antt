-- ===== src/Order/Lifecycle/Soundness.antt =====
-- Each order's status agrees with its history (`statusHistory` of
-- apps/order/src/infrastructure/persistence/typeorm.repositories.ts).
use food_ordering_app.Prelude.{
  ℕ, Bool, true, Option, none, some, List, [], ◌∷◌, ◌++◌, ◌≡◌, refl, ap, All,
}
use food_ordering_app.Domain.{OrderStatus, pending, cancelled, is_pending}
use food_ordering_app.Order.Model.{Order, StatusChange, OrderDraft, Env, World}
use food_ordering_app.Order.Repository.{new_order}
use food_ordering_app.Order.Settlement.{status_of}
use food_ordering_app.Order.Tables.{All-find, All-append, All-save, restatused}
use food_ordering_app.Order.Lifecycle.{Reach, here, next}
use food_ordering_app.Order.Lifecycle.Steps.{
  Change, same, added, cancelled_row, settled_row, Step-Change,
}

-- The status of the last entry.
abbrev pub last_status : List StatusChange → Option OrderStatus
last_status [] = none
last_status (h ∷ []) = some h.status
last_status (h ∷ k ∷ hs) = last_status (k ∷ hs)

abbrev pub first_status : List StatusChange → Option OrderStatus
first_status [] = none
first_status (h ∷ _) = some h.status

last_status-concat :
    (hs : List StatusChange) (h : StatusChange) → last_status (hs ++ (h ∷ [])) ≡ some h.status
last_status-concat [] h = refl
last_status-concat (k ∷ []) h = refl
last_status-concat (k ∷ j ∷ hs) h = last_status-concat (j ∷ hs) h

first_status-concat :
    (hs : List StatusChange) (h : StatusChange) (s : OrderStatus)
    → first_status hs ≡ some s
    → first_status (hs ++ (h ∷ [])) ≡ some s
first_status-concat [] h s e = cc
first_status-concat (k ∷ hs) h s e = e

-- The history began as pending and ends with the order's status, and only a cancelled order is
-- deleted.
pub record IsSound (o : Order) : Type 0 where
  pub began : first_status o.status_history ≡ some pending
  pub current : last_status o.status_history ≡ some o.status
  pub deletion : o.soft_deleted ≡ true → o.status ≡ cancelled

module _ {Num C : Type 0} (env : Env Num C) where
  open env use {clock}

  new_order-IsSound : (n : ℕ) (d : OrderDraft) → IsSound (new_order clock n d)
  unfolding new_order
  new_order-IsSound n d = record { began = refl; current = refl; deletion = λ h. cc }

  restatused-IsSound :
      (w : World C) (o : Order) (s : OrderStatus) (deleted : Bool)
      → IsSound o
      → (deleted ≡ true → s ≡ cancelled)
      → IsSound (restatused env w o s deleted)
  restatused-IsSound w o s deleted h d = record {
    began = first_status-concat o.status_history _ pending h.began;
    current = last_status-concat o.status_history _;
    deletion = d;
  }

  Change-IsSound :
      (rows rows' : List Order) → Change env rows rows' → All IsSound rows → All IsSound rows'
  Change-IsSound rows rows' (same e) h = rw e h
  Change-IsSound rows rows' (added n d e) h =
      rw e (All-append IsSound rows (new_order clock n d ∷ []) h (new_order-IsSound n d, tt))
  Change-IsSound rows rows' (cancelled_row w id o flag e q) h = rw q (
      All-save IsSound _ rows h
        (restatused-IsSound w o cancelled _ (All-find IsSound id rows h e) (λ _. refl)))
  Change-IsSound rows rows' (settled_row w id o p e pend q) h =
      let sound = All-find IsSound id rows h e in
      rw q (
        All-save IsSound _ rows h (
          restatused-IsSound w o (status_of p) _ sound
            (λ d. let c = sound.deletion d in cc (pend, ap is_pending c))))

  -- In every reachable state each order's history begins as pending and ends with the order's
  -- status, and only cancelled orders are deleted.
  pub Reach-IsSound :
      {w w' : World C} → Reach env w w' → All IsSound w.db.orders → All IsSound w'.db.orders
  Reach-IsSound here h = h
  Reach-IsSound (next {u} {v} r s) h =
      Change-IsSound u.db.orders v.db.orders (Step-Change env s) (Reach-IsSound r h)
