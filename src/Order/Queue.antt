-- ===== src/Order/Queue.antt =====
-- The rows of the outbox that wait for the relay, in the order of their times (`claimOutboxBatch`
-- and `markOutboxPublished` of
-- apps/order/src/infrastructure/persistence/typeorm.repositories.ts).
use food_ordering_app.Prelude.{
  ap, sym, ◌∙◌, ℕ, zero, suc, min, length, order_by-count, String, true, false, List, [], ◌∷◌, ◌==◌,
  ◌≡◌, refl, inl, inr, arith, eq_refl, map, take, select, any, All, ◌⊎◌, not, drop, Bool,
  Bool-cases, IsOrdered, order_by-IsOrdered, order_by-All_back, All-take-drop, IsOrdered-split,
}
use food_ordering_app.Order.Model.{OutboxRow}
use food_ordering_app.Order.Repository.{is_unpublished, mark_published, oldest_first, is_older}

-- The rows that wait to be published.
abbrev pub waiting : List OutboxRow → List OutboxRow
waiting rows = select is_unpublished rows

abbrev pub ids_of : List OutboxRow → List String
ids_of rows = map (λ r. r.id) rows

-- The ids of the rows name this one.
abbrev pub is_named : List OutboxRow → OutboxRow → Bool
is_named rows r = any (λ i. i == r.id) (ids_of rows)

is_older_total : (a b : OutboxRow) → is_older a b ≡ false → is_older b a ≡ true
is_older_total a b h = ground arith

is_older_trans :
    (a b c : OutboxRow) → is_older a b ≡ true → is_older b c ≡ true → is_older a c ≡ true
is_older_trans a b c h k = ground arith

-- The rows that wait in the order of their times, as `claimOutboxBatch` reads them.
abbrev pub queue : List OutboxRow → List OutboxRow
queue rows = oldest_first (waiting rows)

pub queue-IsOrdered : (rows : List OutboxRow) → IsOrdered is_older (queue rows)
unfolding oldest_first
queue-IsOrdered rows = order_by-IsOrdered is_older is_older_total is_older_trans (waiting rows)

-- A mark ends the waiting of the rows whose ids are given, and of no other.
pub waiting-mark :
    (at : ℕ) (done rows : List OutboxRow)
    → waiting (mark_published at (ids_of done) rows)
      ≡ select (λ r. not (is_named done r)) (waiting rows)
unfolding mark_published
waiting-mark at done [] = refl
waiting-mark at done (r ∷ rows) = ground (arith, waiting-mark at done rows)

Named-cons :
    (d : OutboxRow) (done rows : List OutboxRow)
    → All (λ (r : OutboxRow). is_named done r ≡ true) rows
    → All (λ (r : OutboxRow). is_named (d ∷ done) r ≡ true) rows
Named-cons d done [] h = tt
Named-cons d done (r ∷ rows) h = (ground arith, Named-cons d done rows h.1)

Named-self : (rows : List OutboxRow) → All (λ (r : OutboxRow). is_named rows r ≡ true) rows
Named-self [] = tt
Named-self (r ∷ rows) = (ground (arith, eq_refl r.id), Named-cons r rows rows (Named-self rows))

-- The rows that are named, or are not older than `b`.
abbrev Later : List OutboxRow → OutboxRow → OutboxRow → Type 0
Later done b r = (is_named done r ≡ true) ⊎ (is_older b r ≡ true)

All-inl :
    (done : List OutboxRow) (b : OutboxRow) (rows : List OutboxRow)
    → All (λ (r : OutboxRow). is_named done r ≡ true) rows
    → All (Later done b) rows
All-inl done b [] h = tt
All-inl done b (r ∷ rows) h = (inl h.0, All-inl done b rows h.1)

All-inr :
    (done : List OutboxRow) (b : OutboxRow) (rows : List OutboxRow)
    → All (λ (r : OutboxRow). is_older b r ≡ true) rows
    → All (Later done b) rows
All-inr done b [] h = tt
All-inr done b (r ∷ rows) h = (inr h.0, All-inr done b rows h.1)

All-unnamed :
    (done : List OutboxRow) (b : OutboxRow) (rows : List OutboxRow)
    → All (Later done b) rows
    → All (λ (r : OutboxRow). is_older b r ≡ true) (select (λ r. not (is_named done r)) rows)
All-unnamed done b [] h = tt
All-unnamed done b (r ∷ rows) h = elim (Bool-cases (is_named done r)) [
  | inl e ↦ rw e (All-unnamed done b rows h.1)
  | inr e ↦ rw e (is_later h.0 e, All-unnamed done b rows h.1)
]
  where
    is_later : Later done b r → is_named done r ≡ false → is_older b r ≡ true
    is_later (inl k) e = absurd (cc)
    is_later (inr k) e = k

-- No row that waits after the first `n` were taken off is older than one of them.
pub left-Later :
    (n : ℕ) (rows : List OutboxRow)
    → All
        (λ (b : OutboxRow).
          All
            (λ (r : OutboxRow). is_older b r ≡ true)
            (select (λ r. not (is_named (take n (queue rows)) r)) (waiting rows)))
        (take n (queue rows))
unfolding oldest_first
left-Later n rows =
    each (take n (queue rows)) (IsOrdered-split is_older n (queue rows) (queue-IsOrdered rows))
  where
    each :
        (bs : List OutboxRow)
        → All
            (λ (b : OutboxRow). All (λ (r : OutboxRow). is_older b r ≡ true) (drop n (queue rows)))
            bs
        → All
            (λ (b : OutboxRow).
              All
                (λ (r : OutboxRow). is_older b r ≡ true)
                (select (λ r. not (is_named (take n (queue rows)) r)) (waiting rows)))
            bs
    each [] h = tt
    each (b ∷ bs) h = (
      All-unnamed (take n (queue rows)) b (waiting rows) (
          order_by-All_back is_older (Later (take n (queue rows)) b) (waiting rows) (
            All-take-drop is_older (Later (take n (queue rows)) b) n (queue rows)
              (All-inl (take n (queue rows)) b (take n (queue rows))
                (Named-self (take n (queue rows))))
              (All-inr (take n (queue rows)) b (drop n (queue rows)) h.0))),
      each bs h.1,
    )

select-all : (rows : List OutboxRow) → select (λ _. true) rows ≡ rows
select-all [] = refl
select-all (r ∷ rows) = ap (λ l. r ∷ l) (select-all rows)

take-length : (n : ℕ) (rows : List OutboxRow) → length (take n rows) ≡ min n (length rows)
take-length zero rows = omega arith
take-length (suc n) [] = omega arith
take-length (suc n) (r ∷ rows) = omega (arith, take-length n rows)

-- The first rows of the queue are as many as wait, up to a number.
pub queue-length :
    (n : ℕ) (rows : List OutboxRow) → length (take n (queue rows)) ≡ min n (length (waiting rows))
unfolding oldest_first
queue-length n rows =
    take-length n (queue rows)
    ∙ ap (min n) (
        ap length (sym (select-all (queue rows)))
        ∙ order_by-count is_older (λ _. true) (waiting rows)
        ∙ ap length (select-all (waiting rows)))
