-- ===== src/Order/Outbox.antt =====
-- The outbox relay (`OutboxRelay.tick` of
-- apps/order/src/infrastructure/messaging/kafka.workers.ts, `claimOutboxBatch` and
-- `markOutboxPublished` of infrastructure/persistence/typeorm.repositories.ts).
use food_ordering_app.Prelude.{
  min, ℕ, ◌+◌, true, List, [], ◌∷◌, ◌++◌, ◌≡◌, refl, sym, ◌∙◌, ap, inl, inr, arith, map, length,
  take, select, All, not, IsOrdered, take-IsOrdered,
}
use food_ordering_app.Effect.{ok, err, Error, for_each, Result-cases}
use food_ordering_app.Domain.{payloads}
use food_ordering_app.Order.Model.{OutboxRow, Env, World, Broker}
use food_ordering_app.Order.Repository.{
  claim_outbox_batch, mark_published, is_older, mark_outbox_published,
}
use food_ordering_app.Order.Ports.{publish, traced}
use food_ordering_app.Order.Settlement.{relay_envelope, relay_row, relay_batch, tick}
use food_ordering_app.Order.Settling.{TakesAll}
use food_ordering_app.Order.Lifecycle.Steps.{relay_rows-db}
use mathlib.Core.List.{append-nil, append_assoc, map-append}
use food_ordering_app.Order.Queue.{
  waiting, ids_of, is_named, queue, queue-IsOrdered, waiting-mark, left-Later, queue-length,
}

module _ {Num C : Type 0} (env : Env Num C) where
  open env use {clock, broker}

  -- What `tick` takes up.
  abbrev pub batch : World C → List OutboxRow
  batch w = take 50 (queue w.db.outbox)

  relay_row-sends :
      (r : OutboxRow) (w : World C)
      → TakesAll env
      → relay_row env r w ≡ (
        ok tt,
        record w {
          sent = w.sent ++ (traced env (relay_envelope r (clock.now w.draws)) ∷ []);
          draws = w.draws + 1;
        },
      )
  unfolding relay_row publish
  relay_row-sends r w (on, accepts) =
      rw (on, accepts (traced env (relay_envelope r (clock.now w.draws))))

  -- All the rows of a batch are sent, in order.
  relay_rows :
      (rows : List OutboxRow) (w : World C)
      → TakesAll env
      → (v : World C) × (for_each (relay_row env) rows w ≡ (ok tt, v))
        × (v.db ≡ w.db)
        × (payloads v.sent ≡ payloads w.sent ++ map (λ r. r.payload) rows)
  unfolding for_each relay_envelope
  relay_rows [] w all = (w, refl, refl, sym (append-nil (payloads w.sent)))
  relay_rows (r ∷ rows) w all =
      let m = traced env (relay_envelope r (clock.now w.draws)) in
      let w₁ : World C = record w { sent = w.sent ++ (m ∷ []); draws = w.draws + 1 } in
      let (v, run, same, sent) = relay_rows rows w₁ all in
      (
        v,
        ground (arith, relay_row-sends r w all, run),
        same,
        sent
            ∙ ap (λ l. l ++ map (λ x. x.payload) rows) (map-append (λ x. x.payload) w.sent (m ∷ []))
            ∙ append_assoc (payloads w.sent) (r.payload ∷ []) (map (λ x. x.payload) rows),
      )

  mark_none : (at : ℕ) (rows : List OutboxRow) → mark_published at [] rows ≡ rows
  unfolding mark_published
  mark_none at [] = refl
  mark_none at (r ∷ rows) = ap (λ l. r ∷ l) (mark_none at rows)

  -- Once its rows went through, a batch is marked and counted.
  relay_batch-done :
      (rows : List OutboxRow) (w v : World C)
      → for_each (relay_row env) rows w ≡ (ok tt, v)
      → (at : ℕ) × (z : World C) × (relay_batch env rows w ≡ (ok (length rows), z))
        × (z.sent ≡ v.sent)
        × (z.db.outbox ≡ mark_published at (ids_of rows) v.db.outbox)
  unfolding relay_batch mark_outbox_published
  relay_batch-done [] w v h =
      let same : w ≡ v = unfold for_each in ap (λ z. z.1) h in
      (
        0,
        w,
        refl,
        ap (λ z. z.sent) same,
        ap (λ z. z.db.outbox) same ∙ sym (mark_none 0 v.db.outbox),
      )
  relay_batch-done (r ∷ rows) w v h =
      let ids = ids_of (r ∷ rows) in
      let z : World C = record v {
        db = record v.db { outbox = mark_published (clock.now v.draws) ids v.db.outbox };
        draws = v.draws + 1;
      } in
      (clock.now v.draws, z, ground arith, refl, refl)

  relay_batch-failed :
      (rows : List OutboxRow) (w : World C) (e : Error)
      → (for_each (relay_row env) rows w).0 ≡ err e
      → (relay_batch env rows w).1.db ≡ w.db
  unfolding relay_batch
  relay_batch-failed [] w e h = refl
  relay_batch-failed (r ∷ rows) w e h = ground (arith, relay_rows-db env (r ∷ rows) w)

  settled :
      (at : ℕ) (w z v : World C)
      → z.db.outbox ≡ mark_published at (ids_of (batch w)) v.db.outbox
      → v.db ≡ w.db
      → waiting z.db.outbox ≡ select (λ r. not (is_named (batch w) r)) (waiting w.db.outbox)
  settled at w z v marked same =
      ap waiting (marked ∙ ap (λ d. mark_published at (ids_of (batch w)) d.outbox) same)
      ∙ waiting-mark at (batch w) w.db.outbox

  -- With Kafka up, a tick takes up the first 50 waiting rows in the order of their times, all of them
  -- if there are no more, sends their payloads in this order and answers how many they are. Afterwards exactly the rows that
  -- have none of their ids wait, and none of those is older than one that was sent.
  pub tick-drains :
      (w : World C)
      → TakesAll env
      → let (r, v) = tick env w in
        (r ≡ ok (length (batch w)))
        × (length (batch w) ≡ min 50 (length (waiting w.db.outbox)))
        × (payloads v.sent ≡ payloads w.sent ++ map (λ r. r.payload) (batch w))
        × IsOrdered is_older (batch w)
        × (waiting v.db.outbox ≡ select (λ r. not (is_named (batch w) r)) (waiting w.db.outbox))
        × All
            (λ (b : OutboxRow). All (λ (r : OutboxRow). is_older b r ≡ true) (waiting v.db.outbox))
            (batch w)
  unfolding tick claim_outbox_batch
  tick-drains w all =
      let (v, run, same, sent) = relay_rows (batch w) w all in
      let (at, z, done, kept, marked) = relay_batch-done (batch w) w v run in
      let left = settled at w z v marked same in
      rw done (
        refl,
        queue-length 50 w.db.outbox,
        ap payloads kept ∙ sent,
        take-IsOrdered is_older 50 (queue w.db.outbox) (queue-IsOrdered w.db.outbox),
        left,
        rw left (left-Later 50 w.db.outbox),
      )

  -- Kafka refuses this row's message, whenever it is sent.
  abbrev pub IsRefused : OutboxRow → Type 0
  IsRefused r = (at : ℕ) → (e : Error) × (broker.send (traced env (relay_envelope r at)) ≡ err e)

  relay_row-fails :
      (r : OutboxRow) (w : World C)
      → broker.connected ≡ true
      → IsRefused r
      → (e : Error) × ((relay_row env r w).0 ≡ err e)
  unfolding relay_row publish
  relay_row-fails r w on refused = let (e, h) = refused (clock.now w.draws) in (e, ground arith)

  relay_rows-fail :
      (before after : List OutboxRow) (r : OutboxRow) (w : World C)
      → broker.connected ≡ true
      → IsRefused r
      → (e : Error) × ((for_each (relay_row env) (before ++ (r ∷ after)) w).0 ≡ err e)
  unfolding for_each
  relay_rows-fail [] after r w on refused =
      let (e, h) = relay_row-fails r w on refused in (e, ground arith)
  relay_rows-fail (b ∷ before) after r w on refused = elim (Result-cases (relay_row env b w).0) [
    | inl (_, k) ↦
        let (e, h) = relay_rows-fail before after r (relay_row env b w).1 on refused in
        (e, ground arith)
    | inr (e, k) ↦ (e, ground arith)
  ]

  relay_batch-fails :
      (rows : List OutboxRow) (w : World C) (e : Error)
      → (for_each (relay_row env) rows w).0 ≡ err e
      → (relay_batch env rows w).0 ≡ err e
  unfolding relay_batch
  relay_batch-fails [] w e h = absurd (unfold for_each in cc)
  relay_batch-fails (r ∷ rows) w e h = ground arith

-- The environment with another broker.
abbrev pub with_broker : {Num C : Type 0} → Env Num C → Broker → Env Num C
with_broker env b = record env { broker = b }

module _ {Num C : Type 0} (env : Env Num C) where
  open env use {broker}

  -- If the producer is connected and the message of some row of the batch is refused, the tick
  -- answers an error and leaves the tables as they were: no row is marked, whether its message was
  -- sent or not. The next tick, once the broker takes everything, sends the payloads of that whole
  -- batch, in its order.
  pub tick-retries :
      (w : World C) (before after : List OutboxRow) (r : OutboxRow) (up : Broker)
      → batch env w ≡ before ++ (r ∷ after)
      → broker.connected ≡ true
      → IsRefused env r
      → TakesAll (with_broker env up)
      → let (a, v) = tick env w in
        let (_, u) = tick (with_broker env up) v in
        ((e : Error) × (a ≡ err e))
        × (v.db ≡ w.db)
        × (payloads u.sent ≡ payloads v.sent ++ map (λ x. x.payload) (batch env w))
  unfolding tick claim_outbox_batch
  tick-retries w before after r up is on refused all =
      let (e, h) = relay_rows-fail env before after r w on refused in
      let fails : (for_each (relay_row env) (batch env w) w).0 ≡ err e = rw is h in
      let same : (tick env w).1.db ≡ w.db = relay_batch-failed env (batch env w) w e fails in
      (
        (e, relay_batch-fails env (batch env w) w e fails),
        same,
        (tick-drains (with_broker env up) (tick env w).1 all).2
            ∙ ap
                (λ d.
                  payloads (tick env w).1.sent ++ map (λ x. x.payload) (take 50 (queue d.outbox)))
                same,
      )
