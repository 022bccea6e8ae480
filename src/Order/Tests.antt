-- ===== src/Order/Tests.antt =====
-- Runs of the order service on small data, and its theorems at concrete inputs.
use food_ordering_app.Prelude.{
  min, ℕ, zero, suc, ◌+◌, ◌*◌, ◌≤◌, String, Bool, true, false, none, some, [], ◌∷◌, ◌++◌, ◌==◌,
  if◌then◌else◌, leb, ◌≡◌, refl, arith, All, ◌⊎◌, length, map, eq_iff, ◌≢◌, not, select, IsOrdered,
  order_by, insert_by,
}
use food_ordering_app.Prelude.Int.{pos, negsuc}
use food_ordering_app.Effect.{ok, err, forbidden, Error, for_each}
use food_ordering_app.Text.{is_blank, ends_with}
use food_ordering_app.Domain.{
  card, OrderStatus, pending, cancelled, payloads, Topic, Payload, payload_order_id,
}
use food_ordering_app.Order.Model.{
  Order, OrderDraft, OutboxRow, Broker, PlaceOrderResult, PlaceOrderInput, CartLine, PaymentStatus,
  Env, World,
}
use food_ordering_app.Order.Repository.{
  find_order, claim_outbox_batch, new_order, place_order_row, find_idempotency, cancel, mark_status,
  save_status, insert_order,
}
use food_ordering_app.Order.Ports.{acquire, release, cod_charge, publish_event}
use food_ordering_app.Order.Service.{
  place_order, cancel_order, readable_order, cancel_found, parse_payment_type,
}
use food_ordering_app.Order.Lifecycle.{Reach, here, next, place, cancel_by, recorded}
use food_ordering_app.Order.Lifecycle.Evolution.{Evolves, Reach-TableEvolves}
use food_ordering_app.Order.Lifecycle.Replays.{place_order-replays}
use food_ordering_app.Order.Lifecycle.Soundness.{IsSound, Reach-IsSound}
use food_ordering_app.Order.Placement.{locked}
use food_ordering_app.Order.Placement.Atomic.{IsPlaced, place_order-atomic}
use food_ordering_app.Order.Placement.Effects.{LockKept, place_order-keeps_locks}
use food_ordering_app.Order.Tables.{restatused}
use food_ordering_app.Order.Cancellation.{cancel_order-refuses, cancel_order-cancels}
use food_ordering_app.Order.Settling.{announced, finalize_order-once, record_payment-late}
use food_ordering_app.Order.Outbox.{batch, IsRefused, with_broker, tick-drains, tick-retries}
use food_ordering_app.Order.Queue.{waiting, is_named}
use food_ordering_app.Order.Pages.{visible, list_my_orders-bounds}
use food_ordering_app.Order.Locking.{acquire_excludes, release_frees_successor}
use food_ordering_app.Order.Repository.{summary, created_row, oldest_first, is_older}
use food_ordering_app.Order.Settlement.{OrderPage, safe_limit, list_my_orders, relay_envelope}
use food_ordering_app.Order.Settlement.{
  charge_pending, record_payment, finalize_order, tick, relay_row, announce, relay_batch,
}

-- Distinct texts.
abbrev uuid : ℕ → String
uuid zero = "a"
uuid (suc n) = String.◌∷◌ "a" (uuid n)

-- The cart service's state: whether the customer's cart is full.
abbrev line : CartLine
line = record {
  product_id = "p";
  variant_id = "v";
  label = "Large";
  unit_price = "9";
  quantity = 2;
}

abbrev env : Env ℕ Bool
env = record {
  numbers = record {
    number = λ s. if s == "5" then 5 else 7;
    nothing = 0;
    add = λ a b. a + b;
    times = λ a n. a * n;
    to_fixed = λ n. if leb n 10 then "10.00" else "14.00";
  };
  clock = record { uuid = uuid; now = λ n. n };
  gateways = record {
    get_cart = λ u full.
        ok (record { user_id = u; items = if full then line ∷ [] else []; total = "18.00" });
    clear_cart = λ u full. (ok tt, false);
    resolve_line = λ p v full.
        ok (
          some
            (record { product_name = "Pizza"; label = "L"; unit_price = "5"; is_active = true }));
  };
  broker = record { connected = true; active_trace = none; send = λ m. ok tt };
  charge = cod_charge;
}

abbrev start : World Bool
start = record {
  db = record { orders = []; outbox = []; idempotency = λ k. none };
  locks = λ u. none;
  remote = true;
  sent = [];
  charged = [];
  draws = 0;
}

abbrev order_for : String → PlaceOrderInput
order_for key = record { user_id = "ann"; payment_type = "Card"; idempotency_key = key }

abbrev placed_world : World Bool
placed_world = (place_order env (order_for "k") start).1

abbrev answer : PlaceOrderResult
answer = record { order_id = "aa"; status = pending; total = "10.00" }

-- What the runs below compute with.
service : Unit {0}
unfolding is_blank place_order acquire place_order_row find_idempotency insert_order cancel_order
    readable_order cancel_found cancel mark_status save_status publish_event charge_pending
    record_payment announce ends_with claim_outbox_batch for_each finalize_order tick relay_row
    relay_batch cod_charge oldest_first order_by insert_by safe_limit parse_payment_type
    relay_envelope payload_order_id find_order summary release
service = tt

place_order_run : (place_order env (order_for "k") start).0 ≡ ok answer
unfolding service
place_order_run = refl

abbrev draft_placed : OrderDraft
draft_placed = record {
  user_id = "ann";
  payment_type = card;
  idempotency_key = "k";
  lines =
      record {
        product_id = "p";
        variant_id = "v";
        product_name_snapshot = "Pizza";
        variant_label_snapshot = "L";
        unit_price_snapshot = "5";
        quantity = 2;
      }
      ∷ [];
  total = "10.00";
}

abbrev placed_order : Order
placed_order = new_order env.clock 1 draft_placed

placed_found : find_order "aa" placed_world.db.orders ≡ some placed_order
unfolding service
placed_found = refl

replay_user : is_blank "ann" ≡ false
unfolding service
replay_user = refl

replay_key : is_blank "k" ≡ false
unfolding service
replay_key = refl

replay_type : parse_payment_type "Card" ≡ ok card
unfolding service
replay_type = refl

place_order-atomic_example :
    let p = place_order env (order_for "k") start in
    ((p.1.db ≡ start.db)
      × ((r : PlaceOrderResult) → p.0 ≡ ok r → start.db.idempotency "k" ≡ some r))
    ⊎ IsPlaced env (order_for "k") start p
place_order-atomic_example = place_order-atomic env (order_for "k") start

place_order-keeps_locks_example : LockKept env (order_for "k") start placed_world.locks "ann"
place_order-keeps_locks_example = place_order-keeps_locks env (order_for "k") start "ann"

-- Cancelled by the customer while the payment provider answers.
abbrev cancelled_world : World Bool
cancelled_world = (cancel_order env "aa" "ann" false placed_world).1

abbrev late_world : World Bool
late_world = (record_payment env "aa" PaymentStatus.paid cancelled_world).1

abbrev history : Reach env placed_world late_world
history = next (next here (cancel_by "aa" "ann" false refl)) (recorded "aa" PaymentStatus.paid refl)

-- The order was cancelled and its payment recorded in between.
place_order-replays_example : place_order env (order_for "k") late_world ≡ (ok answer, late_world)
place_order-replays_example =
    place_order-replays env (order_for "k") (order_for "k") card start late_world answer
      place_order_run history refl replay_user replay_key replay_type

Reach-TableEvolves_example :
    (o : Order) × (find_order "aa" late_world.db.orders ≡ some o) × Evolves placed_order o
Reach-TableEvolves_example = Reach-TableEvolves env history "aa" placed_order placed_found

Reach-IsSound_example : All IsSound late_world.db.orders
Reach-IsSound_example =
    Reach-IsSound env
      (next (next (next here (place (order_for "k") refl)) (cancel_by "aa" "ann" false refl))
        (recorded "aa" PaymentStatus.paid refl))
      tt

ann-ne-bob : ◌≢◌ {A = String} "ann" "bob"
ann-ne-bob e = absurd (cc ((eq_iff "ann" "bob").1 e))

-- Somebody else may not cancel the order.
cancel_order-refuses_example :
    (e : Error) × (cancel_order env "aa" "bob" false placed_world ≡ (err e, placed_world))
unfolding service
cancel_order-refuses_example = cancel_order-refuses env "aa" "bob" placed_world (λ o found own kept.
    let same : o ≡ placed_order = cc in
    let wrong : ◌≡◌ {A = String} "ann" "bob" = cc (same, own) in absurd (ann-ne-bob wrong))

cancel_order-cancels_example :
    find_order "aa" cancelled_world.db.orders
    ≡ some (restatused env placed_world placed_order cancelled false)
unfolding service
cancel_order-cancels_example =
    cancel_order-cancels env "aa" "ann" false placed_world placed_order refl (refl, refl, refl) refl

finalize_order-once_example :
    let w' = (finalize_order env "aa" placed_world).1 in
    (find_order "aa" w'.db.orders
      ≡ some (
          restatused env
            (record placed_world { charged = "aa" ∷ [] })
            placed_order
            OrderStatus.paid
            false))
    × (finalize_order env "aa" w' ≡ (ok tt, w'))
unfolding service
finalize_order-once_example =
    finalize_order-once env "aa" placed_world placed_order PaymentStatus.paid refl refl refl

abbrev cancelled_order : Order
cancelled_order = restatused env placed_world placed_order cancelled false

-- The customer cancelled, and Kafka is told that the order is paid.
record_payment-late_example :
    (late_world.db ≡ cancelled_world.db)
    × (payloads late_world.sent
        ≡ payloads cancelled_world.sent ++ announced env PaymentStatus.paid cancelled_order)
unfolding service
record_payment-late_example =
    record_payment-late env "aa" PaymentStatus.paid cancelled_world cancelled_order
      (refl, λ m. refl) refl refl

-- An older row that came later into the table.
abbrev old_row : OutboxRow
old_row = record {
  id = "old";
  event = Topic.order_created;
  payload = Payload.settled "old" "ann" "1.00";
  created_at = 0;
  published_at = none;
}

abbrev two_waiting : World Bool
two_waiting = record placed_world {
  db = record placed_world.db { outbox = placed_world.db.outbox ++ (old_row ∷ []) };
}

oldest_is_first :
    map (λ r. r.id) (batch env two_waiting) ≡ "old" ∷ map (λ r. r.id) placed_world.db.outbox
unfolding service
oldest_is_first = refl

tick-drains_example :
    let (r, v) = tick env two_waiting in
    (r ≡ ok (length (batch env two_waiting)))
    × (length (batch env two_waiting) ≡ min 50 (length (waiting two_waiting.db.outbox)))
    × (payloads v.sent ≡ payloads two_waiting.sent ++ map (λ r. r.payload) (batch env two_waiting))
    × IsOrdered is_older (batch env two_waiting)
    × (waiting v.db.outbox
        ≡ select (λ r. not (is_named (batch env two_waiting) r)) (waiting two_waiting.db.outbox))
    × All
        (λ (b : OutboxRow). All (λ (r : OutboxRow). is_older b r ≡ true) (waiting v.db.outbox))
        (batch env two_waiting)
tick-drains_example = tick-drains env two_waiting (refl, λ m. refl)

-- Kafka refuses the messages under the key of the order, or takes everything.
abbrev refusing : Env ℕ Bool
refusing = record env {
  broker = record {
    connected = true;
    active_trace = none;
    send = λ m. if m.key == "aa" then err (forbidden "no") else ok tt;
  };
}

abbrev up : Broker
up = record { connected = true; active_trace = none; send = λ m. ok tt }

two_batch :
    batch refusing two_waiting
    ≡ (old_row ∷ []) ++ (created_row env.clock 5 placed_order draft_placed ∷ [])
unfolding service
two_batch = refl

created_IsRefused : IsRefused refusing (created_row env.clock 5 placed_order draft_placed)
unfolding service
created_IsRefused at = (forbidden "no", refl)

tick-retries_example :
    let (a, v) = tick refusing two_waiting in
    let (_, u) = tick (with_broker refusing up) v in
    ((e : Error) × (a ≡ err e))
    × (v.db ≡ two_waiting.db)
    × (payloads u.sent ≡ payloads v.sent ++ map (λ x. x.payload) (batch refusing two_waiting))
tick-retries_example =
    tick-retries refusing two_waiting (old_row ∷ []) []
      (created_row env.clock 5 placed_order draft_placed) up two_batch refl created_IsRefused
      (refl, λ m. refl)

list_my_orders-bounds_example :
    (p : OrderPage) × (list_my_orders env "ann" (negsuc 2) (pos 80) placed_world
      ≡ (ok p, placed_world))
    × (1 ≤ p.page)
    × (1 ≤ p.limit)
    × (p.limit ≤ 50)
    × (length p.items ≤ p.limit)
    × (p.total ≡ length (visible env "ann" placed_world))
list_my_orders-bounds_example = list_my_orders-bounds env "ann" (negsuc 2) (pos 80) placed_world

-- Two orders, the newer one second in the table.
abbrev two_orders : World Bool
two_orders = record placed_world {
  db = record placed_world.db {
    orders = placed_order ∷ record placed_order { id = "zz"; created_at = 9 } ∷ [];
  };
}

acquire_excludes_example : (acquire env "ann" 5000 (locked env "ann" start)).0 ≡ ok false
unfolding service
acquire_excludes_example =
    acquire_excludes env "ann" start (locked env "ann" start) refl refl (omega arith)

-- Six seconds later; time is the number of draws here.
abbrev late : World Bool
late = record (locked env "ann" start) { draws = 6000 }

release_frees_successor_example :
    ((acquire env "ann" 5000 late).0 ≡ ok true)
    × ((acquire env "ann" 5000 (release "ann" (acquire env "ann" 5000 late).1).1).0 ≡ ok true)
unfolding service
release_frees_successor_example =
    release_frees_successor env "ann" start late refl refl (omega arith)
