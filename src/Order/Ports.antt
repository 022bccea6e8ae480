-- ===== src/Order/Ports.antt =====
-- The order service's adapters: the Redis checkout lock
-- (apps/order/src/infrastructure/redis/checkout.lock.ts), the Kafka publisher
-- (infrastructure/messaging/kafka.workers.ts), the payment provider
-- (infrastructure/payment/payment.provider.ts) and the catalog gateway
-- (infrastructure/clients/grpc.gateways.ts).
use food_ordering_app.Prelude.{
  ℕ, ◌+◌, String, Bool, true, false, Option, none, some, List, [], ◌∷◌, ◌++◌, ◌==◌, ltb,
  if◌then◌else◌, find,
}
use food_ordering_app.Effect.{Result, ok, err, Action, modify}
use food_ordering_app.Text.{ends_with}
use food_ordering_app.Domain.{PaymentType, cod, card, Topic, Payload, Envelope}
use food_ordering_app.Order.Model.{ResolvedLine, PaymentStatus, Env, World}
use food_ordering_app.Order.Repository.{write}

-- The key is there, and its time to live is not over.
unfoldable pub is_held : ℕ → Option ℕ → Bool
is_held now none = false
is_held now (some expiry) = ltb now expiry

module _ {Num C : Type 0} (env : Env Num C) where
  open env use {clock, broker}

  -- `SET lock:order:{user} 1 PX ttl NX`, answered `OK` or not.
  unfoldable pub acquire : String → ℕ → Action (World C) Bool
  unfolding is_held
  acquire user ttl w =
      let now = clock.now w.draws in
      if is_held now (w.locks user) then (ok false, record w { draws = w.draws + 1 }) else (
        ok true,
        record w { locks = write user (some (now + ttl)) w.locks; draws = w.draws + 1 },
      )

  -- `{ ...message, traceId: message.traceId ?? getActiveTraceId() ?? undefined }`
  abbrev pub traced : Envelope → Envelope
  traced m = record m {
    trace_id = elim m.trace_id [ some t ↦ some t | none ↦ broker.active_trace ];
  }

  -- `KafkaEventPublisher.publish`: without a producer the message is logged and dropped.
  unfoldable pub publish : Envelope → Action (World C) (Unit {0})
  publish m w =
      if broker.connected
      then elim (broker.send (traced m)) [
        | ok _ ↦ (ok tt, record w { sent = w.sent ++ (traced m ∷ []) })
        | err e ↦ (err e, w)
      ]
      else (ok tt, w)

  -- `{ eventId: randomUUID(), …, occurredAt: new Date() }`
  abbrev pub event_at : ℕ → Topic → String → Payload → Envelope
  event_at n topic key payload = record {
    event_id = clock.uuid n;
    topic = topic;
    key = key;
    payload = payload;
    trace_id = none;
    occurred_at = clock.now (n + 1);
  }

  -- `events.publish({ eventId: randomUUID(), …, occurredAt: new Date() })`
  unfoldable pub publish_event : Topic → String → Payload → Action (World C) (Unit {0})
  unfolding publish
  publish_event topic key payload w =
      publish (event_at w.draws topic key payload) (record w { draws = w.draws + 2 })

-- `DEL lock:order:{user}`, whoever holds it.
unfoldable pub release : {C : Type 0} → String → Action (World C) (Unit {0})
release user = modify (λ w. record w { locks = write user none w.locks })

-- `CodPaymentProvider.charge`
unfoldable pub cod_charge : String → String → String → PaymentType → Result PaymentStatus
cod_charge order_id user_id total cod = ok PaymentStatus.paid
cod_charge order_id user_id total card =
    ok (if ends_with total ".13" then PaymentStatus.failed else PaymentStatus.paid)

-- The catalog's answer to `GetProduct`, as far as the gateway reads it.
pub record RemoteVariant : Type 0 where
  pub id : String
  pub label : String
  pub price : String
  pub is_active : Bool

pub record RemoteProduct : Type 0 where
  pub id : String
  pub name : String
  pub variants : List RemoteVariant

abbrev resolved_of : RemoteProduct → RemoteVariant → ResolvedLine
resolved_of p v = record {
  product_name = p.name;
  label = v.label;
  unit_price = v.price;
  is_active = v.is_active;
}

-- `GrpcCatalogGateway.resolveLine` over the answer of the call `GetProduct`.
unfoldable pub grpc_resolve_line :
    (String → Result RemoteProduct) → String → String → Result (Option ResolvedLine)
grpc_resolve_line get_product product_id variant_id = elim (get_product product_id) [
  | err e ↦ err e
  | ok p ↦ elim (find (λ v. v.id == variant_id) p.variants) [
    | none ↦ ok none
    | some v ↦ ok (some (resolved_of p v))
  ]
]
