-- ===== src/Order/Model.antt =====
-- The data of the order service (apps/order): its tables, its Redis locks, what it has sent, and
-- the services and libraries that it calls.
use food_ordering_app.Prelude.{ℕ, String, Bool, Option, List}
use food_ordering_app.Effect.{Result, Action}
use food_ordering_app.Domain.{OrderStatus, PaymentType, Topic, Payload, Envelope, PricedLine}
use food_ordering_app.Runtime.{Numbers, Clock}

pub record OrderItem : Type 0 where
  pub id : String
  pub variant_id : String
  pub product_name_snapshot : String
  pub variant_label_snapshot : String
  pub unit_price_snapshot : String
  pub quantity : ℕ

pub record StatusChange : Type 0 where
  pub id : String
  pub status : OrderStatus
  pub at : ℕ

-- A row of ORDERS with its items and its history, which `mapOrder` copies field by field. Times
-- are in milliseconds.
pub record Order : Type 0 where
  pub id : String
  pub user_id : String
  pub total : String
  pub payment_type : PaymentType
  pub status : OrderStatus
  pub created_at : ℕ
  pub soft_deleted : Bool
  pub items : List OrderItem
  pub status_history : List StatusChange

pub record OrderSummary : Type 0 where
  pub id : String
  pub user_id : String
  pub total : String
  pub status : OrderStatus
  pub payment_type : PaymentType
  pub created_at : ℕ
  pub item_count : ℕ

pub record PlaceOrderResult : Type 0 where
  pub order_id : String
  pub status : OrderStatus
  pub total : String

pub record OutboxRow : Type 0 where
  pub id : String
  pub event : Topic
  pub payload : Payload
  pub created_at : ℕ
  pub published_at : Option ℕ

-- The service's tables; the outbox is in the order of insertion.
pub record Database : Type 0 where
  pub orders : List Order
  pub outbox : List OutboxRow
  pub idempotency : String → Option PlaceOrderResult

pub record CartLine : Type 0 where
  pub product_id : String
  pub variant_id : String
  pub label : String
  pub unit_price : String
  pub quantity : ℕ

pub record CartSnapshot : Type 0 where
  pub user_id : String
  pub items : List CartLine
  pub total : String

pub record ResolvedLine : Type 0 where
  pub product_name : String
  pub label : String
  pub unit_price : String
  pub is_active : Bool

pub data PaymentStatus : Type 0 where
  paid failed : PaymentStatus

-- The cart and the catalog service as the order service sees them, over their state `C`.
pub record Gateways (C : Type 0) : Type 0 where
  pub get_cart : String → C → Result CartSnapshot
  pub clear_cart : String → Action C (Unit {0})
  pub resolve_line : String → String → C → Result (Option ResolvedLine)

-- Kafka: whether the producer is connected, the active trace, and whether a `send` is accepted.
pub record Broker : Type 0 where
  pub connected : Bool
  pub active_trace : Option String
  pub send : Envelope → Result (Unit {0})

pub record Env (Num C : Type 0) : Type 0 where
  pub numbers : Numbers Num
  pub clock : Clock
  pub gateways : Gateways C
  pub broker : Broker
  -- `PaymentProvider.charge` for an order's id, customer, total and payment type.
  pub charge : String → String → String → PaymentType → Result PaymentStatus

-- `locks u` is the expiry of the key `lock:order:u`; `charged` lists the orders
-- that the payment provider was asked to charge and answered; `draws` counts the UUIDs and times
-- drawn.
pub record World (C : Type 0) : Type 0 where
  pub db : Database
  pub locks : String → Option ℕ
  pub remote : C
  pub sent : List Envelope
  pub charged : List String
  pub draws : ℕ

pub record PlaceOrderInput : Type 0 where
  pub user_id : String
  pub payment_type : String
  pub idempotency_key : String

pub record OrderDraft : Type 0 where
  pub user_id : String
  pub payment_type : PaymentType
  pub idempotency_key : String
  pub lines : List PricedLine
  pub total : String
