-- ===== src/Domain.antt =====
-- The enums of libs/domain, the Kafka topics and message envelope of libs/kafka.
use food_ordering_app.Prelude.{ℕ, String, Option, none, some, Bool, true, false, List, map}

pub data Role : Type 0 where
  customer admin : Role

pub data OrderStatus : Type 0 where
  pending paid failed cancelled : OrderStatus

pub data PaymentType : Type 0 where
  cod card : PaymentType

-- `a === b` on statuses.
abbrev pub same_status : OrderStatus → OrderStatus → Bool
same_status pending pending = true
same_status paid paid = true
same_status failed failed = true
same_status cancelled cancelled = true
same_status _ _ = false

abbrev pub is_pending : OrderStatus → Bool
is_pending s = same_status s pending

abbrev pub is_cancelled : OrderStatus → Bool
is_cancelled s = same_status s cancelled

abbrev pub is_admin_role : Option Role → Bool
is_admin_role (some admin) = true
is_admin_role _ = false

pub data Topic : Type 0 where
  order_created order_status_changed order_paid order_failed payment_result : Topic
  user_otp_requested user_registered session_revoked catalog_product_changed : Topic

-- A line of an order with the catalog's texts and price (`PricedLine` of the order's ports).
pub record PricedLine : Type 0 where
  pub product_id : String
  pub variant_id : String
  pub product_name_snapshot : String
  pub variant_label_snapshot : String
  pub unit_price_snapshot : String
  pub quantity : ℕ

-- The payloads that the services put into an envelope.
pub data Payload : Type 0 where
  created : (order_id user_id total : String) → PaymentType → List PricedLine → Payload
  status_changed : (order_id user_id : String) → OrderStatus → Payload
  settled : (order_id user_id total : String) → Payload
  product_changed : (product_id action : String) → Payload
  variant_changed : (variant_id action : String) → Payload
  otp_requested : (user_id email phone otp_code : String) → Payload
  registered : (user_id name email : String) → Payload
  all_revoked : (user_id : String) → Payload
  session_revoked : (user_id session_id : String) → Payload

-- `payload.orderId`
unfoldable pub payload_order_id : Payload → Option String
payload_order_id (created o _ _ _ _) = some o
payload_order_id (status_changed o _ _) = some o
payload_order_id (settled o _ _) = some o
payload_order_id (product_changed _ _) = none
payload_order_id (variant_changed _ _) = none
payload_order_id (otp_requested _ _ _ _) = none
payload_order_id (registered _ _ _) = none
payload_order_id (all_revoked _) = none
payload_order_id (session_revoked _ _) = none

pub record Envelope : Type 0 where
  pub event_id : String
  pub topic : Topic
  pub key : String
  pub payload : Payload
  pub trace_id : Option String
  pub occurred_at : ℕ

abbrev pub payloads : List Envelope → List Payload
payloads ms = map (λ m. m.payload) ms
