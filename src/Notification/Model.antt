-- ===== src/Notification/Model.antt =====
-- The data of the notification service (apps/notification/src/domain/types.ts), its tables
-- (infrastructure/persistence/entities/notification.entity.ts) and what it gives to others.
use food_ordering_app.Prelude.{ℕ, String, Bool, true, false, Option, List}
use food_ordering_app.Effect.{Result, Action}

pub data Channel : Type 0 where
  email sms push in_app : Channel

pub data NotificationType : Type 0 where
  otp welcome order_created order_paid order_failed order_status : NotificationType

-- A JSON object, by what `String(o.name ?? '')` reads of a name: none for a field that is missing.
abbrev pub Fields : Type 0
Fields = String → Option String

pub record Job : Type 0 where
  pub user_id : String
  pub channel : Channel
  pub type : NotificationType
  pub title : String
  pub body : String
  pub payload : Fields
  pub force : Bool
  pub priority : ℕ

pub record Notification : Type 0 where
  pub id : String
  pub created_at : ℕ
  pub job : Job
  pub read_at : Option ℕ

pub data DeliveryStatus : Type 0 where
  sent failed dlq : DeliveryStatus

pub record Delivery : Type 0 where
  pub notification_id : String
  pub notification_created_at : ℕ
  pub channel : Channel
  pub status : DeliveryStatus
  pub attempts : ℕ
  pub error : Option String
  pub delivered_at : Option ℕ

pub record Preference : Type 0 where
  pub user_id : String
  pub channel : Channel
  pub enabled : Bool

pub record Mail : Type 0 where
  pub from : String
  pub to : String
  pub subject : String
  pub text : String
  pub html : String

-- A message to the topic `notification.{channel}.DLQ`.
pub record DeadLetter : Type 0 where
  pub job : Job
  pub error : String
  pub at : ℕ

-- The tables, the mails and dead letters that were taken, the clock and the number of random ids
-- and of calls to others.
pub record World : Type 0 where
  pub notifications : List Notification
  pub deliveries : List Delivery
  pub preferences : List Preference
  pub mails : List Mail
  pub dead : List DeadLetter
  pub now : ℕ
  pub draws : ℕ
  pub calls : ℕ

-- `ChannelProvider`
pub record Provider : Type 0 where
  pub channel : Channel
  pub send : Job → Action World (Unit {0})

-- The mail server, if one is configured, and Kafka, by the number of the call; random ids; the
-- sender's address.
pub record Env : Type 0 where
  pub uuid : ℕ → String
  pub mailer : Option (ℕ → Mail → Result (Unit {0}))
  pub from : String
  pub dlq_connected : Bool
  pub send_dead : ℕ → DeadLetter → Result (Unit {0})

-- `a === b` on channels.
abbrev pub same_channel : Channel → Channel → Bool
same_channel email email = true
same_channel sms sms = true
same_channel push push = true
same_channel in_app in_app = true
same_channel _ _ = false

abbrev pub channel_name : Channel → String
channel_name email = "email"
channel_name sms = "sms"
channel_name push = "push"
channel_name in_app = "in_app"
