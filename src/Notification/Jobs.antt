-- ===== src/Notification/Jobs.antt =====
-- `mapTopicToJobs` (apps/notification/src/infrastructure/messaging/kafka.worker.ts) and the payloads
-- that it reads.
use Prim.Native.String
use food_ordering_app.Prelude.{
  ℕ, String, true, false, none, some, List, [], ◌∷◌, ◌==◌, if◌then◌else◌, or_else,
}
use food_ordering_app.Domain.{
  OrderStatus, pending, paid, failed, cancelled, Topic, Payload, created, status_changed, settled,
  product_changed, variant_changed, otp_requested, registered, all_revoked, session_revoked,
}
use food_ordering_app.Notification.Model.{
  Channel, email, push, in_app, NotificationType, otp, welcome, Fields, Job,
}

-- The value of an enumeration `OrderStatus`.
abbrev pub status_text : OrderStatus → String
status_text pending = "pending"
status_text paid = "paid"
status_text failed = "failed"
status_text cancelled = "cancelled"

-- A field and its text, before other fields.
abbrev with_field : String → String → Fields → Fields
with_field name value rest key = if key == name then some value else rest key

abbrev pub no_fields : Fields
no_fields key = none

-- `order.created`, as `placeOrder` writes it to the outbox; its payment type and lines are not read.
abbrev created_payload : String → String → String → Fields
created_payload order user total =
    with_field "orderId" order (with_field "userId" user (with_field "total" total no_fields))

-- `order.status_changed`
abbrev status_payload : String → String → OrderStatus → Fields
status_payload order user status =
    with_field "orderId" order
      (with_field "userId" user (with_field "status" (status_text status) no_fields))

-- `order.paid` and `order.failed`
abbrev settled_payload : String → String → String → Fields
settled_payload order user total =
    with_field "orderId" order (with_field "userId" user (with_field "total" total no_fields))

-- `user.otp_requested`
abbrev otp_payload : String → String → String → String → Fields
otp_payload user mail phone code = with_field "userId" user (
    with_field "email" mail
      (with_field "phone" phone (with_field "type" "email" (with_field "otpCode" code no_fields))))

-- The payloads as the services write them: OrderService, KafkaEventPublisher of the catalog and
-- IdentityService. The lines and the payment type of an order are not read here.
unfoldable pub fields_of : Payload → Fields
fields_of (created order user total _ _) = created_payload order user total
fields_of (status_changed order user status) = status_payload order user status
fields_of (settled order user total) = settled_payload order user total
fields_of (product_changed product action) =
    with_field "productId" product (with_field "action" action no_fields)
fields_of (variant_changed variant action) =
    with_field "variantId" variant (with_field "action" action no_fields)
fields_of (otp_requested user mail phone code) = otp_payload user mail phone code
fields_of (registered user name mail) =
    with_field "userId" user (with_field "name" name (with_field "email" mail no_fields))
fields_of (all_revoked user) = with_field "userId" user (with_field "all" "true" no_fields)
fields_of (session_revoked user session) =
    with_field "userId" user (with_field "sessionId" session no_fields)

-- `String(payload.name ?? '')`
abbrev pub text_of : Fields → String → String
text_of payload name = or_else (payload name) ""

-- `{ otpCode: otp, email: payload.email }`
abbrev otp_fields : Fields → String → Fields
otp_fields payload code key =
    if key == "otpCode" then some code else if key == "email" then payload "email" else none

-- `{ email: payload.email }`
abbrev mail_fields : Fields → Fields
mail_fields payload key = if key == "email" then payload "email" else none

abbrev welcome_body : Fields → String
welcome_body payload = String.◌++◌ "Welcome " (String.◌++◌ (text_of payload "name") "!")

abbrev pub otp_body : String → String
otp_body code = String.◌++◌ "Your login code is " (String.◌++◌ code ". Expires in 5 minutes.")

abbrev order_body : Fields → String → String
order_body payload rest = String.◌++◌ "Order " (String.◌++◌ (text_of payload "orderId") rest)

abbrev confirmed : Fields → String
confirmed payload = order_body payload (String.◌++◌ " confirmed - $" (text_of payload "total"))

-- A job about an order, with the payload as it came.
abbrev order_job : String → Channel → NotificationType → (title body : String) → Fields → ℕ → Job
order_job user channel type title body payload priority = record {
  user_id = user;
  channel = channel;
  type = type;
  title = title;
  body = body;
  payload = payload;
  force = false;
  priority = priority;
}

unfoldable pub otp_job : String → Fields → Job
otp_job user payload = record {
  user_id = user;
  channel = email;
  type = otp;
  title = "Your login code";
  body = otp_body (text_of payload "otpCode");
  payload = otp_fields payload (text_of payload "otpCode");
  force = true;
  priority = 0;
}

-- The jobs for a user.
unfoldable pub jobs_for : String → Topic → Fields → List Job
jobs_for user Topic.user_otp_requested payload = otp_job user payload ∷ []
jobs_for user Topic.user_registered payload =
    order_job user email welcome "Welcome to FoodApp!" (welcome_body payload) (mail_fields payload)
      1
    ∷ (order_job user in_app welcome "Welcome to FoodApp!" "Welcome to FoodApp!" no_fields 1 ∷ [])
jobs_for user Topic.order_created payload =
    order_job user in_app NotificationType.order_created "Order placed"
      (order_body payload " is pending") payload 1
    ∷ []
jobs_for user Topic.order_paid payload =
    order_job user email NotificationType.order_paid "Order confirmed" (confirmed payload) payload 0
    ∷ (order_job user push NotificationType.order_paid "Order confirmed"
          (order_body payload " confirmed") payload 0
        ∷ (order_job user in_app NotificationType.order_paid "Order confirmed" (confirmed payload)
              payload 0
            ∷ []))
jobs_for user Topic.order_failed payload =
    order_job user email NotificationType.order_failed "Order failed" (order_body payload " failed")
      payload 0
    ∷ (order_job user in_app NotificationType.order_failed "Order failed"
          (order_body payload " failed") payload 0
        ∷ [])
jobs_for user Topic.order_status_changed payload =
    order_job user push NotificationType.order_status "Order update"
      (order_body payload (String.◌++◌ " is now " (text_of payload "status"))) payload 0
    ∷ []
jobs_for user _ payload = []

unfoldable pub map_topic_to_jobs : Topic → Fields → List Job
map_topic_to_jobs topic payload =
    let user = text_of payload "userId" in if user == "" then [] else jobs_for user topic payload
