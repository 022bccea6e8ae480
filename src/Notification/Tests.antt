-- ===== src/Notification/Tests.antt =====
-- Runs of the notification service on small data, and its theorems at concrete inputs.
use food_ordering_app.Prelude.{
  ℕ, String, true, false, none, some, [], ◌∷◌, ◌==◌, map, ◌≡◌, refl, ◌⊎◌,
}
use food_ordering_app.Effect.{Result, ok, err, fault, for_each}
use food_ordering_app.Text.{trim}
use food_ordering_app.Domain.{customer, Topic, Envelope, otp_requested, settled, payload_order_id}
use food_ordering_app.Identity.Model
use food_ordering_app.Identity.Model.{UserRecord, by_phone}
use food_ordering_app.Identity.Redis.{timed}
use food_ordering_app.Identity.Service.{send_otp, otp_ttl_seconds}
use food_ordering_app.Identity.Account.{no_device}
use food_ordering_app.Notification.Model.{email, sent, Job, Mail, World, Env}
use food_ordering_app.Notification.Jobs.{fields_of, otp_body, otp_job, map_topic_to_jobs, jobs_for}
use food_ordering_app.Notification.Providers.{providers, send_email, recipient}
use food_ordering_app.Notification.Dispatcher.{
  dispatch, dispatch_allowed, is_channel_enabled, save_notification, deliver, attempt_from,
  save_delivery,
}
use food_ordering_app.Notification.Worker.{each_message, sort_jobs}
use food_ordering_app.Notification.Attempts.{IsEnded}
use food_ordering_app.Notification.Outcome.{dispatch-ends}
use food_ordering_app.Notification.Mail.{send_otp-mails}
use food_ordering_app.Notification.Orders.{orders-unmailed}

abbrev takes_mail : ℕ → Mail → Result (Unit {0})
takes_mail k m = ok tt

abbrev env : Env
env = record {
  uuid = λ n. "n";
  mailer = some takes_mail;
  from = "shop@x.y";
  dlq_connected = true;
  send_dead = λ k l. ok tt;
}

-- The same with a mail server that refuses.
abbrev refusing : Env
refusing = record env { mailer = some (λ k m. err (fault "no route")) }

abbrev start : World
start = record {
  notifications = [];
  deliveries = [];
  preferences = record { user_id = "ann"; channel = email; enabled = false } ∷ [];
  mails = [];
  dead = [];
  now = 0;
  draws = 0;
  calls = 0;
}

abbrev code_job : Job
code_job = otp_job "ann" (fields_of (otp_requested "ann" "ann@x.y" "1" "000007"))

dispatch-ends_example :
    ((true ≡ true)
      × IsEnded
          (record { id = "n"; created_at = 0; job = code_job; read_at = none })
          1
          start
          (dispatch refusing (providers refusing) code_job start))
    ⊎ ((true ≡ false) × (dispatch refusing (providers refusing) code_job start ≡ (ok tt, start)))
unfolding otp_job
dispatch-ends_example = dispatch-ends refusing code_job start refl (λ k l. refl)

abbrev identity : Model.Env
identity = record {
  uuid = λ n. "u";
  random_code = λ n. 7;
  sha256 = λ s. s;
  bcrypt_hash = λ n s. s;
  bcrypt_compare = λ s h. s == h;
  sign = λ u jti e. jti;
  verify = λ n t. none;
  to_lower_case = λ s. s;
  citext_eq = λ a b. a == b;
  access_ttl_seconds = 900;
  refresh_ttl_seconds = 1000;
  last_active_first = λ ss. ss;
  connected = true;
  active_trace = none;
  send = λ m. ok tt;
}

abbrev accounts : Model.World
accounts = record {
  users = [];
  credentials = λ u. none;
  sessions = [];
  tokens = [];
  audit = [];
  otp = λ u. none;
  attempts = λ u. none;
  denied = λ j. none;
  rates = λ s k. none;
  now = 0;
  draws = 0;
  sent = [];
}

abbrev ann : UserRecord
ann = record {
  id = "ann";
  name = "Ann";
  email = "ann@x.y";
  phone = "123";
  created_at = 0;
  role = customer;
}

has_address : (trim "ann@x.y" == "") ≡ false
unfolding trim
has_address = refl

send_otp-mails_example :
    (code : String) × (event : Envelope) × (mail : Mail) × ((send_otp identity ann by_phone
        no_device accounts).1.sent
      ≡ event ∷ [])
    × ((send_otp identity ann by_phone no_device accounts).1.otp "ann"
        ≡ timed code 0 otp_ttl_seconds)
    × ((each_message env (providers env) event.topic (fields_of event.payload) start).1.mails
        ≡ mail ∷ [])
    × (mail.to ≡ trim "ann@x.y")
    × (mail.text ≡ otp_body code)
send_otp-mails_example =
    send_otp-mails identity env ann by_phone no_device accounts start takes_mail refl (λ m. refl)
      refl (λ k m. refl) refl has_address

orders-unmailed_example :
    (each_message env
      (providers env)
      Topic.order_paid
      (fields_of (settled "o" "ann" "10.00"))
      start).1.mails
    ≡ []
unfolding payload_order_id
orders-unmailed_example =
    orders-unmailed env Topic.order_paid (settled "o" "ann" "10.00") start refl

-- The message of a paid order to the user's mail address goes nowhere, and yet it is recorded as sent.
unmailed_but_sent :
    map
      (λ d. d.status)
      (each_message env
        (providers env)
        Topic.order_failed
        (fields_of (settled "o" "bob" "10.00"))
        start).1.deliveries
    ≡ sent ∷ (sent ∷ [])
unfolding each_message map_topic_to_jobs fields_of for_each sort_jobs jobs_for dispatch
    is_channel_enabled dispatch_allowed save_notification deliver providers attempt_from send_email
    recipient trim save_delivery
unmailed_but_sent = refl
