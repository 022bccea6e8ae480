-- ===== src/Notification/Mail.antt =====
-- The mails of one-time codes: from `requestOtp` of
-- apps/identity/src/application/identity.service.ts to `eachMessage` of
-- apps/notification/src/infrastructure/messaging/kafka.worker.ts.
use food_ordering_app.Prelude.{
  none, ℕ, suc, String, true, false, some, [], ◌∷◌, ◌++◌, ◌==◌, ◌≡◌, refl, ap, ◌∙◌, arith, eq_refl,
  inl, inr,
}
use food_ordering_app.Effect.{Result, Result-cases, ok, for_each}
use food_ordering_app.Text.{trim}
use food_ordering_app.Domain.{Topic, Envelope, otp_requested}
use food_ordering_app.Notification.Model.{
  email, Fields, Job, Notification, Mail, World, Provider, Env,
}
use food_ordering_app.Notification.Jobs.{fields_of, map_topic_to_jobs, jobs_for, otp_job, otp_body}
use food_ordering_app.Notification.Providers.{providers, send_email, send_mail, recipient, mail_of}
use food_ordering_app.Notification.Dispatcher.{
  save_notification, deliver, dispatch_allowed, dispatch,
}
use food_ordering_app.Notification.Attempts.{attempt_from-sent}
use food_ordering_app.Notification.Worker.{each_message, sort_jobs}
use food_ordering_app.Identity.Model.{UserRecord, DeviceContext, OtpType}
use food_ordering_app.Identity.Model
use food_ordering_app.Identity.Service.{
  send_otp, message_of, generate_otp_code, otp_ttl_seconds, otp_sent,
}
use food_ordering_app.Identity.Codes.{publish_event-sends}
use food_ordering_app.Identity.Redis.{timed, set_otp, clear_attempts}
use food_ordering_app.Identity.Audit.{append}
use food_ordering_app.Identity.Security.{six_digits}

module _ (env : Env) where
  send_email-mails :
      (mailer : ℕ → Mail → Result (Unit {0})) (job : Job) (w : World)
      → env.mailer ≡ some mailer
      → ((k : ℕ) (m : Mail) → mailer k m ≡ ok tt)
      → (recipient job == "") ≡ false
      → send_email env env.mailer job w
        ≡ (ok tt, record w { mails = w.mails ++ (mail_of env job ∷ []); calls = suc w.calls })
  unfolding send_email send_mail
  send_email-mails mailer job w has takes addressed =
      let taken = takes w.calls (mail_of env job) in ground arith

  dispatch-mails :
      (mailer : ℕ → Mail → Result (Unit {0})) (user : String) (payload : Fields) (w : World)
      → env.mailer ≡ some mailer
      → ((k : ℕ) (m : Mail) → mailer k m ≡ ok tt)
      → (recipient (otp_job user payload) == "") ≡ false
      → (dispatch env (providers env) (otp_job user payload) w).1.mails
        ≡ w.mails ++ (mail_of env (otp_job user payload) ∷ [])
  unfolding dispatch dispatch_allowed providers save_notification deliver otp_job
  dispatch-mails mailer user payload w has takes addressed =
      let job = otp_job user payload in
      let n : Notification = record {
        id = env.uuid w.draws;
        created_at = w.now;
        job = job;
        read_at = none;
      } in
      let v : World = record w {
        notifications = w.notifications ++ (n ∷ []);
        draws = suc w.draws;
      } in
      let sends = send_email-mails mailer job v has takes addressed in
      let p : Provider = record { channel = email; send = send_email env env.mailer } in
      ap (λ out. out.1.mails) (attempt_from-sent env p n 2 1 "" v (ap (λ out. out.0) sends))
      ∙ ap (λ out. out.1.mails) sends

  each_message-single :
      (topic : Topic) (payload : Fields) (job : Job) (w : World)
      → map_topic_to_jobs topic payload ≡ job ∷ []
      → (each_message env (providers env) topic payload w).1
        ≡ (dispatch env (providers env) job w).1
  unfolding each_message sort_jobs for_each
  each_message-single topic payload job w is =
      elim (Result-cases (dispatch env (providers env) job w).0) [
        | inl (_, e) ↦ rw is (ground arith)
        | inr (x, e) ↦ rw is (ground arith)
      ]

  -- The event of a code becomes one mail to the user's address.
  otp_event-mails :
      (mailer : ℕ → Mail → Result (Unit {0})) (user mail phone code : String) (w : World)
      → env.mailer ≡ some mailer
      → ((k : ℕ) (m : Mail) → mailer k m ≡ ok tt)
      → (user == "") ≡ false
      → (trim mail == "") ≡ false
      → (each_message env
          (providers env)
          Topic.user_otp_requested
          (fields_of (otp_requested user mail phone code))
          w).1.mails
        ≡ w.mails
          ++ (mail_of env (otp_job user (fields_of (otp_requested user mail phone code))) ∷ [])
  unfolding map_topic_to_jobs jobs_for otp_job fields_of recipient
  otp_event-mails mailer user mail phone code w has takes named addressed =
      let payload = fields_of (otp_requested user mail phone code) in
      let job = otp_job user payload in
      ap (λ v. v.mails) (each_message-single Topic.user_otp_requested payload job w (rw named refl))
      ∙ dispatch-mails mailer user payload w has takes addressed

-- A code that the identity service sends to a user reaches the user's address: its event, given to
-- the notification service, becomes one mail, with the code whose hash is stored, if Kafka and the
-- mail server take what they are given and the user has an id and an address. Preferences do not
-- matter.
pub send_otp-mails :
    (identity : Model.Env) (env : Env) (user : UserRecord) (type : OtpType) (device : DeviceContext)
    (v : Model.World) (w : World) (mailer : ℕ → Mail → Result (Unit {0}))
    → identity.connected ≡ true
    → ((m : Envelope) → identity.send m ≡ ok tt)
    → env.mailer ≡ some mailer
    → ((k : ℕ) (m : Mail) → mailer k m ≡ ok tt)
    → (user.id == "") ≡ false
    → (trim user.email == "") ≡ false
    → (code : String) × (event : Envelope) × (mail : Mail) × ((send_otp identity user type device
          v).1.sent
        ≡ v.sent ++ (event ∷ []))
      × ((send_otp identity user type device v).1.otp user.id
          ≡ timed (identity.sha256 code) v.now otp_ttl_seconds)
      × ((each_message env (providers env) event.topic (fields_of event.payload) w).1.mails
          ≡ w.mails ++ (mail ∷ []))
      × (mail.to ≡ trim user.email)
      × (mail.text ≡ otp_body code)
unfolding send_otp generate_otp_code set_otp clear_attempts append fields_of otp_job recipient
send_otp-mails identity env user type device v w mailer up published has takes named addressed =
    let code = six_digits (identity.random_code v.draws) in
    let payload = otp_requested user.id user.email user.phone code in
    let drawn : Model.World = record v { draws = suc v.draws } in
    let published_once =
      publish_event-sends identity Topic.user_otp_requested user.id payload otp_sent _ up
        published in
    (
      code,
      message_of identity Topic.user_otp_requested user.id payload drawn,
      mail_of env (otp_job user.id (fields_of payload)),
      ap (λ out. out.1.sent) published_once,
      ap (λ out. out.1.otp user.id) published_once ∙ rw (eq_refl user.id) refl,
      otp_event-mails env mailer user.id user.email user.phone code w has takes named addressed,
      refl,
      refl,
    )
