-- ===== src/Notification/Orders.antt =====
-- The mails of orders: the events of apps/order/src/application/order.service.ts in
-- apps/notification/src/infrastructure/messaging/kafka.worker.ts.
use food_ordering_app.Prelude.{
  ℕ, zero, suc, ◌+◌, String, true, Option, none, some, List, [], ◌∷◌, ◌==◌, find, leb, is_some, All,
  ◌≡◌, refl, ap, ◌∙◌, arith, Bool-cases, inl, inr,
}
use food_ordering_app.Effect.{Result, Result-cases, pure, for_each, message}
use food_ordering_app.Effect.Keeps.{Keeps, Keeps-then, Keeps-pure, keeps_rules}
use food_ordering_app.Text.{trim}
use food_ordering_app.Domain.{
  Topic, Payload, payload_order_id, created, status_changed, settled, product_changed,
  variant_changed, otp_requested, registered, all_revoked, session_revoked,
}
use food_ordering_app.Notification.Model.{
  Channel, email, sms, push, in_app, same_channel, Fields, Job, Notification, Mail, World, Provider,
  Env,
}
use food_ordering_app.Notification.Jobs.{fields_of, map_topic_to_jobs, jobs_for, otp_job, text_of}
use food_ordering_app.Notification.Providers.{providers, send_email, recipient}
use food_ordering_app.Notification.Dispatcher.{
  save_delivery, sleep, publish_dlq, record_failure, attempt_from, save_notification, deliver,
  dispatch_allowed, dispatch, is_channel_enabled,
}
use food_ordering_app.Notification.Attempts.{attempt_from-sent, attempt_from-failed}
use food_ordering_app.Notification.Worker.{each_message, sort_jobs, insert}

-- A job without an address.
abbrev IsUnaddressed : Job → Type 0
IsUnaddressed job = (recipient job == "") ≡ true

insert-All :
    (job : Job) (js : List Job)
    → IsUnaddressed job
    → All IsUnaddressed js
    → All IsUnaddressed (insert job js)
insert-All job [] u a = (u, tt)
insert-All job (j ∷ js) u (h, a) = elim (Bool-cases (leb job.priority j.priority)) [
  | inl e ↦ rw e (u, (h, a))
  | inr e ↦ rw e (h, insert-All job js u a)
]

sort_jobs-All : (js : List Job) → All IsUnaddressed js → All IsUnaddressed (sort_jobs js)
unfolding sort_jobs
sort_jobs-All [] a = tt
sort_jobs-All (j ∷ js) (u, a) = insert-All j (sort_jobs js) u (sort_jobs-All js a)

jobs_for-All :
    (user : String) (topic : Topic) (payload : Fields)
    → payload "email" ≡ none
    → payload "to" ≡ none
    → All IsUnaddressed (jobs_for user topic payload)
unfolding jobs_for otp_job recipient trim
jobs_for-All user Topic.order_created payload e t = (rw (e, t) refl, tt)
jobs_for-All user Topic.order_status_changed payload e t = (rw (e, t) refl, tt)
jobs_for-All user Topic.order_paid payload e t =
    (rw (e, t) refl, (rw (e, t) refl, (rw (e, t) refl, tt)))
jobs_for-All user Topic.order_failed payload e t = (rw (e, t) refl, (rw (e, t) refl, tt))
jobs_for-All user Topic.payment_result payload e t = tt
jobs_for-All user Topic.user_otp_requested payload e t = (rw e refl, tt)
jobs_for-All user Topic.user_registered payload e t = (rw e refl, (refl, tt))
jobs_for-All user Topic.session_revoked payload e t = tt
jobs_for-All user Topic.catalog_product_changed payload e t = tt

module _ (env : Env) (mails : List Mail) where
  abbrev HasMails : World → Type 0
  HasMails w = w.mails ≡ mails

  record_failure-HasMails :
      (n : Notification) (attempt : ℕ) (error : String)
      → Keeps HasMails (record_failure env n attempt error)
  unfolding record_failure save_delivery sleep
  record_failure-HasMails n attempt error = record { at = λ w h. ground (arith, h) }

  publish_dlq-HasMails : (job : Job) (error : String) → Keeps HasMails (publish_dlq env job error)
  unfolding publish_dlq
  publish_dlq-HasMails job error = record { at = λ w h. ground (arith, h) }

  attempt_from-HasMails :
      (p : Provider) (n : Notification) (left attempt : ℕ) (error : String)
      → ((w : World) → (p.send n.job w).1.mails ≡ w.mails)
      → Keeps HasMails (attempt_from env p n left attempt error)
  unfolding attempt_from
  attempt_from-HasMails p n zero attempt error leaves = record {
    at = λ w h. (publish_dlq-HasMails n.job error).at w h;
  }
  attempt_from-HasMails p n (suc left) attempt error leaves = record {
    at = λ w h. elim (Result-cases (p.send n.job w).0) [
      | inl (_, e) ↦
          ap (λ out. out.1.mails) (attempt_from-sent env p n left attempt error w e) ∙ leaves w ∙ h
      | inr (x, e) ↦
          ap (λ out. out.1.mails) (attempt_from-failed env p n left attempt error w x e)
          ∙ (attempt_from-HasMails p n left (attempt + 1) (message x) leaves).at _
              ((record_failure-HasMails n attempt (message x)).at _ (leaves w ∙ h))
    ];
  }

  unsent :
      (mailer : Option (ℕ → Mail → Result (Unit {0}))) (job : Job) (w : World)
      → IsUnaddressed job
      → (send_email env mailer job w).1.mails ≡ w.mails
  unfolding send_email
  unsent none job w u = refl
  unsent (some mailer) job w u = rw u refl

  -- Every provider, without an address.
  provider_for :
      (c : Channel) (job : Job)
      → IsUnaddressed job
      → (p : Provider) × (find (λ q. same_channel q.channel c) (providers env) ≡ some p)
        × ((w : World) → (p.send job w).1.mails ≡ w.mails)
  unfolding providers
  provider_for email job u = (
    record { channel = email; send = send_email env env.mailer },
    refl,
    λ w. unsent env.mailer job w u,
  )
  provider_for sms job u = (record { channel = sms; send = λ job. pure tt }, refl, λ w. refl)
  provider_for push job u = (record { channel = push; send = λ job. pure tt }, refl, λ w. refl)
  provider_for in_app job u = (record { channel = in_app; send = λ job. pure tt }, refl, λ w. refl)

  dispatch_allowed-HasMails :
      (job : Job) → IsUnaddressed job → Keeps HasMails (dispatch_allowed env (providers env) job)
  unfolding dispatch_allowed save_notification deliver
  dispatch_allowed-HasMails job u = record {
    at = λ w h.
        let (p, f, leaves) = provider_for job.channel job u in
        let n : Notification = record {
          id = env.uuid w.draws;
          created_at = w.now;
          job = job;
          read_at = none;
        } in
        rw f ((attempt_from-HasMails p n 3 1 "" leaves).at _ h);
  }

  dispatch-HasMails :
      (job : Job) → IsUnaddressed job → Keeps HasMails (dispatch env (providers env) job)
  unfolding dispatch is_channel_enabled
  dispatch-HasMails job u =
      let allowed : Keeps HasMails (dispatch_allowed env (providers env) job) =
        dispatch_allowed-HasMails job u in
      search keeps_rules depth 12

  for_each-HasMails :
      (js : List Job)
      → All IsUnaddressed js
      → Keeps HasMails (for_each (dispatch env (providers env)) js)
  unfolding for_each
  for_each-HasMails [] a = Keeps-pure tt
  for_each-HasMails (j ∷ js) (u, a) =
      Keeps-then (dispatch env (providers env) j) (for_each (dispatch env (providers env)) js)
        (dispatch-HasMails j u) (for_each-HasMails js a)

-- The payloads of orders carry no address.
no_address :
    (payload : Payload)
    → is_some (payload_order_id payload) ≡ true
    → (fields_of payload "email" ≡ none) × (fields_of payload "to" ≡ none)
unfolding payload_order_id fields_of
no_address (created _ _ _ _ _) o = (refl, refl)
no_address (status_changed _ _ _) o = (refl, refl)
no_address (settled _ _ _) o = (refl, refl)
no_address (product_changed _ _) o = absurd (ground arith)
no_address (variant_changed _ _) o = absurd (ground arith)
no_address (otp_requested _ _ _ _) o = absurd (ground arith)
no_address (registered _ _ _) o = absurd (ground arith)
no_address (all_revoked _) o = absurd (ground arith)
no_address (session_revoked _ _) o = absurd (ground arith)

map_topic_to_jobs-All :
    (topic : Topic) (payload : Fields)
    → payload "email" ≡ none
    → payload "to" ≡ none
    → All IsUnaddressed (map_topic_to_jobs topic payload)
unfolding map_topic_to_jobs
map_topic_to_jobs-All topic payload e t = elim (Bool-cases (text_of payload "userId" == "")) [
  | inl b ↦ rw b tt
  | inr b ↦ rw b (jobs_for-All (text_of payload "userId") topic payload e t)
]

-- No event of an order is ever mailed to anyone, whatever its topic.
pub orders-unmailed :
    (env : Env) (topic : Topic) (payload : Payload) (w : World)
    → is_some (payload_order_id payload) ≡ true
    → (each_message env (providers env) topic (fields_of payload) w).1.mails ≡ w.mails
unfolding each_message
orders-unmailed env topic payload w of_order =
    let (e, t) = no_address payload of_order in
    let jobs = map_topic_to_jobs topic (fields_of payload) in
    (for_each-HasMails env w.mails (sort_jobs jobs)
        (sort_jobs-All jobs (map_topic_to_jobs-All topic (fields_of payload) e t))).at
      w refl
