-- ===== src/Notification/Outcome.antt =====
-- What comes of a job (`dispatch` of
-- apps/notification/src/application/notification.dispatcher.ts).
use mathlib.Core.Path.{subst}
use food_ordering_app.Prelude.{
  ℕ, suc, true, false, ◌||◌, Option, none, some, [], ◌∷◌, ◌++◌, find, ◌≡◌, refl, sym, arith,
  Bool-cases, inl, inr, ◌⊎◌,
}
use food_ordering_app.Effect.{Result, ok, pure}
use food_ordering_app.Notification.Model.{
  Channel, email, sms, push, in_app, same_channel, Job, Notification, DeadLetter, Mail, World,
  Provider, Env,
}
use food_ordering_app.Notification.Dispatcher.{
  attempt_from, save_notification, deliver, dispatch_allowed, dispatch, is_channel_enabled,
  is_preference, enabled_or,
}
use food_ordering_app.Notification.Providers.{providers, send_email, send_mail}
use food_ordering_app.Notification.Attempts.{IsEnded, LeavesTables, attempt_from-ends}

module _ (env : Env) where
  send_email-leaves :
      (mailer : Option (ℕ → Mail → Result (Unit {0})))
      → LeavesTables (record { channel = email; send = send_email env mailer })
  unfolding send_email send_mail
  send_email-leaves none job w = (refl, refl)
  send_email-leaves (some mailer) job w = (ground arith, ground arith)

  -- Every channel has its provider.
  provider_for :
      (c : Channel)
      → (p : Provider) × (find (λ q. same_channel q.channel c) (providers env) ≡ some p)
        × LeavesTables p
  unfolding providers
  provider_for email = (
    record { channel = email; send = send_email env env.mailer },
    refl,
    send_email-leaves env.mailer,
  )
  provider_for sms = (record { channel = sms; send = λ job. pure tt }, refl, λ job w. (refl, refl))
  provider_for push =
      (record { channel = push; send = λ job. pure tt }, refl, λ job w. (refl, refl))
  provider_for in_app =
      (record { channel = in_app; send = λ job. pure tt }, refl, λ job w. (refl, refl))

  dispatch_allowed-ends :
      (job : Job) (w : World)
      → env.dlq_connected ≡ true
      → ((k : ℕ) (l : DeadLetter) → env.send_dead k l ≡ ok tt)
      → IsEnded
          (record { id = env.uuid w.draws; created_at = w.now; job = job; read_at = none })
          1
          w
          (dispatch_allowed env (providers env) job w)
  unfolding dispatch_allowed save_notification deliver
  dispatch_allowed-ends job w up takes =
      let (p, f, leaves) = provider_for job.channel in
      let n : Notification = record {
        id = env.uuid w.draws;
        created_at = w.now;
        job = job;
        read_at = none;
      } in
      let v : World = record w {
        notifications = w.notifications ++ (n ∷ []);
        draws = suc w.draws;
      } in
      let h = attempt_from-ends env p n 2 1 "" v leaves up takes (omega arith) in
      let is : dispatch_allowed env (providers env) job w ≡ attempt_from env p n 3 1 "" v =
        ground (arith, f) in
      subst (IsEnded n 1 w) (sym is) (record {
        ds = h.ds;
        letters = h.letters;
        answers = h.answers;
        deliveries = h.deliveries;
        dead = h.dead;
        trail = h.trail;
        unsent = h.unsent;
      })

  -- A job that is forced or that its user has not switched off gets at most three attempts, of which
  -- all but the last fail, and it ends as sent or in the DLQ, if Kafka takes what is given to it. Any
  -- other job changes nothing.
  pub dispatch-ends :
      (job : Job) (w : World)
      → env.dlq_connected ≡ true
      → ((k : ℕ) (l : DeadLetter) → env.send_dead k l ≡ ok tt)
      → (((job.force || enabled_or (find (is_preference job.user_id job.channel) w.preferences))
            ≡ true)
          × IsEnded
              (record { id = env.uuid w.draws; created_at = w.now; job = job; read_at = none })
              1
              w
              (dispatch env (providers env) job w))
        ⊎ (((job.force || enabled_or (find (is_preference job.user_id job.channel) w.preferences))
              ≡ false)
            × (dispatch env (providers env) job w ≡ (ok tt, w)))
  unfolding dispatch is_channel_enabled
  dispatch-ends job w up takes =
      let n : Notification = record {
        id = env.uuid w.draws;
        created_at = w.now;
        job = job;
        read_at = none;
      } in
      let allowed =
        job.force || enabled_or (find (is_preference job.user_id job.channel) w.preferences) in
      elim (Bool-cases allowed) [
        | inl a ↦
            let is : dispatch env (providers env) job w
                ≡ dispatch_allowed env (providers env) job w =
              ground arith in
            inl (a, subst (IsEnded n 1 w) (sym is) (dispatch_allowed-ends job w up takes))
        | inr a ↦ inr (a, ground arith)
      ]
