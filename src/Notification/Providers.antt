-- ===== src/Notification/Providers.antt =====
-- The channel providers (apps/notification/src/infrastructure/providers/channel.providers.ts). Logging
-- is left out.
use Prim.Native.String
use Prim.Native.Char.{code}
use food_ordering_app.Prelude.{
  ℕ, suc, String, Option, none, some, List, [], ◌∷◌, ◌++◌, ◌==◌, if◌then◌else◌, or_else, nat_eq,
}
use food_ordering_app.Effect.{Result, ok, err, Action, pure}
use food_ordering_app.Text.{trim}
use food_ordering_app.Notification.Model.{email, sms, push, in_app, Job, Mail, World, Provider, Env}

-- `job.body.replace(/\n/g, '<br/>')`
unfoldable pub with_breaks : String → String
with_breaks String.[] = ""
with_breaks (String.◌∷◌ c s) =
    let rest = with_breaks s in
    if nat_eq (code c) 10 then String.◌++◌ "<br/>" rest else String.◌∷◌ c rest

-- `String(job.payload.email ?? job.payload.to ?? '').trim()`
unfoldable pub recipient : Job → String
recipient job = trim (or_else (job.payload "email") (or_else (job.payload "to") ""))

module _ (env : Env) where
  open env use {mailer, from}

  abbrev pub mail_of : Job → Mail
  mail_of job = record {
    from = from;
    to = recipient job;
    subject = job.title;
    text = job.body;
    html = String.◌++◌ "<p>" (String.◌++◌ (with_breaks job.body) "</p>");
  }

  -- `mailer.sendMail`
  unfoldable pub send_mail : (ℕ → Mail → Result (Unit {0})) → Mail → Action World (Unit {0})
  send_mail mailer mail w =
      let called : World = record w { calls = suc w.calls } in
      elim (mailer w.calls mail) [
        | ok _ ↦ (ok tt, record called { mails = w.mails ++ (mail ∷ []) })
        | err e ↦ (err e, called)
      ]

  -- `EmailProvider.send`: without a server or a recipient nothing is sent.
  unfoldable pub send_email : Option (ℕ → Mail → Result (Unit {0})) → Job → Action World (Unit {0})
  send_email none job = pure tt
  send_email (some mailer) job =
      if recipient job == "" then pure tt else send_mail mailer (mail_of job)

  -- The providers in the order of app.module.ts; the last three only log.
  unfoldable pub providers : List Provider
  providers =
      record { channel = email; send = send_email mailer }
      ∷ (record { channel = sms; send = λ job. pure tt }
          ∷ (record { channel = push; send = λ job. pure tt }
              ∷ (record { channel = in_app; send = λ job. pure tt } ∷ [])))
