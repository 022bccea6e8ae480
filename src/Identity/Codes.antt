-- ===== src/Identity/Codes.antt =====
-- One-time codes (`requestOtp` and `verifyOtp` of
-- apps/identity/src/application/identity.service.ts).
use food_ordering_app.Prelude.{
  suc, String, true, Option, none, some, [], ◌∷◌, ◌++◌, if◌then◌else◌, find, leb, ◌≡◌, refl, ap,
  arith, Bool-cases, inl, inr,
}
use food_ordering_app.Effect.{Action, ok, err, rate_limit, pure, ◌>>◌}
use food_ordering_app.Text.{trim}
use food_ordering_app.Domain.{Envelope, Topic, Payload}
use food_ordering_app.Identity.Model.{UserRecord, DeviceContext, OtpType, otp_requests, World, Env}
use food_ordering_app.Identity.Users
use food_ordering_app.Identity.Audit.{append}
use food_ordering_app.Identity.Redis.{set_otp, clear_attempts, hit, counted}
use food_ordering_app.Identity.Service.{
  publish_event, generate_otp_code, otp_sent, request_otp, otp_found, send_otp, message_of,
  otp_request_limit, window_seconds,
}

then-answers :
    {A : Type 0} (m : Action World (Unit {0})) (a : A) (w : World)
    → (m w).0 ≡ ok tt
    → ((m >> pure a) w).0 ≡ ok a
then-answers m a w e = ground arith

then-continues :
    {A : Type 0} (m : Action World (Unit {0})) (a : A) (w v : World)
    → m w ≡ (ok tt, v)
    → (m >> pure a) w ≡ (ok a, v)
then-continues m a w v e =
    ap (λ out. elim out.0 [ ok _ ↦ (ok a, out.1) | err x ↦ (err x, out.1) ]) e

module _ (env : Env) where
  publish_event-takes :
      (topic : Topic) (key : String) (payload : Payload) (w : World)
      → env.connected ≡ true
      → ((m : Envelope) → env.send m ≡ ok tt)
      → publish_event env topic key payload w ≡ (
        ok tt,
        record w {
          draws = suc w.draws;
          sent = w.sent ++ (message_of env topic key payload w ∷ []);
        },
      )
  unfolding publish_event
  publish_event-takes topic key payload w up sends =
      rw (up, sends (message_of env topic key payload w)) refl

  -- What is published is sent, and then the rest is done.
  pub publish_event-sends :
      {A : Type 0} (topic : Topic) (key : String) (payload : Payload) (a : A) (w : World)
      → env.connected ≡ true
      → ((m : Envelope) → env.send m ≡ ok tt)
      → (publish_event env topic key payload >> pure a) w ≡ (
        ok a,
        record w {
          draws = suc w.draws;
          sent = w.sent ++ (message_of env topic key payload w ∷ []);
        },
      )
  publish_event-sends topic key payload a w up sends =
      then-continues (publish_event env topic key payload) a w _
        (publish_event-takes topic key payload w up sends)

  publish_event-answers :
      (topic : Topic) (key : String) (payload : Payload) (w : World)
      → ((m : Envelope) → env.send m ≡ ok tt)
      → (publish_event env topic key payload w).0 ≡ ok tt
  unfolding publish_event
  publish_event-answers topic key payload w sends =
      let sent = sends (message_of env topic key payload w) in
      elim (Bool-cases env.connected) [ inl c ↦ ground arith | inr c ↦ ground arith ]

  otp_found-answers :
      (found : Option UserRecord) (type : OtpType) (device : DeviceContext) (w : World)
      → ((m : Envelope) → env.send m ≡ ok tt)
      → (otp_found env found type device w).0 ≡ ok otp_sent
  unfolding otp_found send_otp generate_otp_code set_otp clear_attempts append
  otp_found-answers none type device w sends = refl
  otp_found-answers (some user) type device w sends =
      then-answers (publish_event env Topic.user_otp_requested user.id _) otp_sent _
        (publish_event-answers Topic.user_otp_requested user.id _ _ sends)

  -- What `requestOtp` answers depends on the rate limiter only, if Kafka takes what it is given: it
  -- does not tell whether an account has the identifier.
  pub request_otp-hides :
      (identifier : String) (type : OtpType) (device : DeviceContext) (w : World)
      → ((m : Envelope) → env.send m ≡ ok tt)
      → (request_otp env identifier type device w).0 ≡ (
          if leb
            (counted w.now window_seconds
              (w.rates otp_requests (trim (env.to_lower_case identifier)))).value
            otp_request_limit
          then ok otp_sent
          else err (rate_limit "Too many OTP requests. Try again later."))
  unfolding request_otp hit Users.find_by_email_or_phone
  request_otp-hides identifier type device w sends =
      let counted_once : World =
        (hit otp_requests (trim (env.to_lower_case identifier)) otp_request_limit window_seconds
          w).1 in
      let found = Users.map_found (find (Users.matches env (trim identifier)) w.users) in
      ground (arith, otp_found-answers found type device counted_once sends)
