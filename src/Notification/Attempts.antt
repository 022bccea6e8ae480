-- ===== src/Notification/Attempts.antt =====
-- The loop over the attempts to send a job (`dispatch` of
-- apps/notification/src/application/notification.dispatcher.ts).
use mathlib.Core.Path.{subst}
use mathlib.Core.List.{append_assoc, append-nil}
use food_ordering_app.Prelude.{
  ℕ, zero, suc, ◌+◌, ◌<◌, String, Bool, true, false, ◌&&◌, ◌||◌, Option, none, some, List, [], ◌∷◌,
  ◌++◌, ◌==◌, if◌then◌else◌, leb, ltb, nat_eq, map, ◌≡◌, refl, sym, ap, ◌∙◌, arith, eq_refl, inl,
  inr,
}
use food_ordering_app.Effect.{Error, message, Result, ok, err, Result-cases}
use food_ordering_app.Notification.Model.{
  Job, Notification, DeliveryStatus, sent, failed, dlq, Delivery, DeadLetter, World, Provider, Env,
}
use food_ordering_app.Notification.Dispatcher.{
  save_delivery, sleep, publish_dlq, record_failure, attempt_from,
}

abbrev is_sent : DeliveryStatus → Bool
is_sent sent = true
is_sent _ = false

abbrev is_failed : DeliveryStatus → Bool
is_failed failed = true
is_failed _ = false

abbrev is_dlq : DeliveryStatus → Bool
is_dlq dlq = true
is_dlq _ = false

abbrev is_end : List Delivery → Bool
is_end [] = true
is_end (_ ∷ _) = false

-- Deliveries of a notification, numbered from an attempt on: all but the last failed, and the last
-- one was sent or is the third, which goes to the DLQ.
abbrev pub is_trail : Notification → ℕ → List Delivery → Bool
is_trail n attempt [] = false
is_trail n attempt (d ∷ ds) =
    let rest = is_trail n (attempt + 1) ds in
    (d.notification_id == n.id && nat_eq d.attempts attempt)
    && (is_sent d.status && is_end ds
        || (is_dlq d.status && (nat_eq attempt 3 && is_end ds)
            || is_failed d.status && (ltb attempt 3 && rest)))

abbrev pub was_sent : List Delivery → Bool
was_sent [] = false
was_sent (d ∷ ds) = let rest = was_sent ds in is_sent d.status || rest

abbrev jobs_of : List DeadLetter → List Job
jobs_of = map (λ l. l.job)

-- A run that answers, adds a trail of deliveries, and gives the job to the DLQ unless it was sent.
pub record IsEnded (n : Notification) (attempt : ℕ) (w : World) (out : Result (Unit {0}) × World)
    : Type 0 where
  pub ds : List Delivery
  pub letters : List DeadLetter
  pub answers : out.0 ≡ ok tt
  pub deliveries : out.1.deliveries ≡ w.deliveries ++ ds
  pub dead : out.1.dead ≡ w.dead ++ letters
  pub trail : is_trail n attempt ds ≡ true
  pub unsent : jobs_of letters ≡ (if was_sent ds then [] else n.job ∷ [])

-- A provider that leaves the deliveries and the dead letters alone.
abbrev pub LeavesTables : Provider → Type 0
LeavesTables p =
    (job : Job) (w : World)
    → ((p.send job w).1.deliveries ≡ w.deliveries) × ((p.send job w).1.dead ≡ w.dead)

module _ (env : Env) where
  publish_dlq-takes :
      (job : Job) (error : String) (w : World)
      → env.dlq_connected ≡ true
      → ((k : ℕ) (l : DeadLetter) → env.send_dead k l ≡ ok tt)
      → publish_dlq env job error w ≡ (
        ok tt,
        record w {
          dead = w.dead ++ (record { job = job; error = error; at = w.now } ∷ []);
          calls = suc w.calls;
        },
      )
  unfolding publish_dlq
  publish_dlq-takes job error w up takes =
      let taken = takes w.calls (record { job = job; error = error; at = w.now }) in ground arith

  abbrev pub delivery_of : Notification → DeliveryStatus → ℕ → Option String → Option ℕ → Delivery
  delivery_of n status attempts error delivered_at = record {
    notification_id = n.id;
    notification_created_at = n.created_at;
    channel = n.job.channel;
    status = status;
    attempts = attempts;
    error = error;
    delivered_at = delivered_at;
  }

  abbrev failure_of : Notification → ℕ → String → Delivery
  failure_of n attempt error =
      delivery_of n (if leb 3 attempt then dlq else failed) attempt (some error) none

  pub attempt_from-sent :
      (p : Provider) (n : Notification) (left attempt : ℕ) (last_error : String) (w : World)
      → (p.send n.job w).0 ≡ ok tt
      → let v = (p.send n.job w).1 in
        attempt_from env p n (suc left) attempt last_error w ≡ (
          ok tt,
          record v {
            deliveries = v.deliveries ++ (delivery_of n sent attempt none (some v.now) ∷ []);
          },
        )
  unfolding attempt_from save_delivery
  attempt_from-sent p n left attempt last_error w e = ground arith

  record_failure-state :
      (n : Notification) (attempt : ℕ) (error : String) (w : World)
      → ((record_failure env n attempt error w).0 ≡ ok tt)
        × ((record_failure env n attempt error w).1.deliveries
            ≡ w.deliveries ++ (failure_of n attempt error ∷ []))
        × ((record_failure env n attempt error w).1.dead ≡ w.dead)
  unfolding record_failure save_delivery sleep
  record_failure-state n attempt error w = (ground arith, ground arith, ground arith)

  pub attempt_from-failed :
      (p : Provider) (n : Notification) (left attempt : ℕ) (last_error : String) (w : World)
      (x : Error)
      → (p.send n.job w).0 ≡ err x
      → attempt_from env p n (suc left) attempt last_error w
        ≡ attempt_from env p n left
            (attempt + 1)
            (message x)
            (record_failure env n attempt (message x) (p.send n.job w).1).1
  unfolding attempt_from
  attempt_from-failed p n left attempt last_error w x e =
      let (a, d, l) = record_failure-state n attempt (message x) (p.send n.job w).1 in ground arith

  -- The third failure goes to the DLQ.
  third-ends :
      (p : Provider) (n : Notification) (error : String) (w v : World)
      → v.deliveries ≡ w.deliveries
      → v.dead ≡ w.dead
      → env.dlq_connected ≡ true
      → ((k : ℕ) (l : DeadLetter) → env.send_dead k l ≡ ok tt)
      → IsEnded n 3 w (publish_dlq env n.job error (record_failure env n 3 error v).1)
  third-ends p n error w v tables letters up takes =
      let u = (record_failure env n 3 error v).1 in
      let (_, ds, ls) = record_failure-state n 3 error v in
      subst (IsEnded n 3 w) (sym (publish_dlq-takes n.job error u up takes)) (record {
        ds = failure_of n 3 error ∷ [];
        letters = record { job = n.job; error = error; at = u.now } ∷ [];
        answers = refl;
        deliveries = ds ∙ ap (λ rows. rows ++ (failure_of n 3 error ∷ [])) tables;
        dead =
            ap (λ rows. rows ++ (record { job = n.job; error = error; at = u.now } ∷ []))
              (ls ∙ letters);
        trail = ground (arith, eq_refl n.id);
        unsent = refl;
      })

  -- A failure before the third one goes before what comes of the rest.
  earlier-ends :
      (n : Notification) (attempt : ℕ) (error : String) (w v : World)
      (out : Result (Unit {0}) × World)
      → v.deliveries ≡ w.deliveries
      → v.dead ≡ w.dead
      → attempt < 3
      → IsEnded n (attempt + 1) (record_failure env n attempt error v).1 out
      → IsEnded n attempt w out
  earlier-ends n attempt error w v out tables letters lt h =
      let d = failure_of n attempt error in
      let (_, ds, ls) = record_failure-state n attempt error v in
      record {
        ds = d ∷ h.ds;
        letters = h.letters;
        answers = h.answers;
        deliveries =
            h.deliveries
            ∙ ap (λ rows. rows ++ h.ds) (ds ∙ ap (λ rows. rows ++ (d ∷ [])) tables)
            ∙ append_assoc w.deliveries (d ∷ []) h.ds;
        dead = h.dead ∙ ap (λ rows. rows ++ h.letters) (ls ∙ letters);
        trail = ground (arith, eq_refl n.id, h.trail);
        unsent = ground (arith, h.unsent);
      }

  sent-ends :
      (p : Provider) (n : Notification) (left attempt : ℕ) (last_error : String) (w : World)
      → LeavesTables p
      → (p.send n.job w).0 ≡ ok tt
      → IsEnded n attempt w (attempt_from env p n (suc left) attempt last_error w)
  sent-ends p n left attempt last_error w leaves e =
      let v = (p.send n.job w).1 in
      let (tables, letters) = leaves n.job w in
      subst (IsEnded n attempt w) (sym (attempt_from-sent p n left attempt last_error w e))
        (record {
          ds = delivery_of n sent attempt none (some v.now) ∷ [];
          letters = [];
          answers = refl;
          deliveries = ap (λ ds. ds ++ (delivery_of n sent attempt none (some v.now) ∷ [])) tables;
          dead = letters ∙ sym (append-nil w.dead);
          trail = ground (arith, eq_refl n.id);
          unsent = refl;
        })

  pub attempt_from-ends :
      (p : Provider) (n : Notification) (left attempt : ℕ) (last_error : String) (w : World)
      → LeavesTables p
      → env.dlq_connected ≡ true
      → ((k : ℕ) (l : DeadLetter) → env.send_dead k l ≡ ok tt)
      → left + attempt ≡ 3
      → IsEnded n attempt w (attempt_from env p n (suc left) attempt last_error w)
  unfolding attempt_from
  attempt_from-ends p n zero attempt last_error w leaves up takes sum =
      let (tables, letters) = leaves n.job w in
      elim (Result-cases (p.send n.job w).0) [
        | inl (_, e) ↦ sent-ends p n zero attempt last_error w leaves e
        | inr (x, e) ↦
            let three : 3 ≡ attempt = omega (arith, sum) in
            subst (λ k. IsEnded n k w (attempt_from env p n 1 k last_error w)) three
              (subst (IsEnded n 3 w) (sym (attempt_from-failed p n zero 3 last_error w x e))
                (third-ends p n (message x) w (p.send n.job w).1 tables letters up takes))
      ]
  attempt_from-ends p n (suc left) attempt last_error w leaves up takes sum =
      let (tables, letters) = leaves n.job w in
      let v = (p.send n.job w).1 in
      elim (Result-cases (p.send n.job w).0) [
        | inl (_, e) ↦ sent-ends p n (suc left) attempt last_error w leaves e
        | inr (x, e) ↦
            subst (IsEnded n attempt w)
              (sym (attempt_from-failed p n (suc left) attempt last_error w x e))
              (earlier-ends n attempt (message x) w v _ tables letters (omega arith) (
                attempt_from-ends p n left (attempt + 1) (message x)
                  (record_failure env n attempt (message x) v).1 leaves up takes (omega arith)))
      ]
