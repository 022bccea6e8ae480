-- ===== src/Notification/Dispatcher.antt =====
-- `NotificationDispatcher` (apps/notification/src/application/notification.dispatcher.ts).
use Prim.Native.Nat.{◌^◌}
use Prim.Native.String
use food_ordering_app.Prelude.{
  ℕ, zero, suc, ◌+◌, ◌*◌, String, Bool, true, ◌&&◌, Option, none, some, List, [], ◌∷◌, ◌++◌, ◌==◌,
  if◌then◌else◌, find, leb, ltb,
}
use food_ordering_app.Effect.{message, ok, err, Action, pure, gets, modify, ◌>>=◌, ◌>>◌}
use food_ordering_app.Notification.Model.{
  Channel, channel_name, same_channel, Job, Notification, DeliveryStatus, sent, failed, dlq,
  Preference, DeadLetter, World, Provider, Env,
}

abbrev pub max_attempts : ℕ
max_attempts = 3

-- The preference of a user for a channel.
abbrev pub is_preference : String → Channel → Preference → Bool
is_preference user channel p = p.user_id == user && same_channel p.channel channel

abbrev pub enabled_or : Option Preference → Bool
enabled_or none = true
enabled_or (some p) = p.enabled

-- `isChannelEnabled`
unfoldable pub is_channel_enabled : String → Channel → Action World Bool
is_channel_enabled user channel =
    gets (λ w. enabled_or (find (is_preference user channel) w.preferences))

unfoldable pub save_delivery :
    Notification → DeliveryStatus → ℕ → Option String → Option ℕ → Action World (Unit {0})
save_delivery n status attempts error delivered_at = modify (λ w. record w {
  deliveries =
      w.deliveries
      ++ (record {
        notification_id = n.id;
        notification_created_at = n.created_at;
        channel = n.job.channel;
        status = status;
        attempts = attempts;
        error = error;
        delivered_at = delivered_at;
      }
          ∷ []);
})

-- `sleep(2 ** attempt * 100)`
unfoldable pub sleep : ℕ → Action World (Unit {0})
sleep milliseconds = modify (λ w. record w { now = w.now + milliseconds })

module _ (env : Env) where
  open env use {uuid, dlq_connected, send_dead}

  -- `publishDlq` of apps/notification/src/infrastructure/messaging/kafka.worker.ts: without a
  -- producer the job is dropped.
  unfoldable pub publish_dlq : Job → String → Action World (Unit {0})
  publish_dlq job error w =
      let letter : DeadLetter = record { job = job; error = error; at = w.now } in
      if dlq_connected
      then elim (send_dead w.calls letter) [
        | ok _ ↦ (ok tt, record w { dead = w.dead ++ (letter ∷ []); calls = suc w.calls })
        | err e ↦ (err e, record w { calls = suc w.calls })
      ]
      else (ok tt, w)

  -- What `catch (err)` does after an attempt.
  unfoldable pub record_failure : Notification → ℕ → String → Action World (Unit {0})
  record_failure n attempt error = do
    save_delivery n (if leb max_attempts attempt then dlq else failed) attempt (some error) none
    (if ltb attempt max_attempts then sleep (2 ^ attempt * 100) else pure tt)

  abbrev record_sent : Notification → ℕ → Action World (Unit {0})
  record_sent n attempt w = save_delivery n sent attempt none (some w.now) w

  -- The loop over the attempts, with how many are left.
  unfoldable pub attempt_from :
      Provider → Notification → (left attempt : ℕ) → String → Action World (Unit {0})
  attempt_from provider n zero attempt last_error w = publish_dlq n.job last_error w
  attempt_from provider n (suc left) attempt last_error w =
      let (r, v) = provider.send n.job w in
      elim r [
        | ok _ ↦ record_sent n attempt v
        | err e ↦
            (record_failure n attempt (message e)
                >> attempt_from provider n left (attempt + 1) (message e))
              v
      ]

  -- The row of the notification that `dispatch` saves.
  unfoldable pub save_notification : Job → Action World Notification
  save_notification job w =
      let n : Notification = record {
        id = uuid w.draws;
        created_at = w.now;
        job = job;
        read_at = none;
      } in
      (ok n, record w { notifications = w.notifications ++ (n ∷ []); draws = suc w.draws })

  unfoldable pub deliver : Option Provider → Notification → Action World (Unit {0})
  deliver none n =
      save_delivery n failed 1
        (some (String.◌++◌ "No provider for channel " (channel_name n.job.channel))) none
  deliver (some provider) n = attempt_from provider n max_attempts 1 ""

  -- `dispatch` for a job that is let through.
  unfoldable pub dispatch_allowed : List Provider → Job → Action World (Unit {0})
  dispatch_allowed providers job = do
    n ← save_notification job
    deliver (find (λ p. same_channel p.channel job.channel) providers) n

  unfoldable pub dispatch : List Provider → Job → Action World (Unit {0})
  dispatch providers job = if job.force then dispatch_allowed providers job else (do
    enabled ← is_channel_enabled job.user_id job.channel
    (if enabled then dispatch_allowed providers job else pure tt))
