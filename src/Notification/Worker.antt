-- ===== src/Notification/Worker.antt =====
-- `NotificationKafkaWorker` (apps/notification/src/infrastructure/messaging/kafka.worker.ts): what it
-- does with a message. Its `publishDlq` is with the dispatcher.
use food_ordering_app.Prelude.{List, [], ◌∷◌, if◌then◌else◌, leb}
use food_ordering_app.Effect.{ok, Action, for_each}
use food_ordering_app.Domain.{Topic}
use food_ordering_app.Notification.Model.{Fields, Job, World, Provider, Env}
use food_ordering_app.Notification.Jobs.{map_topic_to_jobs}
use food_ordering_app.Notification.Dispatcher.{dispatch}

-- A job among jobs in the order of their priorities: before the first of a lower one.
abbrev pub insert : Job → List Job → List Job
insert job [] = job ∷ []
insert job (j ∷ js) =
    let rest = insert job js in if leb job.priority j.priority then job ∷ (j ∷ js) else j ∷ rest

-- `jobs.sort((a, b) => a.priority - b.priority)`, which is stable.
unfoldable pub sort_jobs : List Job → List Job
sort_jobs [] = []
sort_jobs (j ∷ js) = insert j (sort_jobs js)

module _ (env : Env) (providers : List Provider) where
  -- `eachMessage`: an exception is logged, and the jobs after it are left.
  unfoldable pub each_message : Topic → Fields → Action World (Unit {0})
  each_message topic payload w =
      let (r, v) =
        for_each (dispatch env providers) (sort_jobs (map_topic_to_jobs topic payload)) w in
      (ok tt, v)
