-- ===== src/Jobs/Rq/Delivery.antt =====
-- What a delivery of an RQ job does: `execute_scheduled_scan_job` of src/orgscan/queueing.py.
use github_osint_secret_scan.Prelude.{
  ℕ, ◌+◌, String, ◌≡◌, Bool, Option, some, ◌⊎◌, ◌≢◌, ◌≤◌, ◌<◌, none,
}
use github_osint_secret_scan.Prelude.Dict.{lookup}
use github_osint_secret_scan.Prelude.Table.{Table, get}
use github_osint_secret_scan.Jobs.Policy.{Settings}
use github_osint_secret_scan.Jobs.Model.{
  Time, seconds, queued, completed, cancelled, QueueTask, ScheduledScan, Database,
}
use github_osint_secret_scan.Jobs.Storage.{claimed_row}
use github_osint_secret_scan.Jobs.Worker.{Classifier, Scan}
use github_osint_secret_scan.Jobs.Worker.Execute.{Reply, backend_error, cancelled_reply}
use github_osint_secret_scan.Jobs.Rq.{
  rq_claim, rq_execute, execute_scheduled_scan_job, taken, stored_result, missing, rq_run, rq_start,
  started,
}

module _ (classify : Classifier) (settings : Settings) (scan : Scan) (schedule_id : ℕ)
    (retries_left : Option ℕ) (now : Time) where
  -- The task of the key that a delivery brings.
  abbrev pub IsTask : Option String → Database → ℕ → QueueTask → Type 0
  IsTask key d i t =
      (k : String) × (key ≡ some k) × (t.execution_key ≡ some k) × (get i d.tasks ≡ some t)

  -- Why a delivery runs nothing, and what it answers.
  pub data Declined (key : Option String) (d : Database) : Reply → Type 0 where
    no_schedule : get schedule_id d.schedules ≡ none → Declined key d backend_error
    no_task :
        ((k : String) (i : ℕ) (t : QueueTask)
          → key ≡ some k
          → k ≢ ""
          → get i d.tasks ≡ some t
          → t.execution_key ≢ some k)
        → Declined key d (missing classify settings scan schedule_id retries_left now)
    of_another :
        (i : ℕ) (t : QueueTask)
        → IsTask key d i t
        → t.scheduled_scan_id ≢ schedule_id
        → Declined key d (missing classify settings scan schedule_id retries_left now)
    is_done :
        (i : ℕ) (t : QueueTask)
        → IsTask key d i t
        → t.status ≡ completed
        → Declined key d (
            stored_result classify settings scan schedule_id retries_left now
              (lookup "result" t.metadata_json))
    is_cancelled :
        (i : ℕ) (t : QueueTask)
        → IsTask key d i t
        → t.status ≡ cancelled
        → Declined key d cancelled_reply
    is_taken :
        (i : ℕ) (t : QueueTask)
        → IsTask key d i t
        → (t.status ≡ queued → now < t.available_at)
        → Declined key d (taken classify settings scan schedule_id retries_left now)

  -- The run of a task that is queued and due, under a lease of its own.
  pub record Delivered (key : Option String) (d : Database) (end : Database × Reply) : Type 0 where
    pub id : ℕ
    pub task : QueueTask
    pub name : String
    pub schedule : ScheduledScan
    pub claimed : Database
    pub is_task : IsTask key d id task
    pub own : task.scheduled_scan_id ≡ schedule_id
    pub waiting : task.status ≡ queued
    pub due : task.available_at ≤ now
    pub row : get id claimed.tasks ≡ some (claimed_row name (now + seconds 600) now task)
    pub others : (j : ℕ) → id ≢ j → get j claimed.tasks ≡ get j d.tasks
    pub schedules : claimed.schedules ≡ d.schedules
    pub run :
        end
        ≡ rq_run classify settings scan schedule_id retries_left now name id
            (started classify settings scan schedule_id retries_left now schedule)
            (rq_start classify settings scan schedule_id retries_left now schedule claimed)

  abbrev deliver : Option String → Database → Database × Reply
  deliver = execute_scheduled_scan_job classify settings scan schedule_id retries_left now

  abbrev execute : String → ℕ → QueueTask → ScheduledScan → Database → Database × Reply
  execute = rq_execute classify settings scan schedule_id retries_left now

  abbrev claim : String → ℕ → Database → Database × Bool
  claim = rq_claim classify settings scan schedule_id retries_left now

  -- How a delivery ends.
  abbrev pub Handled : Option String → Database → Database × Reply → Type 0
  Handled key d end =
      ((reply : Reply) × (end ≡ (d, reply)) × Declined key d reply) ⊎ Delivered key d end
