-- ===== src/Jobs/Status.antt =====
-- What the queue reports: `_db_queue_status` of src/orgscan/queueing.py, and
-- `find_active_queue_task` of src/orgscan/repositories.py.
use mathlib.Core.List.{Memᴰ}
use github_osint_secret_scan.Prelude.{
  ℕ, ◌+◌, String, ◌≡◌, ◌⊎◌, refl, arith, Bool, true, false, ◌&&◌, Option, none, some, List, [], ◌∷◌,
  ◌==◌, if◌then◌else◌, length, keep, ltb, inl, inr, Bool-cases,
}
use github_osint_secret_scan.Prelude.Sort.{sort_by, mem-sort_by}
use github_osint_secret_scan.Prelude.Rows.{mem-keep, mem-of-get}
use github_osint_secret_scan.Prelude.Table.{get}
use github_osint_secret_scan.Jobs.Model.{
  QueueTaskStatus, queued, running, completed, failed, cancelled, Backend, same_backend, db,
  QueueTask, Database,
}
use github_osint_secret_scan.Jobs.Storage.{list_queue_tasks}

pub record QueueCounts : Type 0 where
  pub pending_jobs : ℕ
  pub started_jobs : ℕ
  pub failed_jobs : ℕ
  pub completed_jobs : ℕ

abbrev status_code : QueueTaskStatus → ℕ
status_code queued = 0
status_code running = 1
status_code completed = 2
status_code failed = 3
status_code cancelled = 4

-- sum(1 for task in tasks if task.status == status)
unfoldable pub count_status : QueueTaskStatus → List (ℕ × QueueTask) → ℕ
count_status s [] = 0
count_status s ((i, t) ∷ rows) =
    let rest = count_status s rows in
    if status_code t.status == status_code s then rest + 1 else rest

unfoldable pub db_queue_status : String → Database → QueueCounts
db_queue_status queue_name d =
    let tasks = list_queue_tasks db queue_name d in
    record {
      pending_jobs = count_status queued tasks;
      started_jobs = count_status running tasks;
      failed_jobs = count_status failed tasks;
      completed_jobs = count_status completed tasks;
    }

abbrev is_active : QueueTaskStatus → Bool
is_active queued = true
is_active running = true
is_active _ = false

-- ORDER BY id DESC LIMIT 1
abbrev higher : ℕ × QueueTask → ℕ × QueueTask → Bool
higher (i, t) (j, u) = ltb j i

abbrev first_of : List (ℕ × QueueTask) → Option (ℕ × QueueTask)
first_of [] = none
first_of (r ∷ rs) = some r

abbrev pub is_wanted : ℕ → Backend → ℕ × QueueTask → Bool
is_wanted schedule_id backend (i, t) =
    t.scheduled_scan_id == schedule_id && same_backend t.backend backend && is_active t.status

unfoldable pub find_active_queue_task : ℕ → Backend → Database → Option (ℕ × QueueTask)
find_active_queue_task schedule_id backend d =
    first_of (sort_by higher (keep (is_wanted schedule_id backend) d.tasks))

status_cases :
    (s : QueueTaskStatus)
    → (s ≡ queued) ⊎ ((s ≡ running) ⊎ ((s ≡ completed) ⊎ ((s ≡ failed) ⊎ (s ≡ cancelled))))
status_cases queued = inl refl
status_cases running = inr (inl refl)
status_cases completed = inr (inr (inl refl))
status_cases failed = inr (inr (inr (inl refl)))
status_cases cancelled = inr (inr (inr (inr refl)))

count_total :
    (rows : List (ℕ × QueueTask))
    → count_status queued rows
        + count_status running rows
        + count_status failed rows
        + count_status completed rows
        + count_status cancelled rows
      ≡ length rows
unfolding count_status
count_total [] = refl
count_total ((i, t) ∷ rows) = ground (arith, count_total rows, status_cases t.status)

-- The four counts of the status, with the cancelled tasks that it leaves out, are all tasks of the
-- queue.
pub db_queue_status-total :
    (queue_name : String) (d : Database)
    → (db_queue_status queue_name d).pending_jobs
        + (db_queue_status queue_name d).started_jobs
        + (db_queue_status queue_name d).failed_jobs
        + (db_queue_status queue_name d).completed_jobs
        + count_status cancelled (list_queue_tasks db queue_name d)
      ≡ length (list_queue_tasks db queue_name d)
unfolding db_queue_status
db_queue_status-total queue_name d = count_total (list_queue_tasks db queue_name d)

first_of-none :
    (rows : List (ℕ × QueueTask)) (r : ℕ × QueueTask) → first_of rows ≡ none → Memᴰ r rows → ⊥
first_of-none [] r h m = elim m [ ]
first_of-none (s ∷ rows) r h m = cc

-- If no active task is found, the schedule has none with that backend.
pub find_active_queue_task_complete :
    (schedule_id : ℕ) (backend : Backend) (d : Database) (i : ℕ) (t : QueueTask)
    → find_active_queue_task schedule_id backend d ≡ none
    → get i d.tasks ≡ some t
    → is_wanted schedule_id backend (i, t) ≡ false
unfolding find_active_queue_task
find_active_queue_task_complete schedule_id backend d i t h at_i =
    elim (Bool-cases (is_wanted schedule_id backend (i, t))) [
      | inr no_match ↦ no_match
      | inl wanted ↦ absurd (
          first_of-none _ (i, t) h
            (mem-sort_by higher _ (
              mem-keep (is_wanted schedule_id backend) d.tasks (mem-of-get i d.tasks at_i) wanted)))
    ]
