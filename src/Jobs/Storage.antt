-- ===== src/Jobs/Storage.antt =====
-- The queue operations of `Storage`, src/orgscan/repositories.py, as functions on the database.
-- An object of the session is named by its id, and a write of its attributes is a write of its row.
-- `uuid.uuid4().hex` and the clock are arguments.
pub mod Reservation
pub mod Operations
pub mod Finish
pub mod Reserve
pub mod Claim
use github_osint_secret_scan.Prelude.{
  is_none, ℕ, ◌+◌, String, str_eq, Bool, true, false, ◌&&◌, ◌||◌, Option, none, some, List, [], ◌∷◌,
  ltb, leb, ◌==◌, if◌then◌else◌, keep,
}
use github_osint_secret_scan.Prelude.Sort.{sort_by}
use github_osint_secret_scan.Prelude.Table.{get, fresh_id, add_row, update_where}
use github_osint_secret_scan.Jobs.Model.{
  Time, QueueTaskStatus, queued, running, completed, failed, cancelled, is_queued, Backend,
  same_backend, QueueTask, ScheduledScan, Database, holds,
}

-- Writes attributes of one task object.
unfoldable pub write_task : ℕ → (QueueTask → QueueTask) → Database → Database
write_task i f db = record db { tasks = (update_where i (λ _. true) f db.tasks).0 }

unfoldable pub write_schedule : ℕ → (ScheduledScan → ScheduledScan) → Database → Database
write_schedule i f db = record db { schedules = (update_where i (λ _. true) f db.schedules).0 }

unfoldable pub create_queue_task :
    ℕ → Backend → String → QueueTaskStatus → ℕ → Time → Time → Database → ℕ × Database
create_queue_task scheduled_scan_id backend queue_name status max_attempts available_at now db = (
  fresh_id db.tasks,
  record db {
    tasks =
        add_row
          (record {
            execution_key = none;
            scheduled_scan_id = scheduled_scan_id;
            backend = backend;
            queue_name = queue_name;
            status = status;
            attempt_count = 0;
            max_attempts = max_attempts;
            available_at = available_at;
            lease_owner = none;
            lease_expires_at = none;
            started_at = none;
            completed_at = none;
            result_scan_job_id = none;
            result_tool_run_id = none;
            last_error = none;
            metadata_json = [];
            created_at = now;
          })
          db.tasks;
  },
)

-- The row may be reserved: unreserved, enabled, and not moved since it was read.
unfoldable pub reservable : Time → ScheduledScan → Bool
reservable next_run_at row =
    is_none row.queue_execution_key && row.enabled && row.next_run_at == next_run_at

-- `none` is the source's `None`: another process took the schedule.
unfoldable pub reserve_queue_execution :
    String → ℕ → Time → Backend → String → ℕ → Time → Database → Option (ℕ × Database)
reserve_queue_execution key scheduled_id next_run_at backend queue_name max_attempts now db =
    let (schedules', claimed) =
      update_where scheduled_id (reservable next_run_at)
        (λ row. record row { queue_execution_key = some key }) db.schedules in
    if claimed
    then (let (task_id, db') =
          create_queue_task scheduled_id backend queue_name queued max_attempts now now
            (record db { schedules = schedules' }) in
        some (task_id, write_task task_id (λ t. record t { execution_key = some key }) db'))
    else none

-- UPDATE scheduled_scans SET queue_execution_key = NULL WHERE id = i AND queue_execution_key = key
unfoldable pub release_key : ℕ → String → Database → Database
release_key i key db = record db {
  schedules =
      (update_where i (λ row. holds row.queue_execution_key key)
        (λ row. record row { queue_execution_key = none }) db.schedules).0;
}

-- `if task.execution_key:`, so that an empty key releases nothing.
unfoldable pub release_queue_execution : QueueTask → Database → Database
release_queue_execution task db = elim task.execution_key [
  | none ↦ db
  | some key ↦ if str_eq key "" then db else release_key task.scheduled_scan_id key db
]

abbrev is_in : ℕ → List ℕ → Bool
is_in i [] = false
is_in i (j ∷ js) = j == i || is_in i js

abbrev in_scope : Option (List ℕ) → ℕ → Bool
in_scope none i = true
in_scope (some ids) i = is_in i ids

abbrev lease_free : Time → Option Time → Bool
lease_free current none = true
lease_free current (some t) = leb t current

-- The WHERE of the SELECT.
unfoldable pub is_candidate : Backend → String → Time → Option (List ℕ) → ℕ × QueueTask → Bool
is_candidate backend queue_name current schedule_ids (i, t) =
    same_backend t.backend backend
    && str_eq t.queue_name queue_name
    && is_queued t.status
    && leb t.available_at current
    && in_scope schedule_ids t.scheduled_scan_id

-- ORDER BY available_at, id
unfoldable pub earlier : ℕ × QueueTask → ℕ × QueueTask → Bool
earlier (i, t) (j, u) =
    ltb t.available_at u.available_at || t.available_at == u.available_at && ltb i j

-- The WHERE of the UPDATE.
unfoldable pub claimable : Time → QueueTask → Bool
claimable current t =
    is_queued t.status && leb t.available_at current && lease_free current t.lease_expires_at

unfoldable pub claimed_row : String → Time → Time → QueueTask → QueueTask
claimed_row worker_id lease_until current t = record t {
  status = running;
  lease_owner = some worker_id;
  lease_expires_at = some lease_until;
  started_at = some current;
  attempt_count = t.attempt_count + 1;
}

-- The compare-and-set of one candidate, and its row count.
unfoldable pub claim_one : String → Time → Time → ℕ → Database → Database × Bool
claim_one worker_id lease_until current i db =
    let (tasks', claimed) =
      update_where i (claimable current) (claimed_row worker_id lease_until current) db.tasks in
    (record db { tasks = tasks' }, claimed)

-- The loop over the candidates that were read; other processes may have changed their rows since.
unfoldable pub claim_candidates :
    String → Time → Time → List (ℕ × QueueTask) → Database → Option ℕ × Database
claim_candidates worker_id lease_until current [] db = (none, db)
claim_candidates worker_id lease_until current ((i, t) ∷ rest) db =
    elim ((claim_one worker_id lease_until current i db).1) [
      | true ↦ (some i, (claim_one worker_id lease_until current i db).0)
      | false ↦
          claim_candidates worker_id lease_until current rest
            (claim_one worker_id lease_until current i db).0
    ]

unfoldable pub claim_queue_task :
    Backend → String → String → Time → Time → Option (List ℕ) → Database → Option ℕ × Database
claim_queue_task backend queue_name worker_id lease_until current schedule_ids db =
    claim_candidates worker_id lease_until current
      (sort_by earlier (keep (is_candidate backend queue_name current schedule_ids) db.tasks)) db

-- `release_queue_execution(task)` reads the task's row before it is written.
unfoldable pub released : ℕ → Database → Database
released i db = elim (get i db.tasks) [ none ↦ db | some t ↦ release_queue_execution t db ]

unfoldable pub mark_queue_task_completed : ℕ → Option ℕ → Option ℕ → Time → Database → Database
mark_queue_task_completed i scan_job_id tool_run_id now db =
    write_task i
      (λ t. record t {
        status = completed;
        completed_at = some now;
        lease_owner = none;
        lease_expires_at = none;
        result_scan_job_id = scan_job_id;
        result_tool_run_id = tool_run_id;
        last_error = none;
      })
      (released i db)

unfoldable pub mark_queue_task_retry : ℕ → Time → String → Database → Database
mark_queue_task_retry i available_at error_message db =
    write_task i
      (λ t. record t {
        status = queued;
        available_at = available_at;
        lease_owner = none;
        lease_expires_at = none;
        last_error = some error_message;
      })
      db

unfoldable pub mark_queue_task_failed : ℕ → String → Time → Database → Database
mark_queue_task_failed i error_message now db =
    write_task i
      (λ t. record t {
        status = failed;
        completed_at = some now;
        lease_owner = none;
        lease_expires_at = none;
        last_error = some error_message;
      })
      db

unfoldable pub mark_queue_task_cancelled : ℕ → Time → Database → Database
mark_queue_task_cancelled i now db =
    write_task i
      (λ t. record t {
        status = cancelled;
        completed_at = some now;
        lease_owner = none;
        lease_expires_at = none;
        last_error = some "Operation cancelled by operator";
      })
      (released i db)

abbrev set_enabled : Option Bool → Bool → Bool
set_enabled none old = old
set_enabled (some new) old = new

unfoldable pub mark_scheduled_scan_run : ℕ → Time → Option Bool → Time → Database → Database
mark_scheduled_scan_run i next_run_at enabled now db =
    write_schedule i
      (λ row. record row {
        last_run_at = some now;
        next_run_at = next_run_at;
        enabled = set_enabled enabled row.enabled;
      })
      db

-- ORDER BY next_run_at, id
unfoldable pub due_earlier : ℕ × ScheduledScan → ℕ × ScheduledScan → Bool
due_earlier (i, s) (j, t) =
    ltb s.next_run_at t.next_run_at || s.next_run_at == t.next_run_at && ltb i j

-- `list_due_scheduled_scans`, or the same SELECT restricted to a set of ids.
unfoldable pub list_due_scheduled_scans :
    Time → Option (List ℕ) → Database → List (ℕ × ScheduledScan)
list_due_scheduled_scans current schedule_ids db = sort_by due_earlier (
    keep (λ row. row.1.enabled && leb row.1.next_run_at current && in_scope schedule_ids row.0)
      db.schedules)

-- ORDER BY created_at DESC, id DESC
unfoldable pub newer : ℕ × QueueTask → ℕ × QueueTask → Bool
newer (i, t) (j, u) = ltb u.created_at t.created_at || u.created_at == t.created_at && ltb j i

unfoldable pub list_queue_tasks : Backend → String → Database → List (ℕ × QueueTask)
list_queue_tasks backend queue_name db = sort_by newer (
    keep (λ row. same_backend row.1.backend backend && str_eq row.1.queue_name queue_name) db.tasks)
