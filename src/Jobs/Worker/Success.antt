-- ===== src/Jobs/Worker/Success.antt =====
-- The commit of a finished scan in `_execute_db_queue_task` of src/orgscan/queueing.py, and the
-- release of the reservation that it performs.
use github_osint_secret_scan.Prelude.{
  ℕ, String, str_eq, eq_refl, ◌≡◌, refl, ap, ◌∙◌, inl, inr, arith, true, false, none, some, List,
  ◌∷◌, Option-cases,
}
use github_osint_secret_scan.Prelude.Dict.{lookup, insert}
use github_osint_secret_scan.Prelude.Table.{get, get-update_where_self, updated}
use github_osint_secret_scan.Jobs.Policy.{Settings}
use github_osint_secret_scan.Jobs.Model.{
  Time, payload, completed, is_truthy, holds, ScanExecutionResult, Payload, QueueTask,
  ScheduledScan, Database,
}
use github_osint_secret_scan.Jobs.Cadence.{next_run_from_cadence}
use github_osint_secret_scan.Jobs.Storage.{
  write_task, write_schedule, release_key, release_queue_execution, released,
  mark_queue_task_completed, mark_scheduled_scan_run,
}
use github_osint_secret_scan.Jobs.Storage.Finish.{tasks-released}
use github_osint_secret_scan.Jobs.Storage.Reservation.{key_of}
use github_osint_secret_scan.Jobs.Worker.{
  ok, Classifier, Scan, owned_by, run_in_scope, finish_task, commit_result, result_payload,
  after_run,
}
use github_osint_secret_scan.Jobs.Worker.Execute.{returned, run_task}

-- The end of a task frees its schedule: if the schedule carries the key of the task, it carries
-- none once the task's reservation is released.
pub released-frees :
    (i : ℕ) (d : Database) (t : QueueTask) (key : String)
    → get i d.tasks ≡ some t
    → t.execution_key ≡ some key
    → str_eq key "" ≡ false
    → key_of (get t.scheduled_scan_id d.schedules) ≡ some key
    → key_of (get t.scheduled_scan_id (released i d).schedules) ≡ none
unfolding released release_queue_execution release_key
released-frees i d t key at_i t_key full link =
    elim (Option-cases (get t.scheduled_scan_id d.schedules)) [
      | inl e ↦ ground (arith, link, e)
      | inr (s, e) ↦ ground (
        arith,
        at_i,
        t_key,
        full,
        link,
        e,
        eq_refl key,
        get-update_where_self t.scheduled_scan_id (λ row. holds row.queue_execution_key key)
            (λ row. record row { queue_execution_key = none }) d.schedules,
      )
    ]

module _ (classify : Classifier) (settings : Settings) (task_id : ℕ) (worker_id : String)
    (now : Time) (schedule_id : ℕ) where
  abbrev pub done_row : Payload → ScanExecutionResult → QueueTask → QueueTask
  done_row result r t = record t {
    metadata_json = insert "result" (payload result) t.metadata_json;
    status = completed;
    completed_at = some now;
    lease_owner = none;
    lease_expires_at = none;
    result_scan_job_id = some r.scan_job_id;
    result_tool_run_id = r.tool_run_id;
    last_error = none;
  }

  abbrev pub sent : ScanExecutionResult → List ScanExecutionResult → Payload
  sent r rs = record (result_payload schedule_id r rs) { queue_task_id = some task_id }

  abbrev noted : ScanExecutionResult → List ScanExecutionResult → QueueTask → QueueTask
  noted r rs t = record t { metadata_json = insert "result" (payload (sent r rs)) t.metadata_json }

  abbrev finished : ScanExecutionResult → QueueTask → QueueTask
  finished r t = record t {
    status = completed;
    completed_at = some now;
    lease_owner = none;
    lease_expires_at = none;
    result_scan_job_id = some r.scan_job_id;
    result_tool_run_id = r.tool_run_id;
    last_error = none;
  }

  -- The database before the task is marked.
  abbrev noted_db :
      ScheduledScan → ScanExecutionResult → List ScanExecutionResult → Database → Database
  noted_db loaded r rs d = write_task task_id (noted r rs) (
      mark_scheduled_scan_run schedule_id (next_run_from_cadence loaded.cadence now)
        (after_run loaded.cadence) now d)

  commit_result_row :
      (loaded : ScheduledScan) (r : ScanExecutionResult) (rs : List ScanExecutionResult)
      (d : Database) (t : QueueTask)
      → get task_id d.tasks ≡ some t
      → get task_id (commit_result task_id schedule_id worker_id loaded now r rs d).0.tasks
        ≡ some (done_row (sent r rs) r t)
  unfolding commit_result write_task write_schedule mark_queue_task_completed
      mark_scheduled_scan_run
  commit_result_row loaded r rs d t at_i =
      get-update_where_self task_id (λ _. true) (finished r)
        (released task_id (noted_db loaded r rs d)).tasks
      ∙ ap (λ ts. updated (λ _. true) (finished r) (get task_id ts))
          (tasks-released task_id (noted_db loaded r rs d))
      ∙ ap (updated (λ _. true) (finished r)) (
          get-update_where_self task_id (λ _. true) (noted r rs) d.tasks
          ∙ ap (updated (λ _. true) (noted r rs)) at_i)

  finish_task_ok :
      (loaded : ScheduledScan) (r : ScanExecutionResult) (rs : List ScanExecutionResult)
      (s : ScheduledScan) (d : Database) (t : QueueTask)
      → get task_id d.tasks ≡ some t
      → get schedule_id d.schedules ≡ some s
      → owned_by worker_id t ≡ true
      → is_truthy (lookup "cancel_requested_at" t.metadata_json) ≡ false
      → finish_task task_id schedule_id worker_id loaded now (r ∷ rs) d
        ≡ ok (commit_result task_id schedule_id worker_id loaded now r rs d)
  unfolding finish_task
  finish_task_ok loaded r rs s d t at_i row owned clear =
      rw (row, finish_task) (rw (at_i, finish_task) (rw owned (rw clear refl)))

  -- A scan that returns results while the worker still owns the task and nobody asked for a
  -- cancellation is committed: the task is completed without a lease, holds the ids of the first
  -- result and the payload under `result`, and the reply is that payload.
  pub run_task-completed :
      (scan : Scan) (loaded : ScheduledScan) (d d' : Database) (r : ScanExecutionResult)
      (rs : List ScanExecutionResult) (t : QueueTask) (s : ScheduledScan)
      → run_in_scope scan task_id schedule_id d ≡ (d', ok (r ∷ rs))
      → get task_id d'.tasks ≡ some t
      → get schedule_id d'.schedules ≡ some s
      → owned_by worker_id t ≡ true
      → is_truthy (lookup "cancel_requested_at" t.metadata_json) ≡ false
      → (get task_id
            (run_task classify settings task_id worker_id now scan schedule_id loaded d).0.tasks
          ≡ some (done_row (sent r rs) r t))
        × ((run_task classify settings task_id worker_id now scan schedule_id loaded d).1
            ≡ returned (sent r rs))
  unfolding run_task commit_result
  run_task-completed scan loaded d d' r rs t s ran at_i row owned clear =
      rw (ran, run_task)
        (rw (ap (λ x. x.0) ran) (
          rw (finish_task_ok loaded r rs s d' t at_i row owned clear)
            (commit_result_row loaded r rs d' t at_i, refl)))
