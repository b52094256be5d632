-- ===== src/Jobs/Worker/Execute.antt =====
-- `_execute_db_queue_task` of src/orgscan/queueing.py: the handler of one claimed task.
use github_osint_secret_scan.Prelude.{
  ℕ, ◌+◌, String, str_eq, false, not, ◌&&◌, Option, none, some, [], ◌∷◌, ltb, if◌then◌else◌,
}
use github_osint_secret_scan.Prelude.Dict.{lookup, insert, update}
use github_osint_secret_scan.Prelude.Table.{get}
use github_osint_secret_scan.Jobs.Policy.{Failure, Settings, retry_delay}
use github_osint_secret_scan.Jobs.Model.{
  ScheduledScan, Time, seconds, Value, flag, text, stamp, Metadata, Payload, Database,
}
use github_osint_secret_scan.Jobs.Storage.{
  write_task, write_schedule, mark_queue_task_retry, mark_queue_task_failed,
  mark_queue_task_cancelled,
}
use github_osint_secret_scan.Jobs.Worker.{
  Raised, Outcome, ok, raised, Classifier, failure_of, Scan, is_completed, owned_by, run_in_scope,
  finish_task,
}

-- How the handler ends. `execution_error` is a `JobExecutionError`, which the caller catches;
-- `backend_error` is any other exception.
pub data Reply : Type 0 where
  returned : Payload → Reply
  already_completed : Option Value → Reply
  cancelled_reply : Reply
  execution_error : String → Reply
  backend_error : Reply

module _ (classify : Classifier) (settings : Settings) (task_id : ℕ) (worker_id : String)
    (now : Time) where
  -- The `except` branch once the failure is known and the task is still owned.
  unfoldable pub record_cancelled : ℕ → Failure → Metadata → Database → Database
  record_cancelled schedule_id failure metadata db =
      write_schedule schedule_id
        (λ s. record s {
          enabled = false;
          metadata_json = update metadata (
              ("queue_backend", text "db")
              ∷ ("queue_status", text "cancelled")
              ∷ ("completed_at", stamp now)
              ∷ ("last_error", text failure.message)
              ∷ ("failure_code", text "cancelled")
              ∷ []);
        })
        (mark_queue_task_cancelled task_id now db)

  unfoldable pub note_failure : Failure → Database → Database
  note_failure failure db =
      write_task task_id
        (λ t. record t {
          metadata_json =
              update t.metadata_json
                (("failure_code", text failure.code) ∷ ("retryable", flag failure.retryable) ∷ []);
        })
        db

  unfoldable pub record_retry : ℕ → Failure → ℕ → Metadata → Database → Database
  record_retry schedule_id failure attempt_count metadata db =
      let next_attempt = now + seconds (retry_delay settings attempt_count failure) in
      write_schedule schedule_id
        (λ s. record s {
          metadata_json = update (insert "failure_code" (text failure.code) metadata) (
              ("queue_backend", text "db")
              ∷ ("queue_status", text "queued")
              ∷ ("worker_id", text worker_id)
              ∷ ("last_error", text failure.message)
              ∷ ("next_retry_at", stamp next_attempt)
              ∷ []);
        })
        (mark_queue_task_retry task_id next_attempt failure.message db)

  unfoldable pub record_failed : ℕ → Failure → Metadata → Database → Database
  record_failed schedule_id failure metadata db =
      write_schedule schedule_id
        (λ s. record s {
          enabled = false;
          metadata_json = update (insert "failure_code" (text failure.code) metadata) (
              ("queue_backend", text "db")
              ∷ ("queue_status", text "failed")
              ∷ ("worker_id", text worker_id)
              ∷ ("completed_at", stamp now)
              ∷ ("last_error", text failure.message)
              ∷ []);
        })
        (mark_queue_task_failed task_id failure.message now db)

  -- The `except` block, on the database that the rollback returned to.
  unfoldable pub fail_task : ℕ → Raised → Database → Database × Reply
  fail_task schedule_id e db =
      let failure = failure_of classify e in
      elim (get task_id db.tasks) [
        | none ↦ (db, backend_error)
        | some t ↦
            if not (owned_by worker_id t)
            then (db, execution_error "Queue task no longer owned by this worker")
            else elim (get schedule_id db.schedules) [
              | none ↦ (db, backend_error)
              | some s ↦
                  if str_eq failure.code "cancelled"
                  then (record_cancelled schedule_id failure s.metadata_json db, cancelled_reply)
                  else if failure.retryable && ltb t.attempt_count t.max_attempts
                  then (
                    record_retry schedule_id failure t.attempt_count s.metadata_json
                        (note_failure failure db),
                    execution_error failure.message,
                  )
                  else (
                    record_failed schedule_id failure s.metadata_json (note_failure failure db),
                    execution_error failure.message,
                  )
            ]
      ]

  abbrev pub settle : ℕ → Database → Outcome (Database × Payload) → Database × Reply
  settle schedule_id db (ok (db', result)) = (db', returned result)
  settle schedule_id db (raised e) = fail_task schedule_id e db

  -- The `try` statement: the scan, the commit of its results, and the `except` block.
  unfoldable pub run_task : Scan → ℕ → ScheduledScan → Database → Database × Reply
  run_task scan schedule_id loaded db =
      let (db', outcome) = run_in_scope scan task_id schedule_id db in
      elim outcome [
        | ok results ↦
            settle schedule_id db'
              (finish_task task_id schedule_id worker_id loaded now results db')
        | raised e ↦ fail_task schedule_id e db'
      ]

  unfoldable pub execute_db_queue_task : Scan → Database → Database × Reply
  execute_db_queue_task scan db = elim (get task_id db.tasks) [
    | none ↦ (db, backend_error)
    | some t ↦
        if is_completed t.status
        then (db, already_completed (lookup "result" t.metadata_json))
        else if not (owned_by worker_id t)
        then (db, execution_error "Queue task is not owned by this worker")
        else elim (get t.scheduled_scan_id db.schedules) [
          | none ↦
              (mark_queue_task_failed task_id "Scheduled scan does not exist" now db, backend_error)
          | some s ↦ run_task scan t.scheduled_scan_id s db
        ]
  ]
