-- ===== src/Jobs/Worker/Ownership.antt =====
-- What the handler of a claimed task does when the task was lost or cancelled while its scan ran:
-- `_execute_db_queue_task` of src/orgscan/queueing.py.
use github_osint_secret_scan.Prelude.{
  ℕ, String, ◌≡◌, refl, ap, ◌∙◌, inl, inr, arith, true, false, none, some, List, [], ◌∷◌,
  Option-cases,
}
use github_osint_secret_scan.Prelude.Dict.{lookup}
use github_osint_secret_scan.Prelude.Table.{get, get-update_where_self, updated}
use github_osint_secret_scan.Jobs.Policy.{Settings}
use github_osint_secret_scan.Jobs.Model.{
  Time, Metadata, is_truthy, cancelled, ScanExecutionResult, QueueTask, ScheduledScan, Database,
}
use github_osint_secret_scan.Jobs.Storage.{
  write_task, write_schedule, released, mark_queue_task_cancelled,
}
use github_osint_secret_scan.Jobs.Storage.Finish.{tasks-released}
use github_osint_secret_scan.Jobs.Worker.{
  Raised, cancellation_requested, own_error, Outcome, ok, raised, Classifier, Scan, owned_by,
  cancel_requested, run_in_scope, finish_task, failure_of, cancelled_failure,
}
use github_osint_secret_scan.Jobs.Worker.Execute.{
  Reply, cancelled_reply, execution_error, fail_task, run_task, record_cancelled,
}

module _ (classify : Classifier) (settings : Settings) (task_id : ℕ) (worker_id : String)
    (now : Time) (schedule_id : ℕ) where
  abbrev pub lost : Reply
  lost = execution_error "Queue task no longer owned by this worker"

  fail_task-lost :
      (e : Raised) (d : Database) (t : QueueTask)
      → get task_id d.tasks ≡ some t
      → owned_by worker_id t ≡ false
      → fail_task classify settings task_id worker_id now schedule_id e d ≡ (d, lost)
  unfolding fail_task
  fail_task-lost e d t at_i free = ground (arith, at_i, free)

  finish_task-lost :
      (loaded : ScheduledScan) (results : List ScanExecutionResult) (d : Database) (t : QueueTask)
      → get task_id d.tasks ≡ some t
      → owned_by worker_id t ≡ false
      → finish_task task_id schedule_id worker_id loaded now results d ≡ raised own_error
  unfolding finish_task
  finish_task-lost loaded [] d t at_i free = refl
  finish_task-lost loaded (r ∷ rs) d t at_i free =
      elim (Option-cases (get schedule_id d.schedules)) [
        | inl e ↦ ground (arith, e)
        | inr (s, e) ↦ ground (arith, e, at_i, free)
      ]

  -- A worker whose task is no longer running under its lease when the scan ends (the lease was
  -- recovered, or the task was taken, failed or cancelled meanwhile) writes nothing: the database
  -- stays as the scan and the other processes left it, and the reply is the error of a lost task.
  pub run_task-lost :
      (scan : Scan) (loaded : ScheduledScan) (d d' : Database)
      (outcome : Outcome (List ScanExecutionResult)) (t : QueueTask)
      → run_in_scope scan task_id schedule_id d ≡ (d', outcome)
      → get task_id d'.tasks ≡ some t
      → owned_by worker_id t ≡ false
      → run_task classify settings task_id worker_id now scan schedule_id loaded d ≡ (d', lost)
  unfolding run_task
  run_task-lost scan loaded d d' (ok results) t ran at_i free =
      rw (ran, run_task)
        (rw (ap (λ x. x.0) ran) (
          rw (finish_task-lost loaded results d' t at_i free)
            (fail_task-lost own_error d' t at_i free)))
  run_task-lost scan loaded d d' (raised e) t ran at_i free =
      rw (ran, run_task) (rw (ap (λ x. x.0) ran) (fail_task-lost e d' t at_i free))

  run_in_scope-cancelled :
      (scan : Scan) (d d' : Database) (results : List ScanExecutionResult)
      → cancel_requested task_id d ≡ false
      → scan schedule_id d ≡ (d', ok results)
      → cancel_requested task_id d' ≡ true
      → run_in_scope scan task_id schedule_id d ≡ (d', raised cancellation_requested)
  unfolding run_in_scope
  run_in_scope-cancelled scan d d' results clear ran asked =
      rw (clear, run_in_scope) (rw (ran, run_in_scope) (rw (ap (λ x. x.0) ran) (rw asked refl)))

  fail_task-cancelled :
      (d : Database) (t : QueueTask) (s : ScheduledScan)
      → get task_id d.tasks ≡ some t
      → owned_by worker_id t ≡ true
      → get schedule_id d.schedules ≡ some s
      → fail_task classify settings task_id worker_id now schedule_id cancellation_requested d ≡ (
        record_cancelled classify settings task_id worker_id now schedule_id cancelled_failure
            s.metadata_json d,
        cancelled_reply,
      )
  unfolding fail_task failure_of
  fail_task-cancelled d t s at_i owned row = rw (at_i, fail_task) (rw owned (rw row refl))

  abbrev pub ended : QueueTask → QueueTask
  ended t = record t {
    status = cancelled;
    completed_at = some now;
    lease_owner = none;
    lease_expires_at = none;
    last_error = some "Operation cancelled by operator";
  }

  task-record_cancelled :
      (metadata : Metadata) (d : Database) (t : QueueTask)
      → get task_id d.tasks ≡ some t
      → get task_id
          (record_cancelled classify settings task_id worker_id now schedule_id cancelled_failure
            metadata d).tasks
        ≡ some (ended t)
  unfolding record_cancelled mark_queue_task_cancelled write_task write_schedule
  task-record_cancelled metadata d t at_i =
      get-update_where_self task_id (λ _. true) ended (released task_id d).tasks
      ∙ ap (λ ts. updated (λ _. true) ended (get task_id ts)) (tasks-released task_id d)
      ∙ ap (λ o. updated (λ _. true) ended o) at_i

  -- A cancellation that is requested while the scan runs wins over its results: if the worker
  -- still owns the task when the scan returns them, the handler commits no result, marks the task
  -- as cancelled without a lease, and replies that it was cancelled.
  pub run_task-cancelled :
      (scan : Scan) (loaded : ScheduledScan) (d d' : Database) (results : List ScanExecutionResult)
      (t : QueueTask) (s : ScheduledScan)
      → cancel_requested task_id d ≡ false
      → scan schedule_id d ≡ (d', ok results)
      → get task_id d'.tasks ≡ some t
      → get schedule_id d'.schedules ≡ some s
      → owned_by worker_id t ≡ true
      → is_truthy (lookup "cancel_requested_at" t.metadata_json) ≡ true
      → (get task_id
            (run_task classify settings task_id worker_id now scan schedule_id loaded d).0.tasks
          ≡ some (ended t))
        × ((run_task classify settings task_id worker_id now scan schedule_id loaded d).1
            ≡ cancelled_reply)
  unfolding run_task cancel_requested
  run_task-cancelled scan loaded d d' results t s clear ran at_i row owned asked =
      let stopped =
        run_in_scope-cancelled scan d d' results clear ran (ground (arith, at_i, asked)) in
      let after : run_task classify settings task_id worker_id now scan schedule_id loaded d ≡ (
        record_cancelled classify settings task_id worker_id now schedule_id cancelled_failure
            s.metadata_json d',
        cancelled_reply,
      ) =
        rw (stopped, run_task)
          (rw (ap (λ x. x.0) stopped) (fail_task-cancelled d' t s at_i owned row)) in
      rw after (task-record_cancelled s.metadata_json d' t at_i, refl)
