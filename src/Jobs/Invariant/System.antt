-- ===== src/Jobs/Invariant/System.antt =====
-- The processes on one database, interleaved: reservations, workers whose reads may be out of
-- date, an operator's recovery and cancellations. Each step is one transaction.
use github_osint_secret_scan.Prelude.{
  ℕ, ◌+◌, ◌≤◌, ◌<◌, String, ◌≡◌, ◌≢◌, refl, arith, Bool, true, some, List, [], if◌then◌else◌, inl,
  inr, Option-cases,
}
use github_osint_secret_scan.Prelude.Table.{Table, get}
use github_osint_secret_scan.Jobs.Policy.{Settings, retry_limit}
use github_osint_secret_scan.Jobs.Model.{
  Time, Metadata, ScanExecutionResult, Payload, QueueTaskStatus, queued, running, completed, failed,
  cancelled, is_queued, is_running, Backend, same_backend, db, QueueTask, ScheduledScan, Database,
}
use github_osint_secret_scan.Jobs.Storage.{
  write_schedule, mark_queue_task_failed, claim_candidates, reserve_queue_execution,
}
use github_osint_secret_scan.Jobs.Storage.Reservation.{is_active, one_active}
use github_osint_secret_scan.Jobs.Enqueue.{note_queued, reserve_one}
use github_osint_secret_scan.Jobs.Worker.{Raised, ok, Classifier, Scan, finish_task}
use github_osint_secret_scan.Jobs.Worker.Execute.{fail_task}
use github_osint_secret_scan.Jobs.Worker.Loop.{start_task}
use github_osint_secret_scan.Jobs.Recovery.{recover_stale_tasks}
use github_osint_secret_scan.Jobs.Cancel.{cancel_run}
use github_osint_secret_scan.Jobs.Invariant.{IsSound, write_schedule-IsSound}
use github_osint_secret_scan.Jobs.Invariant.Operations.{
  claim_candidates-IsSound, mark_queue_task_failed-IsSound, reserve_queue_execution-IsSound,
  recover_stale_tasks-IsSound,
}
use github_osint_secret_scan.Jobs.Invariant.Worker.{finish_task-IsSound, fail_task-IsSound}
use github_osint_secret_scan.Jobs.Invariant.Cancel.{cancel_run-IsSound}

module _ (classify : Classifier) (settings : Settings) where
  -- A worker claims from any rows that it read; `edit` is a write of a schedule by another part
  -- of the program, none of which writes the reservation.
  pub data Step : Database → Database → Type 0 where
    reserve :
        (key : String) (row : ℕ × ScheduledScan) (backend : Backend) (now : Time) (task_id : ℕ)
        {d d' : Database}
        → ((i : ℕ) (t : QueueTask) → get i d.tasks ≡ some t → t.execution_key ≢ some key)
        → reserve_one settings backend now key row d ≡ some (task_id, d')
        → Step d d'
    claim :
        (worker_id : String) (lease_until current : Time) (rows : List (ℕ × QueueTask))
        {d : Database}
        → Step d (claim_candidates worker_id lease_until current rows d).1
    start :
        (scan : Scan) (worker_id : String) (task_id schedule_id : ℕ) (metadata : Metadata)
        (now : Time) {d : Database}
        → Step d (start_task classify settings scan worker_id task_id schedule_id metadata now d)
    missing_schedule :
        (task_id : ℕ) (now : Time) {d : Database}
        → Step d (mark_queue_task_failed task_id "Scheduled scan does not exist" now d)
    commit :
        (task_id schedule_id : ℕ) (worker_id : String) (loaded : ScheduledScan) (now : Time)
        (results : List ScanExecutionResult) (result : Payload) {d d' : Database}
        → finish_task task_id schedule_id worker_id loaded now results d ≡ ok (d', result)
        → Step d d'
    fail :
        (task_id schedule_id : ℕ) (worker_id : String) (now : Time) (e : Raised) {d : Database}
        → Step d (fail_task classify settings task_id worker_id now schedule_id e d).0
    recover :
        (apply : Bool) (queue_name : String) (now : Time) {d : Database}
        → Step d (recover_stale_tasks apply queue_name now d).0
    cancel : (now : Time) (schedule_id : ℕ) {d : Database} → Step d (cancel_run now schedule_id d).0
    edit :
        (i : ℕ) (f : ScheduledScan → ScheduledScan) {d : Database}
        → ((s : ScheduledScan) → (f s).queue_execution_key ≡ s.queue_execution_key)
        → Step d (write_schedule i f d)

  -- The databases that any interleaving reaches from one without tasks.
  pub data Reachable : Database → Type 0 where
    initial :
        (schedules : Table ScheduledScan) → Reachable (record { tasks = []; schedules = schedules })
    next : {d d' : Database} → Reachable d → Step d d' → Reachable d'

  reserve_one-IsSound :
      (key : String) (row : ℕ × ScheduledScan) (backend : Backend) (now : Time) (task_id : ℕ)
      (d d' : Database)
      → ((i : ℕ) (t : QueueTask) → get i d.tasks ≡ some t → t.execution_key ≢ some key)
      → IsSound d
      → reserve_one settings backend now key row d ≡ some (task_id, d')
      → IsSound d'
  unfolding reserve_one note_queued
  reserve_one-IsSound key (i, row) backend now task_id d d' fresh s h =
      elim (Option-cases (
        reserve_queue_execution key i row.next_run_at backend settings.scan_queue_name
          (retry_limit settings + 1) now d)) [
            | inl e ↦ ground (arith, h, e)
            | inr ((made, after), e) ↦
                let kept =
                  reserve_queue_execution-IsSound key i row.next_run_at backend
                    settings.scan_queue_name (retry_limit settings + 1) now made after (omega arith)
                    fresh s e in
                let last : note_queued settings backend now i made key after ≡ d' =
                  ground (arith, h, e) in
                rw (← last) (write_schedule-IsSound kept i _ (λ r. refl))
          ]

  step-IsSound : {d d' : Database} → Step d d' → IsSound d → IsSound d'
  unfolding start_task
  step-IsSound (reserve key row backend now task_id {d = d} {d' = d'} fresh h) s =
      reserve_one-IsSound key row backend now task_id d d' fresh s h
  step-IsSound (claim w l c rows {d = d}) s = claim_candidates-IsSound w l c rows d s
  step-IsSound (start scan w i j metadata now) s = write_schedule-IsSound s j _ (λ r. refl)
  step-IsSound (missing_schedule i now) s = mark_queue_task_failed-IsSound i _ now s
  step-IsSound (commit i j w loaded now results result {d = d} {d' = d'} h) s =
      finish_task-IsSound i j w loaded now results d d' result s h
  step-IsSound (fail i j w now e {d = d}) s = fail_task-IsSound classify settings i w now j e d s
  step-IsSound (recover apply queue_name now) s = recover_stale_tasks-IsSound apply queue_name now s
  step-IsSound (cancel now i) s = cancel_run-IsSound now i s
  step-IsSound (edit i f keeps) s = write_schedule-IsSound s i f keeps

  initial-IsSound :
      (schedules : Table ScheduledScan) → IsSound (record { tasks = []; schedules = schedules })
  unfolding get
  initial-IsSound schedules = record {
    keyed = tt;
    reserved = record { linked = λ i t h _. cc; unique = λ i j t u k h _ _ _. cc };
    budgeted = λ i t h. cc;
  }

  pub reachable-IsSound : {d : Database} → Reachable d → IsSound d
  reachable-IsSound (initial schedules) = initial-IsSound schedules
  reachable-IsSound (next r step) = step-IsSound step (reachable-IsSound r)

  -- However the processes interleave, a schedule never has two active tasks: two queued or running
  -- tasks of one schedule are the same row.
  pub reachable-one_active :
      {d : Database}
      → Reachable d
      → (i j : ℕ) (t u : QueueTask) → get i d.tasks ≡ some t
      → get j d.tasks ≡ some u
      → is_active t.status ≡ true
      → is_active u.status ≡ true
      → t.scheduled_scan_id ≡ u.scheduled_scan_id
      → i ≡ j
  reachable-one_active r = one_active (reachable-IsSound r).reserved

  attempts_lem :
      (st : QueueTaskStatus) {a m : ℕ}
      → (is_running st ≡ true → a ≤ m)
      → (is_queued st ≡ true → a < m)
      → is_active st ≡ true
      → (if is_running st then a else a + 1) ≤ m
  attempts_lem queued w b h = omega (arith, b refl)
  attempts_lem running w b h = w refl
  attempts_lem completed w b h = cc
  attempts_lem failed w b h = cc
  attempts_lem cancelled w b h = cc

  -- However the processes interleave, a running task of the database backend has been started at
  -- most `max_attempts` times, and a queued one fewer times.
  pub reachable-attempts :
      {d : Database}
      → Reachable d
      → (i : ℕ) (t : QueueTask) → get i d.tasks ≡ some t
      → same_backend t.backend db ≡ true
      → is_active t.status ≡ true
      → (if is_running t.status then t.attempt_count else t.attempt_count + 1) ≤ t.max_attempts
  reachable-attempts r i t at_i backend active =
      let b = (reachable-IsSound r).budgeted i t at_i in
      attempts_lem t.status (b.within backend) (b.before backend) active
