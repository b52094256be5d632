-- ===== src/Examples/Worker.antt =====
-- A worker that runs the task of the queue: it loses it, is told to stop, fails, and completes it.
use github_osint_secret_scan.Prelude.{
  ◌≤◌, String, ◌≡◌, refl, ◌⊎◌, true, none, some, [], ◌∷◌, keep, max,
}
use github_osint_secret_scan.Prelude.Dict.{lookup, insert, update}
use github_osint_secret_scan.Prelude.Sort.{sort_by, insert_by}
use github_osint_secret_scan.Prelude.Table.{Table, get, set_row, update_where}
use github_osint_secret_scan.Jobs.Policy.{
  Failure, Exception, transient, FloatRead, bad, classify_failure, classify_loop, own_failure,
  timeout_error, other_error, retry_delay,
}
use github_osint_secret_scan.Jobs.Policy.Bounds.{retry_delay_bounds}
use github_osint_secret_scan.Jobs.Policy.Classify.{
  classify_failure_total, classify_failure-IsPolicy, IsCarried, IsPolicy,
}
use github_osint_secret_scan.Jobs.Model.{
  stamp, QueueTask, ScheduledScan, Database, ScanExecutionResult, failed, db,
}
use github_osint_secret_scan.Jobs.Storage.{
  claim_queue_task, claim_candidates, claim_one, claimable, claimed_row, is_candidate, earlier,
  write_task, write_schedule,
}
use github_osint_secret_scan.Jobs.Worker.{
  Scan, scan_error, ok, failure_of, cancel_requested, run_in_scope, owned_by, finish_task,
  commit_result,
}
use github_osint_secret_scan.Jobs.Worker.Execute.{
  returned, cancelled_reply, execution_error, run_task, fail_task, execute_db_queue_task,
}
use github_osint_secret_scan.Jobs.Worker.Loop.{
  start_task, process_claimed, process_one_db_task, batch_loop, run_db_schedule_batch,
}
use github_osint_secret_scan.Jobs.Worker.Ownership.{run_task-lost, run_task-cancelled, ended}
use github_osint_secret_scan.Jobs.Worker.Outcomes.{fail_task-outcome, retried, enabled_of}
use github_osint_secret_scan.Jobs.Worker.Success.{run_task-completed, done_row, sent}
use github_osint_secret_scan.Jobs.Worker.Batch.{run_db_schedule_batch-IsSound}
use github_osint_secret_scan.Jobs.Invariant.{IsSound}
use github_osint_secret_scan.Jobs.Invariant.System.{reachable-IsSound}
use github_osint_secret_scan.Examples.Queue.{
  settings, classify, schedule, queued_task, running_task, claimed_db, reachable_claimed,
}

abbrev result : ScanExecutionResult
result = record {
  scan_job_id = 11;
  scanner = "custom-patterns";
  target = "/srv/repository";
  findings = 2;
  finding_ids = 21 ∷ 22 ∷ [];
  tool_run_id = some 31;
  status = "completed";
  skip_reason = none;
}

abbrev held_schedule : ScheduledScan
held_schedule = record schedule { queue_execution_key = some "k" }

abbrev with_task : QueueTask → Database
with_task t = record { tasks = (1, t) ∷ []; schedules = (7, held_schedule) ∷ [] }

abbrev failed_task : QueueTask
failed_task = record running_task { status = failed; lease_owner = none }

-- While the scan runs, the task is quarantined.
abbrev scan_lost : Scan
scan_lost i d = (with_task failed_task, ok (result ∷ []))

run_task-lost_example :
    run_task classify settings 1 "w" 70000000 scan_lost 7 held_schedule (with_task running_task)
    ≡ (with_task failed_task, execution_error "Queue task no longer owned by this worker")
unfolding run_in_scope cancel_requested get lookup owned_by
run_task-lost_example =
    run_task-lost classify settings 1 "w" 70000000 7 scan_lost held_schedule
      (with_task running_task) (with_task failed_task) (ok (result ∷ [])) failed_task refl refl refl

abbrev asked_task : QueueTask
asked_task = record running_task { metadata_json = ("cancel_requested_at", stamp 65000000) ∷ [] }

-- While the scan runs, the operator asks for its end.
abbrev scan_asked : Scan
scan_asked i d = (with_task asked_task, ok (result ∷ []))

run_task-cancelled_example :
    (get 1
        (run_task classify settings 1 "w" 70000000 scan_asked 7 held_schedule
          (with_task running_task)).0.tasks
      ≡ some (ended classify settings 1 "w" 70000000 7 asked_task))
    × ((run_task classify settings 1 "w" 70000000 scan_asked 7 held_schedule
          (with_task running_task)).1
        ≡ cancelled_reply)
unfolding cancel_requested get lookup owned_by
run_task-cancelled_example =
    run_task-cancelled classify settings 1 "w" 70000000 7 scan_asked held_schedule
      (with_task running_task) (with_task asked_task) (result ∷ []) asked_task held_schedule refl
      refl refl refl refl refl

fail_task-outcome_example :
    (get 1
        (fail_task classify settings 1 "w" 70000000 7
          (scan_error [] 0)
          (with_task running_task)).0.tasks
      ≡ some (retried classify settings 1 "w" 70000000 7 transient running_task))
    × (enabled_of (
          get 7
            (fail_task classify settings 1 "w" 70000000 7
              (scan_error [] 0)
              (with_task running_task)).0.schedules)
        ≡ some true)
    × ((fail_task classify settings 1 "w" 70000000 7 (scan_error [] 0) (with_task running_task)).1
        ≡ execution_error "Temporary network or upstream failure")
unfolding get owned_by failure_of
fail_task-outcome_example =
    fail_task-outcome classify settings 1 "w" 70000000 7 (scan_error [] 0) (with_task running_task)
      running_task held_schedule refl refl refl refl

abbrev scan_done : Scan
scan_done i d = (d, ok (result ∷ []))

run_task-completed_example :
    (get 1
        (run_task classify settings 1 "w" 70000000 scan_done 7 held_schedule
          (with_task running_task)).0.tasks
      ≡ some (
          done_row classify settings 1 "w" 70000000 7
            (sent classify settings 1 "w" 70000000 7 result [])
            result
            running_task))
    × ((run_task classify settings 1 "w" 70000000 scan_done 7 held_schedule
          (with_task running_task)).1
        ≡ returned (sent classify settings 1 "w" 70000000 7 result []))
unfolding run_in_scope cancel_requested get lookup owned_by
run_task-completed_example =
    run_task-completed classify settings 1 "w" 70000000 7 scan_done held_schedule
      (with_task running_task) (with_task running_task) result [] running_task held_schedule refl
      refl refl refl refl

run_db_schedule_batch-IsSound_example :
    IsSound
      (run_db_schedule_batch classify settings scan_done "w" db
        (λ n. 80000000)
        true
        (7 ∷ [])
        5
        claimed_db).0
run_db_schedule_batch-IsSound_example =
    run_db_schedule_batch-IsSound classify settings scan_done "w" (λ i d s. s) db (λ n. 80000000)
      true (7 ∷ []) 5 claimed_db (reachable-IsSound classify settings reachable_claimed)

one_processed :
    (run_db_schedule_batch classify settings scan_done "w" db
      (λ n. 80000000)
      true
      (7 ∷ [])
      5
      (with_task queued_task)).1
    ≡ some 1
unfolding run_db_schedule_batch batch_loop process_one_db_task process_claimed start_task
    execute_db_queue_task run_task run_in_scope cancel_requested get lookup owned_by finish_task
    commit_result claim_queue_task claim_candidates claim_one claimable claimed_row is_candidate
    earlier keep sort_by insert_by update_where set_row write_task write_schedule insert update
one_processed = refl

-- Two exceptions, the second one the cause of the first.
abbrev heap : Table Exception
heap =
    (0, record { kind = other_error; cause = some 1 })
    ∷ (1, record { kind = timeout_error; cause = none })
    ∷ []

abbrev read_nothing : String → FloatRead
read_nothing s = bad

classify_failure_total_example :
    (f : Failure) × (classify_failure read_nothing (λ s. none) read_nothing heap 0 ≡ some f)
classify_failure_total_example = classify_failure_total read_nothing (λ s. none) read_nothing heap 0

classify_failure-IsPolicy_example : IsCarried heap (some 0) transient ⊎ IsPolicy transient
unfolding classify_failure classify_loop get own_failure
classify_failure-IsPolicy_example =
    classify_failure-IsPolicy read_nothing (λ s. none) read_nothing heap 0 transient refl

retry_delay_bounds_example :
    (1 ≤ retry_delay settings 2 transient)
    × (0 ≤ retry_delay settings 2 transient)
    × (retry_delay settings 2 transient ≤ max 3600 0)
retry_delay_bounds_example = retry_delay_bounds settings 2 transient
