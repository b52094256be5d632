-- ===== src/Jobs/Invariant/Operations.antt =====
-- Every transaction of repositories.py, of the recovery and of a cancellation keeps the invariant.
use github_osint_secret_scan.Prelude.{
  ℕ, ◌<◌, String, ◌≡◌, ◌≢◌, refl, sym, ap, ◌∙◌, inl, inr, arith, Bool, true, Option, some, ◌&&◌,
  List, [], ◌∷◌, Bool-cases,
}
use github_osint_secret_scan.Prelude.Table.{get}
use github_osint_secret_scan.Jobs.Model.{Time, Backend, QueueTask, Database}
use github_osint_secret_scan.Jobs.Storage.{
  write_task, claimable, claimed_row, claim_one, claim_candidates, claim_queue_task,
  mark_queue_task_completed, mark_queue_task_retry, mark_queue_task_failed,
  mark_queue_task_cancelled, mark_scheduled_scan_run, reserve_queue_execution,
}
use github_osint_secret_scan.Jobs.Storage.Reservation.{is_active}
use github_osint_secret_scan.Jobs.Storage.Operations.{claimable_active}
use github_osint_secret_scan.Jobs.Storage.Reserve.{reserve-IsReserved, reserve-IsKeyed, row_cases}
use github_osint_secret_scan.Jobs.Recovery.{quarantine, is_stale, recover_rows, recover_stale_tasks}
use github_osint_secret_scan.Jobs.Invariant.{
  IsBudgeted, IsSound, idle-IsBudgeted, update_task-IsSound, finish-IsSound, write_schedule-IsSound,
}

claimed_row-IsBudgeted :
    (worker_id : String) (lease_until current : Time) (t : QueueTask)
    → claimable current t ≡ true
    → IsBudgeted t
    → IsBudgeted (claimed_row worker_id lease_until current t)
unfolding claimable claimed_row
claimed_row-IsBudgeted worker_id lease_until current t c b = ground (arith, b.before)

claim_one-IsSound :
    (worker_id : String) (lease_until current : Time) (i : ℕ) {d : Database}
    → IsSound d
    → IsSound (claim_one worker_id lease_until current i d).0
unfolding claim_one
claim_one-IsSound worker_id lease_until current i s =
    update_task-IsSound s i (claimable current) (claimed_row worker_id lease_until current)
      (λ t. unfold claimed_row in refl) (λ t. unfold claimed_row in refl)
      (λ t _ c _. claimable_active current t c)
      (λ t _ c b. claimed_row-IsBudgeted worker_id lease_until current t c b)

pub claim_candidates-IsSound :
    (worker_id : String) (lease_until current : Time) (rows : List (ℕ × QueueTask)) (d : Database)
    → IsSound d
    → IsSound (claim_candidates worker_id lease_until current rows d).1
unfolding claim_candidates
claim_candidates-IsSound w l c [] d s = s
claim_candidates-IsSound w l c ((i, t) ∷ rest) d s =
    let kept = claim_one-IsSound w l c i s in
    elim (Bool-cases ((claim_one w l c i d).1)) [
      | inl e ↦ rw (e, claim_candidates) kept
      | inr e ↦ rw (e, claim_candidates) (claim_candidates-IsSound w l c rest _ kept)
    ]

pub claim_queue_task-IsSound :
    (backend : Backend) (queue_name worker_id : String) (lease_until current : Time)
    (schedule_ids : Option (List ℕ)) {d : Database}
    → IsSound d
    → IsSound (claim_queue_task backend queue_name worker_id lease_until current schedule_ids d).1
unfolding claim_queue_task
claim_queue_task-IsSound backend queue_name w l c schedule_ids {d = d} s =
    claim_candidates-IsSound w l c _ d s

-- A write of the metadata or of another attribute that the invariant does not read.
pub note_task-IsSound :
    (i : ℕ) (f : QueueTask → QueueTask) {d : Database}
    → ((t : QueueTask) → (f t).execution_key ≡ t.execution_key)
    → ((t : QueueTask) → (f t).scheduled_scan_id ≡ t.scheduled_scan_id)
    → ((t : QueueTask) → (f t).status ≡ t.status)
    → ((t : QueueTask) → IsBudgeted t → IsBudgeted (f t))
    → IsSound d
    → IsSound (write_task i f d)
unfolding write_task
note_task-IsSound i f key schedule status budget s =
    update_task-IsSound s i (λ _. true) f key schedule
      (λ t _ _ a. sym (ap is_active (status t)) ∙ a) (λ t _ _ b. budget t b)

pub mark_queue_task_failed-IsSound :
    (i : ℕ) (error_message : String) (now : Time) {d : Database}
    → IsSound d
    → IsSound (mark_queue_task_failed i error_message now d)
unfolding mark_queue_task_failed write_task
mark_queue_task_failed-IsSound i error_message now s =
    update_task-IsSound s i _ _ (λ t. refl) (λ t. refl) (λ t _ _ a. cc)
      (λ t _ _ b. idle-IsBudgeted _ refl)

pub mark_queue_task_completed-IsSound :
    (i : ℕ) (scan_job_id tool_run_id : Option ℕ) (now : Time) {d : Database}
    → IsSound d
    → IsSound (mark_queue_task_completed i scan_job_id tool_run_id now d)
unfolding mark_queue_task_completed
mark_queue_task_completed-IsSound i scan_job_id tool_run_id now s =
    finish-IsSound s i _ (λ t. refl) (λ t. refl)

pub mark_queue_task_cancelled-IsSound :
    (i : ℕ) (now : Time) {d : Database} → IsSound d → IsSound (mark_queue_task_cancelled i now d)
unfolding mark_queue_task_cancelled
mark_queue_task_cancelled-IsSound i now s = finish-IsSound s i _ (λ t. refl) (λ t. refl)

-- A task that may be retried: active, with an attempt left.
pub mark_queue_task_retry-IsSound :
    (i : ℕ) (available_at : Time) (error_message : String) {d : Database}
    → IsSound d
    → ((t : QueueTask)
        → get i d.tasks ≡ some t
        → (is_active t.status ≡ true) × (t.attempt_count < t.max_attempts))
    → IsSound (mark_queue_task_retry i available_at error_message d)
unfolding mark_queue_task_retry write_task
mark_queue_task_retry-IsSound i available_at error_message s left =
    update_task-IsSound s i _ _ (λ t. refl) (λ t. refl) (λ t at_i _ _. (left t at_i).0)
      (λ t at_i _ b. record { before = λ _ _. (left t at_i).1; within = λ _ h. cc })

pub mark_scheduled_scan_run-IsSound :
    (i : ℕ) (next_run_at : Time) (enabled : Option Bool) (now : Time) {d : Database}
    → IsSound d
    → IsSound (mark_scheduled_scan_run i next_run_at enabled now d)
unfolding mark_scheduled_scan_run
mark_scheduled_scan_run-IsSound i next_run_at enabled now s =
    write_schedule-IsSound s i _ (λ r. refl)

-- A reservation under a key that no task carries.
pub reserve_queue_execution-IsSound :
    (key : String) (scheduled_id : ℕ) (next_run_at : Time) (backend : Backend) (queue_name : String)
    (max_attempts : ℕ) (now : Time) {d : Database} (task_id : ℕ) (d' : Database)
    → 0 < max_attempts
    → ((i : ℕ) (t : QueueTask) → get i d.tasks ≡ some t → t.execution_key ≢ some key)
    → IsSound d
    → reserve_queue_execution key scheduled_id next_run_at backend queue_name max_attempts now d
      ≡ some (task_id, d')
    → IsSound d'
reserve_queue_execution-IsSound key scheduled_id next_run_at backend queue_name max_attempts now
      {d = d} task_id d' positive fresh s done =
    record {
      keyed =
          reserve-IsKeyed key scheduled_id next_run_at backend queue_name max_attempts now d done
            s.keyed;
      reserved =
          reserve-IsReserved key scheduled_id next_run_at backend queue_name max_attempts now d
            s.reserved fresh done;
      budgeted = λ j t h.
          elim (row_cases key scheduled_id next_run_at backend queue_name max_attempts now d
            s.reserved fresh done j t h) [
              | inl (_, new) ↦ rw new (record { before = λ _ _. positive; within = λ _ r. cc })
              | inr old ↦ s.budgeted j t old
            ];
    }

pub quarantine-IsSound :
    (now : Time) (i schedule_id : ℕ) {d : Database}
    → IsSound d
    → IsSound (quarantine now i schedule_id d)
unfolding quarantine
quarantine-IsSound now i schedule_id s =
    write_schedule-IsSound
      (note_task-IsSound i _ (λ t. refl) (λ t. refl) (λ t. refl)
        (λ t b. record { before = b.before; within = b.within })
        (mark_queue_task_failed-IsSound i _ now s))
      schedule_id _ (λ r. refl)

recover_rows-IsSound :
    (apply : Bool) (now : Time) (rows : List (ℕ × QueueTask)) (d : Database)
    → IsSound d
    → IsSound (recover_rows apply now rows d).0
unfolding recover_rows
recover_rows-IsSound apply now [] d s = s
recover_rows-IsSound apply now ((i, t) ∷ rest) d s = elim (Bool-cases (is_stale now t && apply)) [
  | inl e ↦
      rw e (recover_rows-IsSound apply now rest _ (quarantine-IsSound now i t.scheduled_scan_id s))
  | inr e ↦ rw e (recover_rows-IsSound apply now rest d s)
]

pub recover_stale_tasks-IsSound :
    (apply : Bool) (queue_name : String) (now : Time) {d : Database}
    → IsSound d
    → IsSound (recover_stale_tasks apply queue_name now d).0
unfolding recover_stale_tasks
recover_stale_tasks-IsSound apply queue_name now {d = d} s = recover_rows-IsSound apply now _ d s
