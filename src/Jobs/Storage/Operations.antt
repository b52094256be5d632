-- ===== src/Jobs/Storage/Operations.antt =====
-- Every queue operation of repositories.py keeps the reservation invariant.
use github_osint_secret_scan.Prelude.{
  ℕ, String, ◌≡◌, refl, ◌∙◌, inl, inr, arith, true, Option, some, List, [], ◌∷◌, Bool-cases,
  Option-cases,
}
use github_osint_secret_scan.Prelude.Table.{get, get-update_where}
use github_osint_secret_scan.Jobs.Model.{
  Time, QueueTaskStatus, queued, is_queued, Backend, QueueTask, ScheduledScan, Database,
}
use github_osint_secret_scan.Jobs.Storage.{
  write_task, write_schedule, claimable, claimed_row, claim_one, claim_candidates, claim_queue_task,
  mark_queue_task_retry, mark_queue_task_failed,
}
use github_osint_secret_scan.Jobs.Storage.Reservation.{
  is_active, key_of, IsReserved, update_task-IsReserved,
}

queued_active : (s : QueueTaskStatus) → is_queued s ≡ true → is_active s ≡ true
queued_active queued h = refl
queued_active _ h = cc

pub claimable_active :
    (current : Time) (t : QueueTask) → claimable current t ≡ true → is_active t.status ≡ true
unfolding claimable
claimable_active current t h = ground (arith, queued_active t.status)

module _ {db : Database} (r : IsReserved db) (worker_id : String) (lease_until current : Time) where
  claim_one-IsReserved : (i : ℕ) → IsReserved (claim_one worker_id lease_until current i db).0
  unfolding claim_one claimed_row
  claim_one-IsReserved i =
      update_task-IsReserved r i (claimable current) (claimed_row worker_id lease_until current)
        (λ t. refl) (λ t. refl) (λ t _ c _. claimable_active current t c)

pub claim_candidates-IsReserved :
    (worker_id : String) (lease_until current : Time) (rows : List (ℕ × QueueTask)) (db : Database)
    → IsReserved db
    → IsReserved (claim_candidates worker_id lease_until current rows db).1
unfolding claim_candidates
claim_candidates-IsReserved worker_id lease_until current [] db r = r
claim_candidates-IsReserved worker_id lease_until current ((i, t) ∷ rest) db r =
    let kept = claim_one-IsReserved r worker_id lease_until current i in
    elim (Bool-cases ((claim_one worker_id lease_until current i db).1)) [
      | inl e ↦ rw (e, claim_candidates) kept
      | inr e ↦
          rw (e, claim_candidates)
            (claim_candidates-IsReserved worker_id lease_until current rest _ kept)
    ]

-- A task that is retried was active.
pub mark_queue_task_retry-IsReserved :
    {db : Database} (i : ℕ) (available_at : Time) (error_message : String)
    → IsReserved db
    → ((t : QueueTask) → get i db.tasks ≡ some t → is_active t.status ≡ true)
    → IsReserved (mark_queue_task_retry i available_at error_message db)
unfolding mark_queue_task_retry write_task
mark_queue_task_retry-IsReserved i available_at error_message r active =
    update_task-IsReserved r i _ _ (λ t. refl) (λ t. refl) (λ t at_i _ _. active t at_i)

pub mark_queue_task_failed-IsReserved :
    {db : Database} (i : ℕ) (error_message : String) (now : Time)
    → IsReserved db
    → IsReserved (mark_queue_task_failed i error_message now db)
unfolding mark_queue_task_failed write_task
mark_queue_task_failed-IsReserved i error_message now r =
    update_task-IsReserved r i _ _ (λ t. refl) (λ t. refl) (λ t _ _ a. cc)

pub claim_queue_task-IsReserved :
    {db : Database} (backend : Backend) (queue_name worker_id : String) (lease_until current : Time)
    (schedule_ids : Option (List ℕ))
    → IsReserved db
    → IsReserved
        (claim_queue_task backend queue_name worker_id lease_until current schedule_ids db).1
unfolding claim_queue_task
claim_queue_task-IsReserved {db} backend queue_name worker_id lease_until current schedule_ids r =
    claim_candidates-IsReserved worker_id lease_until current _ db r

-- A write of a schedule that leaves its reservation alone.
module _ {db : Database} (r : IsReserved db) (i : ℕ) (f : ScheduledScan → ScheduledScan)
    (keeps : (s : ScheduledScan) → (f s).queue_execution_key ≡ s.queue_execution_key) where
  key_of-write_schedule :
      (j : ℕ) → key_of (get j (write_schedule i f db).schedules) ≡ key_of (get j db.schedules)
  unfolding write_schedule
  key_of-write_schedule j = elim (Option-cases (get j db.schedules)) [
    | inl e ↦ ground (arith, e, get-update_where i j (λ _. true) f db.schedules)
    | inr (s, e) ↦ ground (arith, e, get-update_where i j (λ _. true) f db.schedules, keeps s)
  ]

  pub write_schedule-IsReserved : IsReserved (write_schedule i f db)
  unfolding write_schedule
  write_schedule-IsReserved = record {
    linked = λ j t at_j a.
        let (k, t_key, link) = r.linked j t at_j a in
        (k, t_key, key_of-write_schedule t.scheduled_scan_id ∙ link);
    unique = r.unique;
  }
