-- ===== src/Examples/Queue.antt =====
-- A queue with one schedule: it is reserved, claimed, and its lease runs out.
use github_osint_secret_scan.Prelude.{
  ℕ, ◌≤◌, ◌≡◌, ◌≢◌, refl, ◌⊎◌, true, false, Option, none, some, List, [], ◌∷◌, keep, arith,
}
use mathlib.Core.List.{Memᴰ}
use github_osint_secret_scan.Prelude.Int.{pos}
use github_osint_secret_scan.Prelude.Sort.{sort_by, insert_by}
use github_osint_secret_scan.Prelude.Table.{get, fresh_id, count, add_row, set_row, update_where}
use github_osint_secret_scan.Jobs.Policy.{Settings, retry_limit, transient}
use github_osint_secret_scan.Jobs.Model.{QueueTask, ScheduledScan, Database, queued, running, db}
use github_osint_secret_scan.Jobs.Storage.{
  write_task, write_schedule, create_queue_task, reservable, reserve_queue_execution, is_candidate,
  earlier, claimable, claimed_row, claim_one, claim_candidates, claim_queue_task, list_queue_tasks,
  newer, mark_queue_task_failed,
}
use github_osint_secret_scan.Jobs.Storage.Claim.{
  IsEligible, IsClaim, claim_queue_task-IsClaim, claim_candidates-exclusive,
}
use github_osint_secret_scan.Jobs.Storage.Claim.Progress.{
  ClaimCall, claimed_by, claim_all, claim_all-claims,
}
use github_osint_secret_scan.Jobs.Enqueue.{note_queued, reserve_one}
use github_osint_secret_scan.Jobs.Worker.{Classifier}
use github_osint_secret_scan.Jobs.Recovery.{is_stale, quarantine, recover_rows, recover_stale_tasks}
use github_osint_secret_scan.Jobs.Recovery.Quarantine.{quarantined, recover_stale_tasks_complete}
use github_osint_secret_scan.Jobs.Invariant.System.{
  Reachable, Step, reachable-IsSound, reachable-one_active, reachable-attempts,
}

abbrev pub settings : Settings
settings = record {
  scan_queue_retry_max = pos 1;
  scan_queue_retry_interval_list = pos 30 ∷ [];
  scan_queue_lease_seconds = pos 60;
  scan_queue_name = "scans";
}

abbrev pub classify : Classifier
classify heap i = some transient

abbrev pub schedule : ScheduledScan
schedule = record {
  queue_execution_key = none;
  target_type = "path";
  target_value = "/srv/repository";
  scanner_name = "custom-patterns";
  cadence = "daily";
  enabled = true;
  next_run_at = 1000000;
  last_run_at = none;
  metadata_json = [];
}

abbrev pub idle_db : Database
idle_db = record { tasks = []; schedules = (7, schedule) ∷ [] }

abbrev pub db_of : Option (ℕ × Database) → Database
db_of none = idle_db
db_of (some r) = r.1

abbrev pub task_of : Option QueueTask → QueueTask → QueueTask
task_of none t = t
task_of (some t) u = t

-- After the reservation at the time 2 s under the key "k".
abbrev pub reserved_db : Database
reserved_db = db_of (reserve_one settings db 2000000 "k" (7, schedule) idle_db)

abbrev pub queued_task : QueueTask
queued_task = record {
  execution_key = some "k";
  scheduled_scan_id = 7;
  backend = db;
  queue_name = "scans";
  status = queued;
  attempt_count = 0;
  max_attempts = 2;
  available_at = 2000000;
  lease_owner = none;
  lease_expires_at = none;
  started_at = none;
  completed_at = none;
  result_scan_job_id = none;
  result_tool_run_id = none;
  last_error = none;
  metadata_json = [];
  created_at = 2000000;
}

reserved : reserve_one settings db 2000000 "k" (7, schedule) idle_db ≡ some (1, reserved_db)
unfolding reserve_one reserve_queue_execution create_queue_task reservable write_task update_where
    get set_row fresh_id add_row retry_limit note_queued write_schedule
reserved = refl

queued_row : get 1 reserved_db.tasks ≡ some queued_task
unfolding reserve_one reserve_queue_execution create_queue_task reservable write_task update_where
    get set_row fresh_id add_row retry_limit note_queued write_schedule
queued_row = refl

pub reachable_reserved : Reachable classify settings reserved_db
unfolding get
reachable_reserved =
    Reachable.next (Reachable.initial ((7, schedule) ∷ []))
      (Step.reserve "k" (7, schedule) db 2000000 1 (λ i t h. cc) reserved)

reachable-one_active_example : ◌≡◌ {A = ℕ} 1 1
reachable-one_active_example =
    reachable-one_active classify settings reachable_reserved 1 1 queued_task queued_task queued_row
      queued_row refl refl refl

-- The worker "w" claims the task at the time 3 s until 63 s.
abbrev pub claimed_db : Database
claimed_db = (claim_queue_task db "scans" "w" 63000000 3000000 none reserved_db).1

abbrev pub running_task : QueueTask
running_task = record queued_task {
  status = running;
  attempt_count = 1;
  lease_owner = some "w";
  lease_expires_at = some 63000000;
  started_at = some 3000000;
}

pub claimed :
    claim_queue_task db "scans" "w" 63000000 3000000 none reserved_db ≡ (some 1, claimed_db)
unfolding reserve_one reserve_queue_execution create_queue_task reservable write_task update_where
    get set_row fresh_id add_row retry_limit note_queued write_schedule claim_queue_task
    claim_candidates claim_one claimable claimed_row sort_by insert_by is_candidate earlier keep
claimed = refl

pub running_row : get 1 claimed_db.tasks ≡ some running_task
unfolding reserve_one reserve_queue_execution create_queue_task reservable write_task update_where
    get set_row fresh_id add_row retry_limit note_queued write_schedule claim_queue_task
    claim_candidates claim_one claimable claimed_row sort_by insert_by is_candidate earlier keep
running_row = refl

pub reachable_claimed : Reachable classify settings claimed_db
unfolding claim_queue_task
reachable_claimed = Reachable.next reachable_reserved (Step.claim "w" 63000000 3000000 _)

reachable-attempts_example : 1 ≤ 2
reachable-attempts_example =
    reachable-attempts classify settings reachable_claimed 1 running_task running_row refl refl

claim_queue_task-IsClaim_example :
    ((claim_queue_task db "scans" "w" 63000000 3000000 none reserved_db ≡ (none, reserved_db))
      × ((j : ℕ) (u : QueueTask) → IsEligible db "scans" 3000000 none reserved_db j u → ⊥))
    ⊎ ((i : ℕ) × (t : QueueTask) × (db' : Database) × (claim_queue_task db "scans" "w" 63000000
            3000000 none reserved_db
          ≡ (some i, db'))
        × IsClaim db "scans" "w" 63000000 3000000 none reserved_db
            (reachable-IsSound classify settings reachable_reserved).keyed
            i
            t
            db')
claim_queue_task-IsClaim_example =
    claim_queue_task-IsClaim db "scans" "w" 63000000 3000000 none reserved_db
      (reachable-IsSound classify settings reachable_reserved).keyed

claim_candidates-exclusive_example :
    (claim_candidates "v" 64000000 4000000 ((1, queued_task) ∷ []) claimed_db).0 ≢ some 1
unfolding claim_queue_task
claim_candidates-exclusive_example =
    claim_candidates-exclusive "w" "v" 63000000 3000000 64000000 4000000
      (sort_by earlier (keep (is_candidate db "scans" 3000000 none) reserved_db.tasks))
      ((1, queued_task) ∷ []) reserved_db claimed_db 1 claimed

quarantined_row :
    get 1 (recover_stale_tasks true "scans" 63000000 claimed_db).0.tasks
    ≡ some (quarantined 63000000 running_task)
unfolding reserve_one reserve_queue_execution create_queue_task reservable write_task update_where
    get set_row fresh_id add_row retry_limit note_queued write_schedule claim_queue_task
    claim_candidates claim_one claimable claimed_row sort_by insert_by is_candidate earlier keep
    recover_stale_tasks recover_rows quarantine is_stale list_queue_tasks newer
    mark_queue_task_failed
quarantined_row = refl

recover_stale_tasks_complete_example : is_stale 63000000 (quarantined 63000000 running_task) ≡ false
recover_stale_tasks_complete_example =
    recover_stale_tasks_complete "scans" 63000000 claimed_db 1 (quarantined 63000000 running_task)
      quarantined_row refl refl

-- Two tasks wait, and two workers call one after the other.
abbrev two_tasks : Database
two_tasks = record reserved_db { tasks = (1, queued_task) ∷ (2, queued_task) ∷ [] }

abbrev calls : List ClaimCall
calls =
    record { worker_id = "w"; lease_until = 63000000; current = 3000000; schedule_ids = none }
    ∷ record { worker_id = "v"; lease_until = 64000000; current = 4000000; schedule_ids = none }
    ∷ []

claim_all-claims_example :
    (c : ClaimCall) × Memᴰ c calls
    × (get 2 (claim_all db "scans" calls two_tasks).tasks ≡ some (claimed_by c queued_task))
unfolding get is_candidate claimable count
claim_all-claims_example =
    claim_all-claims db "scans" calls two_tasks 2 queued_task (refl, (refl, tt)) refl refl
      ((refl, refl), ((refl, refl), tt)) (omega arith)
