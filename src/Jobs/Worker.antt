-- ===== src/Jobs/Worker.antt =====
-- The database worker of src/orgscan/queueing.py. `scan` stands for `execute_scheduled_scan` with
-- all that other processes commit while it runs: any change of the database, and either the
-- results or an exception. A transaction after it is one step; a rollback returns to what `scan`
-- left. Each handler reads the clock once after the claim, as `now`.
pub mod Execute
pub mod Loop
pub mod Ownership
pub mod Outcomes
pub mod Success
pub mod Batch
use github_osint_secret_scan.Prelude.{
  ℕ, ◌+◌, ◌*◌, String, str_eq, Bool, true, false, not, ◌&&◌, ◌||◌, Option, none, some, List, [],
  ◌∷◌, ltb, if◌then◌else◌, or_default,
}
use github_osint_secret_scan.Prelude.Int.{at_least}
use github_osint_secret_scan.Prelude.Dict.{lookup, insert, update}
use github_osint_secret_scan.Prelude.Table.{Table, get}
use github_osint_secret_scan.Jobs.Policy.{
  Failure, Settings, Kind, classified, other_error, Exception, FloatRead, permanent,
  classify_failure, retry_delay,
}
use github_osint_secret_scan.Jobs.Model.{
  Time, seconds, Value, null, flag, num, text, stamp, payload, Metadata, of_option_num, is_truthy,
  ScanExecutionResult, Payload, QueueTaskStatus, completed, cancelled, is_running, Backend,
  QueueTask, ScheduledScan, Database, holds,
}
use github_osint_secret_scan.Jobs.Cadence.{next_run_from_cadence}
use github_osint_secret_scan.Jobs.Storage.{
  write_task, write_schedule, claim_queue_task, mark_queue_task_completed, mark_queue_task_retry,
  mark_queue_task_failed, mark_queue_task_cancelled, mark_scheduled_scan_run,
}

-- What is raised: by the scan, by the handler itself, or by a cancellation check.
pub data Raised : Type 0 where
  scan_error : Table Exception → ℕ → Raised
  own_error : Raised
  cancellation_requested : Raised

pub data Outcome {ℓ} (A : Type ℓ) : Type ℓ where
  ok : A → Outcome A
  raised : Raised → Outcome A

abbrev pub cancelled_failure : Failure
cancelled_failure = record {
  code = "cancelled";
  retryable = false;
  message = "Operation cancelled by operator";
  retry_after = 0;
}

abbrev pub Classifier : Type 0
Classifier = Table Exception → ℕ → Option Failure

-- `classify_failure(exc)`; it always gives a failure, so that the default is never taken.
unfoldable pub failure_of : Classifier → Raised → Failure
failure_of classify (scan_error heap i) = or_default (classify heap i) permanent
failure_of classify own_error = permanent
failure_of classify cancellation_requested = cancelled_failure

abbrev pub is_completed : QueueTaskStatus → Bool
is_completed completed = true
is_completed _ = false

abbrev is_cancelled : QueueTaskStatus → Bool
is_cancelled cancelled = true
is_cancelled _ = false

-- `check()` of src/orgscan/cancellation.py; its throttle lets both checks of the scope through.
unfoldable pub cancel_requested : ℕ → Database → Bool
cancel_requested i db = elim (get i db.tasks) [
  | none ↦ true
  | some t ↦ is_cancelled t.status || is_truthy (lookup "cancel_requested_at" t.metadata_json)
]

unfoldable pub owned_by : String → QueueTask → Bool
owned_by worker_id t = is_running t.status && holds t.lease_owner worker_id

abbrev pub Scan : Type 0
Scan = ℕ → Database → Database × Outcome (List ScanExecutionResult)

-- `with cancellation_scope(...): results = execute_scheduled_scan(...)`
unfoldable pub run_in_scope :
    Scan → ℕ → ℕ → Database → Database × Outcome (List ScanExecutionResult)
run_in_scope scan task_id schedule_id db = elim (cancel_requested task_id db) [
  | true ↦ (db, raised cancellation_requested)
  | false ↦
      let (db', outcome) = scan schedule_id db in
      (
        db',
        elim outcome [
          | raised e ↦ raised e
          | ok results ↦
              if cancel_requested task_id db' then raised cancellation_requested else ok results
        ],
      )
]

abbrev sum_findings : List ScanExecutionResult → ℕ
sum_findings [] = 0
sum_findings (r ∷ rs) = r.findings + sum_findings rs

abbrev append_ids : List ℕ → List ℕ → List ℕ
append_ids [] ys = ys
append_ids (x ∷ xs) ys = x ∷ append_ids xs ys

abbrev all_finding_ids : List ScanExecutionResult → List ℕ
all_finding_ids [] = []
all_finding_ids (r ∷ rs) = append_ids r.finding_ids (all_finding_ids rs)

-- `_result_payload` and `result_payload`: a batch counts and lists the findings of all its runs.
unfoldable pub result_payload : ℕ → ScanExecutionResult → List ScanExecutionResult → Payload
result_payload schedule_id r [] = record {
  scheduled_scan_id = schedule_id;
  queue_task_id = none;
  first = r;
  results = [];
}
result_payload schedule_id r (s ∷ rs) = record {
  scheduled_scan_id = schedule_id;
  queue_task_id = none;
  first = record r {
    findings = sum_findings (r ∷ s ∷ rs);
    finding_ids = all_finding_ids (r ∷ s ∷ rs);
  };
  results = r ∷ s ∷ rs;
}

-- `enabled=False if loaded.cadence == "manual" else None`
abbrev pub after_run : String → Option Bool
after_run cadence = if str_eq cadence "manual" then some false else none

-- The rest of the `try` block, after the scan returned. `loaded` is the schedule as it was read before
-- the scan; its attributes do not expire with a commit.
module _ (task_id schedule_id : ℕ) (worker_id : String) (loaded : ScheduledScan) (now : Time) where
  unfoldable pub commit_result :
      ScanExecutionResult → List ScanExecutionResult → Database → Database × Payload
  commit_result r rs db =
      let result = record (result_payload schedule_id r rs) { queue_task_id = some task_id } in
      let marked =
        mark_scheduled_scan_run schedule_id (next_run_from_cadence loaded.cadence now)
          (after_run loaded.cadence) now db in
      let noted =
        write_task task_id
          (λ t. record t { metadata_json = insert "result" (payload result) t.metadata_json })
          marked in
      let done = mark_queue_task_completed task_id (some r.scan_job_id) r.tool_run_id now noted in
      (
        write_schedule schedule_id
            (λ s. record s {
              metadata_json = update loaded.metadata_json (
                  ("queue_backend", text "db")
                  ∷ ("queue_status", text "completed")
                  ∷ ("completed_at", stamp now)
                  ∷ ("worker_id", text worker_id)
                  ∷ ("last_scan_job_id", num r.scan_job_id)
                  ∷ ("last_tool_run_id", of_option_num r.tool_run_id)
                  ∷ ("last_error", null)
                  ∷ []);
            })
            done,
        result,
      )

  unfoldable pub finish_task : List ScanExecutionResult → Database → Outcome (Database × Payload)
  finish_task [] db = raised own_error
  finish_task (r ∷ rs) db = elim (get schedule_id db.schedules) [
    | none ↦ raised own_error
    | some scheduled ↦ elim (get task_id db.tasks) [
      | none ↦ raised own_error
      | some t ↦
          if not (owned_by worker_id t)
          then raised own_error
          else if is_truthy (lookup "cancel_requested_at" t.metadata_json)
          then raised cancellation_requested
          else ok (commit_result r rs db)
    ]
  ]
