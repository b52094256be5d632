-- ===== src/Jobs/Model.antt =====
-- The rows of the queue: src/orgscan/models.py (QueueTask, ScheduledScan) and the payloads of
-- src/orgscan/runner.py. A time is the number of microseconds since the epoch. The columns
-- `created_at` and `updated_at` are left out, but for the task's `created_at`, which orders lists.
use github_osint_secret_scan.Prelude.{
  ℕ, ◌*◌, String, Bool, true, false, not, Option, none, some, List, str_eq, ◌==◌,
}
use github_osint_secret_scan.Prelude.Dict.{Dict}
use github_osint_secret_scan.Prelude.Table.{Table}

abbrev pub Time : Type 0
Time = ℕ

-- timedelta(seconds=n)
abbrev pub seconds : ℕ → Time
seconds n = n * 1000000

pub record ScanExecutionResult : Type 0 where
  pub scan_job_id : ℕ
  pub scanner : String
  pub target : String
  pub findings : ℕ
  pub finding_ids : List ℕ
  pub tool_run_id : Option ℕ
  pub status : String
  pub skip_reason : Option String

-- What `_result_payload` builds: the fields of the first result, and every result of a batch.
pub record Payload : Type 0 where
  pub scheduled_scan_id : ℕ
  pub queue_task_id : Option ℕ
  pub first : ScanExecutionResult
  pub results : List ScanExecutionResult

-- The values of the JSON metadata columns. `stamp` is the ISO text of a time.
pub data Value : Type 0 where
  null : Value
  flag : Bool → Value
  num : ℕ → Value
  text : String → Value
  stamp : Time → Value
  payload : Payload → Value

abbrev pub Metadata : Type 0
Metadata = Dict Value

-- `None` is stored as JSON null.
abbrev pub of_option_num : Option ℕ → Value
of_option_num none = null
of_option_num (some n) = num n

-- The truth value of `metadata.get(key)`.
abbrev pub is_truthy : Option Value → Bool
is_truthy none = false
is_truthy (some null) = false
is_truthy (some (flag b)) = b
is_truthy (some (num n)) = not (n == 0)
is_truthy (some (text s)) = not (str_eq s "")
is_truthy (some (stamp t)) = true
is_truthy (some (payload p)) = true

pub data QueueTaskStatus : Type 0 where
  queued running completed failed cancelled : QueueTaskStatus

abbrev pub is_queued : QueueTaskStatus → Bool
is_queued queued = true
is_queued _ = false

abbrev pub is_running : QueueTaskStatus → Bool
is_running running = true
is_running _ = false

pub data Backend : Type 0 where
  rq db : Backend

abbrev pub same_backend : Backend → Backend → Bool
same_backend rq rq = true
same_backend db db = true
same_backend _ _ = false

-- Each row stands in its table under its `id`.
pub record QueueTask : Type 0 where
  pub execution_key : Option String
  pub scheduled_scan_id : ℕ
  pub backend : Backend
  pub queue_name : String
  pub status : QueueTaskStatus
  pub attempt_count : ℕ
  pub max_attempts : ℕ
  pub available_at : Time
  pub lease_owner : Option String
  pub lease_expires_at : Option Time
  pub started_at : Option Time
  pub completed_at : Option Time
  pub result_scan_job_id : Option ℕ
  pub result_tool_run_id : Option ℕ
  pub last_error : Option String
  pub metadata_json : Metadata
  pub created_at : Time

pub record ScheduledScan : Type 0 where
  pub queue_execution_key : Option String
  pub target_type : String
  pub target_value : String
  pub scanner_name : String
  pub cadence : String
  pub enabled : Bool
  pub next_run_at : Time
  pub last_run_at : Option Time
  pub metadata_json : Metadata

pub record Database : Type 0 where
  pub tasks : Table QueueTask
  pub schedules : Table ScheduledScan

-- `column == text` on a nullable column, as SQL and Python compare it.
abbrev pub holds : Option String → String → Bool
holds none s = false
holds (some t) s = str_eq t s
