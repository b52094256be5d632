-- ===== src/Jobs/Rq.antt =====
-- `execute_scheduled_scan_job` and the publication of `enqueue_due_scheduled_scans`, for the RQ
-- backend of src/orgscan/queueing.py. `retries_left` is that of the RQ job, if there is one, and
-- `execution_id` the key given to the handler, or else the id of the RQ job.
pub mod Handler
pub mod Delivery
use github_osint_secret_scan.Prelude.{
  ℕ, ◌+◌, ◌-◌, max, String, str_eq, Bool, true, false, not, ◌&&◌, ◌||◌, Option, none, some, List,
  [], ◌∷◌, ltb, leb, ◌==◌, if◌then◌else◌,
}
use github_osint_secret_scan.Prelude.Dict.{lookup, insert, update}
use github_osint_secret_scan.Prelude.Table.{Table, get, update_where}
use github_osint_secret_scan.Jobs.Policy.{Failure, Settings, retry_delay, retry_limit}
use github_osint_secret_scan.Jobs.Model.{
  Time, seconds, Value, null, flag, num, text, stamp, payload, of_option_num, is_truthy, Metadata,
  ScanExecutionResult, Payload, QueueTaskStatus, queued, running, completed, failed, cancelled,
  is_queued, QueueTask, ScheduledScan, Database, holds,
}
use github_osint_secret_scan.Jobs.Cadence.{next_run_from_cadence}
use github_osint_secret_scan.Jobs.Storage.{
  write_task, write_schedule, claimed_row, mark_queue_task_completed, mark_queue_task_retry,
  mark_queue_task_failed, mark_queue_task_cancelled, mark_scheduled_scan_run,
}
use github_osint_secret_scan.Jobs.Worker.{
  Raised, own_error, cancellation_requested, Outcome, ok, raised, Classifier, failure_of, Scan,
  run_in_scope, result_payload, after_run,
}
use github_osint_secret_scan.Jobs.Worker.Execute.{
  Reply, returned, already_completed, cancelled_reply, execution_error, backend_error,
}

-- The task that carries the key; the column is unique.
unfoldable pub task_by_key : String → Table QueueTask → Option (ℕ × QueueTask)
task_by_key key [] = none
task_by_key key ((i, t) ∷ rows) =
    if holds t.execution_key key then some (i, t) else task_by_key key rows

-- The retries of an RQ job that is there and has some.
abbrev pub may_retry : Option ℕ → Bool
may_retry none = false
may_retry (some n) = ltb 0 n

module _ (classify : Classifier) (settings : Settings) (scan : Scan) (schedule_id : ℕ)
    (retries_left : Option ℕ) (now : Time) where
  -- The attempt that the remaining retries count, and the delay after it.
  abbrev attempt_of : ℕ → ℕ
  attempt_of left = max 1 (retry_limit settings - left + 1)

  unfoldable pub rq_delay : Failure → ℕ
  rq_delay failure = elim retries_left [
    | none ↦ 0
    | some left ↦ retry_delay settings (attempt_of left) failure
  ]

  -- The WHERE of the claim.
  unfoldable pub rq_claimable : QueueTask → Bool
  rq_claimable t = is_queued t.status && leb t.available_at now

  unfoldable pub rq_claim : String → ℕ → Database → Database × Bool
  rq_claim execution_id i d =
      let (tasks', claimed) =
        update_where i rq_claimable (claimed_row execution_id (now + seconds 600) now) d.tasks in
      (record d { tasks = tasks' }, claimed)

  unfoldable pub rq_commit :
      String
      → ℕ
      → ScanExecutionResult
      → List ScanExecutionResult
      → ScheduledScan
      → Database
      → Database × Payload
  rq_commit execution_id i r rs s d =
      let result = result_payload schedule_id r rs in
      let marked =
        mark_scheduled_scan_run schedule_id (next_run_from_cadence s.cadence now)
          (after_run s.cadence) now d in
      let noted =
        write_task i (λ t. record t { metadata_json = ("result", payload result) ∷ [] }) marked in
      let done = mark_queue_task_completed i (some r.scan_job_id) r.tool_run_id now noted in
      (
        write_schedule schedule_id
            (λ row. record row {
              metadata_json = update s.metadata_json (
                  ("queue_status", text "completed")
                  ∷ ("queue_backend", text "rq")
                  ∷ ("completed_at", stamp now)
                  ∷ ("last_scan_job_id", num r.scan_job_id)
                  ∷ ("last_tool_run_id", of_option_num r.tool_run_id)
                  ∷ ("last_error", null)
                  ∷ ("failure_code", null)
                  ∷ ("next_retry_at", null)
                  ∷ ("completed_execution_id", text execution_id)
                  ∷ ("completed_result", payload result)
                  ∷ []);
            })
            done,
        result,
      )

  -- `loaded` was read before the scan; its attributes do not expire with a commit.
  unfoldable pub rq_finish :
      String
      → ℕ
      → ScheduledScan
      → List ScanExecutionResult
      → Database
      → Outcome (Database × Payload)
  rq_finish execution_id i loaded [] d = raised own_error
  rq_finish execution_id i loaded (r ∷ rs) d = elim (get schedule_id d.schedules) [
    | none ↦ raised own_error
    | some s ↦ elim (get i d.tasks) [
      | none ↦ raised own_error
      | some t ↦
          if is_truthy (lookup "cancel_requested_at" t.metadata_json)
          then raised cancellation_requested
          else ok (rq_commit execution_id i r rs loaded d)
    ]
  ]

  unfoldable pub rq_cancelled : ℕ → Failure → Metadata → Database → Database
  rq_cancelled i failure metadata d =
      write_schedule schedule_id
        (λ row. record row {
          enabled = false;
          metadata_json = update metadata (
              ("queue_status", text "cancelled")
              ∷ ("completed_at", stamp now)
              ∷ ("last_error", text failure.message)
              ∷ ("failure_code", text "cancelled")
              ∷ []);
        })
        (mark_queue_task_cancelled i now d)

  unfoldable pub rq_retried : ℕ → Failure → Metadata → Database → Database
  rq_retried i failure metadata d =
      let next_attempt = now + seconds (rq_delay failure) in
      write_schedule schedule_id
        (λ row. record row {
          metadata_json = update metadata (
              ("queue_status", text "queued")
              ∷ ("queue_backend", text "rq")
              ∷ ("last_error", text failure.message)
              ∷ ("failure_code", text failure.code)
              ∷ ("next_retry_at", stamp next_attempt)
              ∷ []);
        })
        (write_task i
          (λ t. record t { metadata_json = insert "published" (flag true) t.metadata_json })
          (mark_queue_task_retry i next_attempt failure.message d))

  unfoldable pub rq_failed : ℕ → Failure → Metadata → Database → Database
  rq_failed i failure metadata d =
      write_schedule schedule_id
        (λ row. record row {
          enabled = false;
          metadata_json = update metadata (
              ("queue_status", text "failed")
              ∷ ("queue_backend", text "rq")
              ∷ ("last_error", text failure.message)
              ∷ ("failure_code", text failure.code)
              ∷ ("next_retry_at", null)
              ∷ []);
        })
        (mark_queue_task_failed i failure.message now d)

  -- The `except` block; an operation on a row that is gone raises out of it.
  unfoldable pub rq_fail : ℕ → Raised → Database → Database × Reply
  rq_fail i e d =
      let failure = failure_of classify e in
      elim (get schedule_id d.schedules) [
        | none ↦ (d, backend_error)
        | some s ↦ elim (get i d.tasks) [
          | none ↦ (d, backend_error)
          | some t ↦
              if str_eq failure.code "cancelled"
              then (rq_cancelled i failure s.metadata_json d, cancelled_reply)
              else if failure.retryable && may_retry retries_left
              then (rq_retried i failure s.metadata_json d, execution_error failure.message)
              else (rq_failed i failure s.metadata_json d, execution_error failure.message)
        ]
      ]

  abbrev rq_settle : ℕ → Database → Outcome (Database × Payload) → Database × Reply
  rq_settle i d (ok (d', result)) = (d', returned result)
  rq_settle i d (raised e) = rq_fail i e d

  unfoldable pub rq_run : String → ℕ → ScheduledScan → Database → Database × Reply
  rq_run execution_id i loaded d =
      let (d', outcome) = run_in_scope scan i schedule_id d in
      elim outcome [
        | ok results ↦ rq_settle i d' (rq_finish execution_id i loaded results d')
        | raised e ↦ rq_fail i e d'
      ]

  -- The loaded schedule, with the metadata that the start of the run writes.
  abbrev pub started : ScheduledScan → ScheduledScan
  started s = record s {
    metadata_json =
        update s.metadata_json (("queue_status", text "running") ∷ ("started_at", stamp now) ∷ []);
  }

  unfoldable pub rq_start : ScheduledScan → Database → Database
  rq_start s d =
      write_schedule schedule_id (λ row. record row { metadata_json = (started s).metadata_json }) d

  abbrev pub missing : Reply
  missing = execution_error "Missing durable queue execution; review legacy job before rescheduling"

  abbrev pub taken : Reply
  taken = execution_error "Queue execution is already claimed or requires operator review"

  abbrev pub stored_result : Option Value → Reply
  stored_result none = backend_error
  stored_result (some v) = already_completed (some v)

  -- The handler once its task was found.
  unfoldable pub rq_execute : String → ℕ → QueueTask → ScheduledScan → Database → Database × Reply
  rq_execute execution_id i t s d = elim t.status [
    | completed ↦ (d, stored_result (lookup "result" t.metadata_json))
    | cancelled ↦ (d, cancelled_reply)
    | _ ↦ elim ((rq_claim execution_id i d).1) [
      | false ↦ (d, taken)
      | true ↦ rq_run execution_id i (started s) (rq_start s (rq_claim execution_id i d).0)
    ]
  ]

  abbrev pub found : Option String → Database → Option (ℕ × QueueTask)
  found none d = none
  found (some key) d = if str_eq key "" then none else task_by_key key d.tasks

  abbrev key_text : Option String → String
  key_text none = ""
  key_text (some key) = key

  unfoldable pub execute_scheduled_scan_job : Option String → Database → Database × Reply
  execute_scheduled_scan_job execution_id d = elim (get schedule_id d.schedules) [
    | none ↦ (d, backend_error)
    | some s ↦ elim (found execution_id d) [
      | none ↦ (d, missing)
      | some (i, t) ↦
          if not (t.scheduled_scan_id == schedule_id)
          then (d, missing)
          else rq_execute (key_text execution_id) i t s d
    ]
  ]

-- `lease_owner IS NULL OR lease_expires_at <= now`; a comparison with NULL does not hold.
abbrev is_unowned : Option String → Bool
is_unowned none = true
is_unowned (some owner) = false

abbrev expired : Option Time → Time → Bool
expired none now = false
expired (some t) now = leb t now

-- A queued task that nobody publishes.
unfoldable pub publishable : Time → QueueTask → Bool
publishable now t =
    is_queued t.status && (is_unowned t.lease_owner || expired t.lease_expires_at now)

unfoldable pub lease_publication : String → Time → ℕ → Database → Database × Bool
lease_publication publisher now i d =
    let (tasks', changed) =
      update_where i (publishable now)
        (λ t. record t { lease_owner = some publisher; lease_expires_at = some (now + seconds 60) })
        d.tasks in
    (record d { tasks = tasks' }, changed)

-- The row that a publication still holds.
unfoldable pub published_by : String → QueueTask → Bool
published_by publisher t = is_queued t.status && holds t.lease_owner publisher

unfoldable pub end_publication : String → Bool → ℕ → Database → Database
end_publication publisher enqueued i d = record d {
  tasks =
      (update_where i (published_by publisher)
        (λ t. record t {
          lease_owner = none;
          lease_expires_at = none;
          metadata_json = if enqueued then ("published", flag true) ∷ [] else t.metadata_json;
        })
        d.tasks).0;
}
