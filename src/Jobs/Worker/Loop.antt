-- ===== src/Jobs/Worker/Loop.antt =====
-- `_process_one_db_task`, `_run_db_worker` and `run_db_schedule_batch` of src/orgscan/queueing.py.
use github_osint_secret_scan.Prelude.{
  ℕ, zero, suc, ◌+◌, ◌-◌, ◌%◌, min, String, Bool, true, false, not, ◌||◌, Option, none, some, List,
  [], ◌∷◌, ltb, leb, if◌then◌else◌, length,
}
use github_osint_secret_scan.Prelude.Int.{at_least}
use github_osint_secret_scan.Prelude.Dict.{update}
use github_osint_secret_scan.Prelude.Table.{get}
use github_osint_secret_scan.Jobs.Policy.{Settings}
use github_osint_secret_scan.Jobs.Model.{
  Time, seconds, text, num, stamp, Metadata, Backend, same_backend, db, Database,
}
use github_osint_secret_scan.Jobs.Storage.{claim_queue_task, write_schedule, mark_queue_task_failed}
use github_osint_secret_scan.Jobs.Worker.{Scan, Classifier}
use github_osint_secret_scan.Jobs.Worker.Execute.{Reply, backend_error, execute_db_queue_task}

-- What one round gives: nothing to do, a reply, or an exception that leaves the loop.
pub data Round : Type 0 where
  idle : Round
  replied : Reply → Round
  escaped : Round

-- `except JobExecutionError` makes an answer of it; other exceptions pass.
abbrev pub caught : Reply → Round
caught backend_error = escaped
caught reply = replied reply

-- `max_jobs is not None and processed >= max_jobs`
abbrev pub reached : Option ℕ → ℕ → Bool
reached none processed = false
reached (some n) processed = leb n processed

module _ (classify : Classifier) (settings : Settings) (scan : Scan) (worker_id : String) where
  -- The transaction that claims the task and marks its schedule as running.
  unfoldable pub start_task : ℕ → ℕ → Metadata → Time → Database → Database
  start_task task_id schedule_id metadata now d =
      write_schedule schedule_id
        (λ s. record s {
          metadata_json = update metadata (
              ("queue_backend", text "db")
              ∷ ("queue_status", text "running")
              ∷ ("queue_task_id", num task_id)
              ∷ ("started_at", stamp now)
              ∷ ("worker_id", text worker_id)
              ∷ []);
        })
        d

  -- The claimed row is read back (`session.refresh`).
  unfoldable pub process_claimed : ℕ → Time → Database → Database × Round
  process_claimed task_id now d = elim (get task_id d.tasks) [
    | none ↦ (d, escaped)
    | some t ↦ elim (get t.scheduled_scan_id d.schedules) [
      | none ↦ (mark_queue_task_failed task_id "Scheduled scan does not exist" now d, idle)
      | some s ↦
          let (d', reply) =
            execute_db_queue_task classify settings task_id worker_id now scan
              (start_task task_id t.scheduled_scan_id s.metadata_json now d) in
          (d', caught reply)
    ]
  ]

  -- The lease counts from the whole second of the claim.
  abbrev pub lease_end : Time → Time
  lease_end now = now - now % 1000000 + seconds (at_least 30 settings.scan_queue_lease_seconds)

  unfoldable pub process_one_db_task : Option (List ℕ) → Time → Database → Database × Round
  process_one_db_task schedule_ids now d =
      let (claimed, d') =
        claim_queue_task db settings.scan_queue_name worker_id (lease_end now) now schedule_ids d in
      elim claimed [ none ↦ (d', idle) | some task_id ↦ process_claimed task_id now d' ]

  -- The loop of `run_db_schedule_batch` with `left` rounds before `processed` meets its limit;
  -- `clock n` is the time of the round that has n processed tasks before it. An exception leaves
  -- the loop with `none` for its result.
  unfoldable pub batch_loop : (ℕ → Time) → ℕ → Option (List ℕ) → ℕ → Database → Database × Option ℕ
  batch_loop clock zero schedule_ids processed d = (d, some processed)
  batch_loop clock (suc left) schedule_ids processed d =
      let (d', round) = process_one_db_task schedule_ids (clock processed) d in
      let next = batch_loop clock left schedule_ids (processed + 1) d' in
      elim round [ idle ↦ (d', some processed) | replied reply ↦ next | escaped ↦ (d', none) ]

  -- The loop of `_run_db_worker` for `left` rounds; `clock n` is the time of its n-th round. With
  -- `burst` it ends when there is nothing to do, and sleeps if not. The answer is the number of
  -- processed tasks, or `none` if an exception left the loop.
  unfoldable pub worker_loop : (ℕ → Time) → Bool → Option ℕ → ℕ → ℕ → Database → Database × Option ℕ
  worker_loop clock burst max_jobs zero processed d = (d, some processed)
  worker_loop clock burst max_jobs (suc left) processed d =
      let (d', round) = process_one_db_task none (clock left) d in
      let idle_next = worker_loop clock burst max_jobs left processed d' in
      let next = worker_loop clock burst max_jobs left (processed + 1) d' in
      elim round [
        | idle ↦ if burst then (d', some processed) else idle_next
        | replied reply ↦
            if reached max_jobs (processed + 1) then (d', some (processed + 1)) else next
        | escaped ↦ (d', none)
      ]

  abbrev is_empty : List ℕ → Bool
  is_empty [] = true
  is_empty (_ ∷ _) = false

  -- `free` tells whether the process-wide lock was acquired; another backend is an exception.
  unfoldable pub run_db_schedule_batch :
      Backend → (ℕ → Time) → Bool → List ℕ → ℕ → Database → Database × Option ℕ
  run_db_schedule_batch backend clock free schedule_ids max_jobs d =
      if not (same_backend backend db)
      then (d, none)
      else if is_empty schedule_ids || ltb 500 (length schedule_ids) || ltb max_jobs 1
      then (d, some 0)
      else if free
      then batch_loop clock (min max_jobs (length schedule_ids)) (some schedule_ids) 0 d
      else (d, some 0)
