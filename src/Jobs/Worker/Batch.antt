-- ===== src/Jobs/Worker/Batch.antt =====
-- `run_db_schedule_batch` of src/orgscan/queueing.py: its bound, and that it keeps the invariant.
use github_osint_secret_scan.Prelude.{
  ℕ, zero, suc, ◌+◌, ◌≤◌, min, String, ◌≡◌, refl, ◌⊎◌, inl, inr, arith, Bool, true, false, not,
  Option, none, some, List, length, Bool-cases, Option-cases, if◌then◌else◌,
}
use github_osint_secret_scan.Prelude.Table.{get}
use github_osint_secret_scan.Jobs.Storage.{claim_queue_task}
use github_osint_secret_scan.Jobs.Policy.{Settings}
use github_osint_secret_scan.Jobs.Model.{
  ScheduledScan, Time, Backend, same_backend, db, Payload, Database,
}
use github_osint_secret_scan.Jobs.Worker.{
  is_completed, Raised, Outcome, ok, raised, Classifier, Scan, cancel_requested, run_in_scope,
  owned_by,
}
use github_osint_secret_scan.Jobs.Worker.Execute.{Reply, run_task, settle, execute_db_queue_task}
use github_osint_secret_scan.Jobs.Invariant.{IsSound, write_schedule-IsSound}
use github_osint_secret_scan.Jobs.Invariant.Operations.{
  mark_queue_task_failed-IsSound, claim_queue_task-IsSound,
}
use github_osint_secret_scan.Jobs.Invariant.Worker.{finish_task-IsSound, fail_task-IsSound}
use github_osint_secret_scan.Jobs.Worker.Loop.{
  Round, idle, replied, escaped, start_task, lease_end, process_claimed, process_one_db_task,
  batch_loop, run_db_schedule_batch,
}

Round-cases : (r : Round) → (r ≡ idle) ⊎ ((reply : Reply) × (r ≡ replied reply)) ⊎ (r ≡ escaped)
Round-cases idle = inl refl
Round-cases (replied reply) = inr (inl (reply, refl))
Round-cases escaped = inr (inr refl)

Outcome-cases {ℓ} :
    {A : Type ℓ} (o : Outcome A) → ((a : A) × (o ≡ ok a)) ⊎ ((e : Raised) × (o ≡ raised e))
Outcome-cases (ok a) = inl (a, refl)
Outcome-cases (raised e) = inr (e, refl)

either :
    (b : Bool) (x y : Database × Option ℕ)
    → IsSound x.0
    → IsSound y.0
    → IsSound (if b then x else y).0
either true x y h k = h
either false x y h k = k

module _ (classify : Classifier) (settings : Settings) (scan : Scan) (worker_id : String) where
  batch_loop_bound :
      (clock : ℕ → Time) (left : ℕ) (ids : Option (List ℕ)) (processed : ℕ) (d : Database) (n : ℕ)
      → (batch_loop classify settings scan worker_id clock left ids processed d).1 ≡ some n
      → n ≤ processed + left
  unfolding batch_loop
  batch_loop_bound clock zero ids processed d n h = ground (arith, h)
  batch_loop_bound clock (suc left) ids processed d n h =
      let out = process_one_db_task classify settings scan worker_id ids (clock processed) d in
      let ih = batch_loop_bound clock left ids (processed + 1) out.0 n in
      elim (Round-cases out.1) [
        | inl e ↦ ground (arith, rw (e, batch_loop) at h)
        | inr (inl (reply, e)) ↦ omega (arith, ih (rw (e, batch_loop) at h))
        | inr (inr e) ↦ ground (arith, rw (e, batch_loop) at h)
      ]

  -- A batch never reports more processed tasks than the caller's limit or than the schedules that
  -- it was given.
  pub run_db_schedule_batch-bound :
      (backend : Backend) (clock : ℕ → Time) (free : Bool) (ids : List ℕ) (max_jobs : ℕ)
      (d : Database) (n : ℕ)
      → (run_db_schedule_batch classify settings scan worker_id backend clock free ids max_jobs d).1
        ≡ some n
      → (n ≤ max_jobs) × (n ≤ length ids)
  unfolding run_db_schedule_batch
  run_db_schedule_batch-bound backend clock free ids max_jobs d n h =
      let bound = batch_loop_bound clock (min max_jobs (length ids)) (some ids) 0 d n in
      (ground (arith, h, bound), ground (arith, h, bound))

  -- A scan and the processes beside it keep the invariant.
  module _ (scan_sound : (i : ℕ) (d : Database) → IsSound d → IsSound (scan i d).0) where
    run_in_scope-IsSound :
        (task_id i : ℕ) {d : Database} → IsSound d → IsSound (run_in_scope scan task_id i d).0
    unfolding run_in_scope
    run_in_scope-IsSound task_id i {d} s = elim (Bool-cases (cancel_requested task_id d)) [
      | inl e ↦ rw (e, run_in_scope) s
      | inr e ↦ rw (e, run_in_scope) (scan_sound i d s)
    ]

    settle-IsSound :
        (task_id i : ℕ) (now : Time) (d : Database) (o : Outcome (Database × Payload))
        → ((d' : Database) (result : Payload) → o ≡ ok (d', result) → IsSound d')
        → IsSound d
        → IsSound (settle classify settings task_id worker_id now i d o).0
    settle-IsSound task_id i now d (ok (d', result)) kept s = kept d' result refl
    settle-IsSound task_id i now d (raised e) kept s =
        fail_task-IsSound classify settings task_id worker_id now i e d s

    run_task-IsSound :
        (task_id i : ℕ) (loaded : ScheduledScan) (now : Time) (d : Database)
        → IsSound d
        → IsSound (run_task classify settings task_id worker_id now scan i loaded d).0
    unfolding run_task
    run_task-IsSound task_id i loaded now d s =
        let kept = run_in_scope-IsSound task_id i s in
        elim (Outcome-cases (run_in_scope scan task_id i d).1) [
          | inl (results, e) ↦
              rw (e, run_task)
                (settle-IsSound task_id i now _ _
                  (λ d' result h.
                    finish_task-IsSound task_id i worker_id loaded now results _ d' result kept h)
                  kept)
          | inr (error, e) ↦
              rw (e, run_task)
                (fail_task-IsSound classify settings task_id worker_id now i error _ kept)
        ]

    execute-IsSound :
        (task_id : ℕ) (now : Time) (d : Database)
        → IsSound d
        → IsSound (execute_db_queue_task classify settings task_id worker_id now scan d).0
    unfolding execute_db_queue_task
    execute-IsSound task_id now d s = elim (Option-cases (get task_id d.tasks)) [
      | inl e ↦ rw (e, execute_db_queue_task) s
      | inr (t, e) ↦ elim (Bool-cases (is_completed t.status)) [
        | inl f ↦ rw (e, execute_db_queue_task) (rw f s)
        | inr f ↦ elim (Bool-cases (owned_by worker_id t)) [
          | inr g ↦ rw (e, execute_db_queue_task) (rw f (rw g s))
          | inl g ↦ elim (Option-cases (get t.scheduled_scan_id d.schedules)) [
            | inl h ↦
                rw (e, execute_db_queue_task)
                  (rw f (rw g (rw h (mark_queue_task_failed-IsSound task_id _ now s))))
            | inr (row, h) ↦
                rw (e, execute_db_queue_task)
                  (rw f (rw g (rw h (run_task-IsSound task_id t.scheduled_scan_id row now d s))))
          ]
        ]
      ]
    ]

    process_claimed-IsSound :
        (task_id : ℕ) (now : Time) (d : Database)
        → IsSound d
        → IsSound (process_claimed classify settings scan worker_id task_id now d).0
    unfolding process_claimed start_task
    process_claimed-IsSound task_id now d s = elim (Option-cases (get task_id d.tasks)) [
      | inl e ↦ rw (e, process_claimed) s
      | inr (t, e) ↦ elim (Option-cases (get t.scheduled_scan_id d.schedules)) [
        | inl h ↦ rw (e, process_claimed) (rw h (mark_queue_task_failed-IsSound task_id _ now s))
        | inr (row, h) ↦
            rw (e, process_claimed)
              (rw h (
                execute-IsSound task_id now _
                  (write_schedule-IsSound s t.scheduled_scan_id _ (λ r. refl))))
      ]
    ]

    process_one-IsSound :
        (ids : Option (List ℕ)) (now : Time) (d : Database)
        → IsSound d
        → IsSound (process_one_db_task classify settings scan worker_id ids now d).0
    unfolding process_one_db_task
    process_one-IsSound ids now d s =
        let kept =
          claim_queue_task-IsSound db settings.scan_queue_name worker_id
            (lease_end classify settings scan worker_id now) now ids s in
        elim (Option-cases
          (claim_queue_task db settings.scan_queue_name worker_id
            (lease_end classify settings scan worker_id now) now ids d).0) [
              | inl e ↦ rw (e, process_one_db_task) kept
              | inr (task_id, e) ↦
                  rw (e, process_one_db_task) (process_claimed-IsSound task_id now _ kept)
            ]

    batch_loop-IsSound :
        (clock : ℕ → Time) (left : ℕ) (ids : Option (List ℕ)) (processed : ℕ) (d : Database)
        → IsSound d
        → IsSound (batch_loop classify settings scan worker_id clock left ids processed d).0
    unfolding batch_loop
    batch_loop-IsSound clock zero ids processed d s = s
    batch_loop-IsSound clock (suc left) ids processed d s =
        let out = process_one_db_task classify settings scan worker_id ids (clock processed) d in
        let kept = process_one-IsSound ids (clock processed) d s in
        elim (Round-cases out.1) [
          | inl e ↦ rw (e, batch_loop) kept
          | inr (inl (reply, e)) ↦
              rw (e, batch_loop) (batch_loop-IsSound clock left ids (processed + 1) out.0 kept)
          | inr (inr e) ↦ rw (e, batch_loop) kept
        ]

    -- A whole batch keeps the invariant of the queue (one active task for each schedule, unique
    -- keys, attempts within their budget), if each scan does with what other processes commit
    -- while it runs.
    pub run_db_schedule_batch-IsSound :
        (backend : Backend) (clock : ℕ → Time) (free : Bool) (ids : List ℕ) (max_jobs : ℕ)
        (d : Database)
        → IsSound d
        → IsSound
            (run_db_schedule_batch classify settings scan worker_id backend clock free ids max_jobs
              d).0
    unfolding run_db_schedule_batch
    run_db_schedule_batch-IsSound backend clock free ids max_jobs d s =
        let kept = batch_loop-IsSound clock (min max_jobs (length ids)) (some ids) 0 d s in
        either (not (same_backend backend db)) (d, none) _ s
          (either _ (d, some 0) _ s (either free _ (d, some 0) kept s))
