-- ===== src/Jobs/Invariant/Worker.antt =====
-- The commit of a worker, its `except` block and a cancellation keep the invariant.
use github_osint_secret_scan.Prelude.{
  ℕ, ◌<◌, String, ◌≡◌, refl, inl, inr, arith, true, ◌&&◌, some, List, [], ◌∷◌, str_eq, ltb,
  Bool-cases, Option-cases,
}
use github_osint_secret_scan.Prelude.Dict.{update}
use github_osint_secret_scan.Prelude.Table.{get, get-update_where_self}
use github_osint_secret_scan.Jobs.Policy.{Failure, Settings}
use github_osint_secret_scan.Jobs.Model.{
  Time, text, flag, Metadata, ScanExecutionResult, Payload, QueueTask, ScheduledScan, Database,
}
use github_osint_secret_scan.Jobs.Storage.{write_task}
use github_osint_secret_scan.Jobs.Storage.Reservation.{is_active}
use github_osint_secret_scan.Jobs.Worker.{
  Raised, ok, Classifier, failure_of, owned_by, commit_result, finish_task,
}
use github_osint_secret_scan.Jobs.Worker.Execute.{
  note_failure, record_cancelled, record_retry, record_failed, fail_task,
}
use github_osint_secret_scan.Jobs.Invariant.{IsSound, write_schedule-IsSound}
use github_osint_secret_scan.Jobs.Invariant.Operations.{
  note_task-IsSound, mark_queue_task_failed-IsSound, mark_queue_task_completed-IsSound,
  mark_queue_task_cancelled-IsSound, mark_queue_task_retry-IsSound, mark_scheduled_scan_run-IsSound,
}

module _ (task_id schedule_id : ℕ) (worker_id : String) (loaded : ScheduledScan) (now : Time) where
  commit_result-IsSound :
      (r : ScanExecutionResult) (rs : List ScanExecutionResult) {d : Database}
      → IsSound d
      → IsSound (commit_result task_id schedule_id worker_id loaded now r rs d).0
  unfolding commit_result
  commit_result-IsSound r rs s =
      write_schedule-IsSound
        (mark_queue_task_completed-IsSound task_id (some r.scan_job_id) r.tool_run_id now (
          note_task-IsSound task_id _ (λ t. refl) (λ t. refl) (λ t. refl)
            (λ t b. record { before = b.before; within = b.within })
            (mark_scheduled_scan_run-IsSound schedule_id _ _ now s)))
        schedule_id _ (λ x. refl)

  pub finish_task-IsSound :
      (results : List ScanExecutionResult) (d d' : Database) (result : Payload)
      → IsSound d
      → finish_task task_id schedule_id worker_id loaded now results d ≡ ok (d', result)
      → IsSound d'
  unfolding finish_task
  finish_task-IsSound [] d d' result s h = cc
  finish_task-IsSound (r ∷ rs) d d' result s h = elim (Option-cases (get schedule_id d.schedules)) [
    | inl e ↦ ground (arith, h, e)
    | inr (scheduled, e) ↦ elim (Option-cases (get task_id d.tasks)) [
      | inl f ↦ ground (arith, h, e, f)
      | inr (t, f) ↦
          let same : ok (commit_result task_id schedule_id worker_id loaded now r rs d)
              ≡ ok (d', result) =
            ground (arith, h, e, f) in
          let after : (commit_result task_id schedule_id worker_id loaded now r rs d).0 ≡ d' = cc in
          rw (← after) (commit_result-IsSound r rs s)
    ]
  ]

module _ (classify : Classifier) (settings : Settings) (task_id : ℕ) (worker_id : String)
    (now : Time) where
  note_failure-IsSound :
      (failure : Failure) {d : Database}
      → IsSound d
      → IsSound (note_failure classify settings task_id worker_id now failure d)
  unfolding note_failure
  note_failure-IsSound failure s =
      note_task-IsSound task_id _ (λ t. refl) (λ t. refl) (λ t. refl)
        (λ t b. record { before = b.before; within = b.within }) s

  record_retry-IsSound :
      (schedule_id : ℕ) (failure : Failure) (n : ℕ) (metadata : Metadata) {d : Database}
      → IsSound d
      → ((t : QueueTask)
          → get task_id d.tasks ≡ some t
          → (is_active t.status ≡ true) × (t.attempt_count < t.max_attempts))
      → IsSound
          (record_retry classify settings task_id worker_id now schedule_id failure n metadata d)
  unfolding record_retry
  record_retry-IsSound schedule_id failure n metadata s left =
      write_schedule-IsSound (mark_queue_task_retry-IsSound task_id _ _ s left) schedule_id _
        (λ r. refl)

  record_failed-IsSound :
      (schedule_id : ℕ) (failure : Failure) (metadata : Metadata) {d : Database}
      → IsSound d
      → IsSound
          (record_failed classify settings task_id worker_id now schedule_id failure metadata d)
  unfolding record_failed
  record_failed-IsSound schedule_id failure metadata s =
      write_schedule-IsSound (mark_queue_task_failed-IsSound task_id _ now s) schedule_id _
        (λ r. refl)

  record_cancelled-IsSound :
      (schedule_id : ℕ) (failure : Failure) (metadata : Metadata) {d : Database}
      → IsSound d
      → IsSound
          (record_cancelled classify settings task_id worker_id now schedule_id failure metadata d)
  unfolding record_cancelled
  record_cancelled-IsSound schedule_id failure metadata s =
      write_schedule-IsSound (mark_queue_task_cancelled-IsSound task_id now s) schedule_id _
        (λ r. refl)

  owned_active : (t : QueueTask) → owned_by worker_id t ≡ true → is_active t.status ≡ true
  unfolding owned_by
  owned_active t h = elim (Bool-cases (is_active t.status)) [
    | inl e ↦ e
    | inr e ↦ ground (arith, h, e)
  ]

  abbrev noted : Failure → QueueTask → QueueTask
  noted failure t = record t {
    metadata_json =
        update t.metadata_json
          (("failure_code", text failure.code) ∷ ("retryable", flag failure.retryable) ∷ []);
  }

  -- The row of an owned task with attempts left, once its failure is noted.
  noted_left :
      (failure : Failure) (d : Database) (t : QueueTask)
      → get task_id d.tasks ≡ some t
      → owned_by worker_id t ≡ true
      → ltb t.attempt_count t.max_attempts ≡ true
      → (u : QueueTask)
      → get task_id (note_failure classify settings task_id worker_id now failure d).tasks ≡ some u
      → (is_active u.status ≡ true) × (u.attempt_count < u.max_attempts)
  unfolding note_failure write_task
  noted_left failure d t at_i owned left u h =
      let there = get-update_where_self task_id (λ _. true) (noted failure) d.tasks in
      (ground (arith, at_i, there, h, owned_active t owned), ground (arith, at_i, there, h, left))

  pub fail_task-IsSound :
      (schedule_id : ℕ) (e : Raised) (d : Database)
      → IsSound d
      → IsSound (fail_task classify settings task_id worker_id now schedule_id e d).0
  unfolding fail_task
  fail_task-IsSound schedule_id e d s = elim (Option-cases (get task_id d.tasks)) [
    | inl f ↦ rw (f, fail_task) s
    | inr (t, f) ↦ elim (Bool-cases (owned_by worker_id t)) [
      | inr lost ↦ rw (f, fail_task) (rw lost s)
      | inl owned ↦ elim (Option-cases (get schedule_id d.schedules)) [
        | inl g ↦ rw (f, fail_task) (rw owned (rw g s))
        | inr (row, g) ↦ elim (Bool-cases (str_eq (failure_of classify e).code "cancelled")) [
          | inl stop ↦
              rw (f, fail_task)
                (rw owned (
                  rw g (
                    rw stop (
                      record_cancelled-IsSound schedule_id (failure_of classify e) row.metadata_json
                        s))))
          | inr go ↦
              elim (Bool-cases
                ((failure_of classify e).retryable && ltb t.attempt_count t.max_attempts)) [
                  | inl again ↦
                      rw (f, fail_task)
                        (rw owned (
                          rw g (
                            rw go (
                              rw again (
                                record_retry-IsSound schedule_id (failure_of classify e)
                                  t.attempt_count row.metadata_json
                                  (note_failure-IsSound (failure_of classify e) s)
                                  (noted_left (failure_of classify e) d t f owned
                                    (ground (arith, again))))))))
                  | inr over ↦
                      rw (f, fail_task)
                        (rw owned (
                          rw g (
                            rw go (
                              rw over (
                                record_failed-IsSound schedule_id (failure_of classify e)
                                  row.metadata_json
                                  (note_failure-IsSound (failure_of classify e) s))))))
                ]
        ]
      ]
    ]
  ]
