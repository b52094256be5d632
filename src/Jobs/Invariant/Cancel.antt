-- ===== src/Jobs/Invariant/Cancel.antt =====
-- A cancellation of src/orgscan/services/assessments/jobs.py keeps the invariant.
use github_osint_secret_scan.Prelude.{
  ℕ, ◌≡◌, refl, inl, inr, arith, Bool, true, false, none, some, str_eq, String, if◌then◌else◌,
  Bool-cases, Option-cases,
}
use github_osint_secret_scan.Prelude.Table.{get, update_where, get-update_where_self, accepts}
use github_osint_secret_scan.Jobs.Model.{Time, is_queued, cancelled, QueueTask, Database}
use github_osint_secret_scan.Jobs.Storage.{
  write_task, released, release_queue_execution, release_key,
}
use github_osint_secret_scan.Jobs.Cancel.{
  stop_schedule, cancel_queued, flag_running, cancel_task, cancel_run, latest_task, is_final,
  running_at, status_text,
}
use github_osint_secret_scan.Jobs.Invariant.{IsSound, finish-IsSound, write_schedule-IsSound}
use github_osint_secret_scan.Jobs.Invariant.Operations.{note_task-IsSound}

module _ (now : Time) (schedule_id : ℕ) where
  abbrev ended : QueueTask → QueueTask
  ended t = record t {
    status = cancelled;
    completed_at = some now;
    last_error = some "Operation cancelled by operator";
    lease_owner = none;
    lease_expires_at = none;
  }

  -- The conditional UPDATE and the release amount to the release and the write.
  cancel_queued_lem :
      (i : ℕ) (d : Database)
      → cancel_queued now schedule_id i d ≡ (
          if accepts (λ t. is_queued t.status) (get i d.tasks)
          then write_task i ended (released i d)
          else d)
  unfolding cancel_queued write_task released release_queue_execution release_key update_where
  cancel_queued_lem i d = elim (Option-cases (get i d.tasks)) [
    | inl e ↦ ground (arith, e)
    | inr (t, e) ↦ elim (Bool-cases (is_queued t.status)) [
      | inr idle ↦ ground (arith, e, idle)
      | inl waiting ↦ elim (Option-cases t.execution_key) [
        | inl no_key ↦ ground (
          arith,
          e,
          waiting,
          no_key,
          get-update_where_self i (λ t. is_queued t.status) ended d.tasks,
        )
        | inr (k, key) ↦ elim (Bool-cases (str_eq k "")) [
          | inl empty ↦ ground (
            arith,
            e,
            waiting,
            key,
            empty,
            get-update_where_self i (λ t. is_queued t.status) ended d.tasks,
          )
          | inr full ↦ ground (
            arith,
            e,
            waiting,
            key,
            full,
            get-update_where_self i (λ t. is_queued t.status) ended d.tasks,
          )
        ]
      ]
    ]
  ]

  cancel_queued-IsSound :
      (i : ℕ) {d : Database} → IsSound d → IsSound (cancel_queued now schedule_id i d)
  cancel_queued-IsSound i {d} s =
      rw (cancel_queued_lem i d)
        (elim (Bool-cases (accepts (λ t. is_queued t.status) (get i d.tasks))) [
          | inl hit ↦ rw hit (finish-IsSound s i ended (λ t. refl) (λ t. refl))
          | inr miss ↦ rw miss s
        ])

  stop_schedule-IsSound :
      (queue_status : String) {d : Database}
      → IsSound d
      → IsSound (stop_schedule now schedule_id queue_status d)
  unfolding stop_schedule
  stop_schedule-IsSound queue_status s = write_schedule-IsSound s schedule_id _ (λ r. refl)

  flag_running-IsSound :
      (i : ℕ) {d : Database} → IsSound d → IsSound (flag_running now schedule_id i d)
  unfolding flag_running
  flag_running-IsSound i s = stop_schedule-IsSound "cancelling" (
      note_task-IsSound i _ (λ t. refl) (λ t. refl) (λ t. refl)
        (λ t b. record { before = b.before; within = b.within }) s)

  if-IsSound : (b : Bool) {d d' : Database} → IsSound d → IsSound d' → IsSound (if b then d else d')
  if-IsSound true s s' = s
  if-IsSound false s s' = s'

  abbrev cancelled_first : ℕ → QueueTask → Database → Database
  cancelled_first i t d =
      let d' = stop_schedule now schedule_id (status_text now schedule_id t.status) d in
      if is_queued t.status then cancel_queued now schedule_id i d' else d'

  cancel_task-IsSound :
      (i : ℕ) (t : QueueTask) {d : Database}
      → IsSound d
      → IsSound (cancel_task now schedule_id i t d).0
  unfolding cancel_task
  cancel_task-IsSound i t {d} s =
      let stopped = stop_schedule-IsSound (status_text now schedule_id t.status) s in
      let after = if-IsSound (is_queued t.status) (cancel_queued-IsSound i stopped) stopped in
      elim (Bool-cases (running_at now schedule_id i (cancelled_first i t d))) [
        | inl e ↦ rw (e, cancel_task) (flag_running-IsSound i after)
        | inr e ↦ rw (e, cancel_task) after
      ]

  pub cancel_run-IsSound : {d : Database} → IsSound d → IsSound (cancel_run now schedule_id d).0
  unfolding cancel_run
  cancel_run-IsSound {d} s = elim (Option-cases (get schedule_id d.schedules)) [
    | inl e ↦ rw (e, cancel_run) s
    | inr (row, e) ↦ elim (Option-cases (latest_task schedule_id d)) [
      | inl f ↦ elim (Bool-cases row.enabled) [
        | inl on ↦
            rw (e, cancel_run) (rw (f, cancel_run) (rw on (stop_schedule-IsSound "cancelled" s)))
        | inr off ↦ rw (e, cancel_run) (rw (f, cancel_run) (rw off s))
      ]
      | inr ((i, t), f) ↦ elim (Bool-cases (is_final t.status)) [
        | inl done ↦ rw (e, cancel_run) (rw (f, cancel_run) (rw done s))
        | inr active ↦
            rw (e, cancel_run) (rw (f, cancel_run) (rw active (cancel_task-IsSound i t s)))
      ]
    ]
  ]
