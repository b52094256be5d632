-- ===== src/Jobs/Cancel.antt =====
-- `cancel_run` of src/orgscan/services/assessments/jobs.py, for the schedule of an authorized run.
use github_osint_secret_scan.Prelude.{
  ℕ, String, Bool, true, false, Option, none, some, List, [], ◌∷◌, ltb, ◌==◌, keep, if◌then◌else◌,
}
use github_osint_secret_scan.Prelude.Dict.{insert, update}
use github_osint_secret_scan.Prelude.Sort.{sort_by}
use github_osint_secret_scan.Prelude.Table.{get, update_where}
use github_osint_secret_scan.Jobs.Model.{
  Time, text, stamp, QueueTaskStatus, queued, running, cancelled, is_queued, is_running, QueueTask,
  Database,
}
use github_osint_secret_scan.Jobs.Storage.{write_task, write_schedule, release_queue_execution}

pub data CancelReply : Type 0 where
  cancelled_state cancelling_state : CancelReply
  unavailable not_stoppable not_pending : CancelReply

-- ORDER BY id DESC
abbrev higher : ℕ × QueueTask → ℕ × QueueTask → Bool
higher (i, t) (j, u) = ltb j i

abbrev first_row : List (ℕ × QueueTask) → Option (ℕ × QueueTask)
first_row [] = none
first_row (r ∷ rs) = some r

unfoldable pub latest_task : ℕ → Database → Option (ℕ × QueueTask)
latest_task schedule_id d =
    first_row (sort_by higher (keep (λ r. r.1.scheduled_scan_id == schedule_id) d.tasks))

abbrev pub is_final : QueueTaskStatus → Bool
is_final queued = false
is_final running = false
is_final _ = true

module _ (now : Time) (schedule_id : ℕ) where
  unfoldable pub stop_schedule : String → Database → Database
  stop_schedule queue_status d =
      write_schedule schedule_id
        (λ s. record s {
          enabled = false;
          metadata_json =
              update s.metadata_json
                (("cancel_requested_at", stamp now) ∷ ("queue_status", text queue_status) ∷ []);
        })
        d

  -- UPDATE queue_tasks SET status = 'cancelled' … WHERE id = i AND status = 'queued', then the
  -- release of the reservation if it matched.
  unfoldable pub cancel_queued : ℕ → Database → Database
  cancel_queued i d =
      let (tasks', claimed) =
        update_where i (λ t. is_queued t.status)
          (λ t. record t {
            status = cancelled;
            completed_at = some now;
            last_error = some "Operation cancelled by operator";
            lease_owner = none;
            lease_expires_at = none;
          })
          d.tasks in
      let d' = record d { tasks = tasks' } in
      if claimed
      then elim (get i tasks') [ none ↦ d' | some t ↦ release_queue_execution t d' ]
      else d'

  unfoldable pub flag_running : ℕ → Database → Database
  flag_running i d = stop_schedule "cancelling" (
      write_task i
        (λ t. record t { metadata_json = insert "cancel_requested_at" (stamp now) t.metadata_json })
        d)

  abbrev pub running_at : ℕ → Database → Bool
  running_at i d = elim (get i d.tasks) [ none ↦ false | some t ↦ is_running t.status ]

  abbrev pub status_text : QueueTaskStatus → String
  status_text running = "cancelling"
  status_text _ = "cancelled"

  unfoldable pub cancel_task : ℕ → QueueTask → Database → Database × CancelReply
  cancel_task i t d =
      let d' = stop_schedule (status_text t.status) d in
      let d'' = if is_queued t.status then cancel_queued i d' else d' in
      if running_at i d'' then (flag_running i d'', cancelling_state) else (d'', cancelled_state)

  unfoldable pub cancel_run : Database → Database × CancelReply
  cancel_run d = elim (get schedule_id d.schedules) [
    | none ↦ (d, unavailable)
    | some s ↦ elim (latest_task schedule_id d) [
      | none ↦
          if s.enabled then (stop_schedule "cancelled" d, cancelled_state) else (d, not_pending)
      | some (i, t) ↦ if is_final t.status then (d, not_stoppable) else cancel_task i t d
    ]
  ]
