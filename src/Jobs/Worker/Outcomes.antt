-- ===== src/Jobs/Worker/Outcomes.antt =====
-- How a task ends whose worker still owns it: the retry, the failure and the success of
-- `_execute_db_queue_task` of src/orgscan/queueing.py.
use github_osint_secret_scan.Prelude.{
  ℕ, ◌+◌, String, str_eq, ◌≡◌, refl, ap, ◌∙◌, inl, inr, Bool, true, false, ◌&&◌, Option, none, some,
  [], ◌∷◌, Bool-cases, if◌then◌else◌, ltb,
}
use github_osint_secret_scan.Prelude.Dict.{update}
use github_osint_secret_scan.Prelude.Table.{get, update_where, get-update_where_self, updated}
use github_osint_secret_scan.Jobs.Policy.{Failure, Settings, retry_delay}
use github_osint_secret_scan.Jobs.Model.{
  Time, seconds, Metadata, text, flag, queued, failed, QueueTask, ScheduledScan, Database,
}
use github_osint_secret_scan.Jobs.Storage.{
  write_task, write_schedule, mark_queue_task_retry, mark_queue_task_failed,
}
use github_osint_secret_scan.Jobs.Worker.{Raised, Classifier, owned_by, failure_of}
use github_osint_secret_scan.Jobs.Worker.Execute.{
  Reply, execution_error, fail_task, note_failure, record_retry, record_failed,
}

abbrev pub enabled_of : Option ScheduledScan → Option Bool
enabled_of none = none
enabled_of (some s) = some s.enabled

enabled_of-write :
    (i : ℕ) (f : ScheduledScan → ScheduledScan) (d : Database) (s : ScheduledScan)
    → get i d.schedules ≡ some s
    → enabled_of (get i (write_schedule i f d).schedules) ≡ some (f s).enabled
unfolding write_schedule
enabled_of-write i f d s e =
    ap enabled_of (get-update_where_self i (λ _. true) f d.schedules ∙ ap (updated (λ _. true) f) e)

module _ (classify : Classifier) (settings : Settings) (task_id : ℕ) (worker_id : String)
    (now : Time) (schedule_id : ℕ) (failure : Failure) where
  abbrev noted : QueueTask → QueueTask
  noted t = record t {
    metadata_json =
        update t.metadata_json
          (("failure_code", text failure.code) ∷ ("retryable", flag failure.retryable) ∷ []);
  }

  -- The row of a task that is queued once more, after the delay of its failure.
  abbrev pub retried : QueueTask → QueueTask
  retried t = record (noted t) {
    status = queued;
    available_at = now + seconds (retry_delay settings t.attempt_count failure);
    lease_owner = none;
    lease_expires_at = none;
    last_error = some failure.message;
  }

  abbrev pub ended : QueueTask → QueueTask
  ended t = record (noted t) {
    status = failed;
    completed_at = some now;
    lease_owner = none;
    lease_expires_at = none;
    last_error = some failure.message;
  }

  abbrev after_note : Database → Database
  after_note d = note_failure classify settings task_id worker_id now failure d

  record_retry_row :
      (metadata : Metadata) (d : Database) (t : QueueTask)
      → get task_id d.tasks ≡ some t
      → get task_id
          (record_retry classify settings task_id worker_id now schedule_id failure t.attempt_count
            metadata
            (after_note d)).tasks
        ≡ some (retried t)
  unfolding record_retry note_failure write_task write_schedule mark_queue_task_retry
  record_retry_row metadata d t at_i =
      let noted_row = get-update_where_self task_id (λ _. true) noted d.tasks in
      get-update_where_self task_id (λ _. true)
        (λ u. record u {
          status = queued;
          available_at = now + seconds (retry_delay settings t.attempt_count failure);
          lease_owner = none;
          lease_expires_at = none;
          last_error = some failure.message;
        })
        (update_where task_id (λ _. true) noted d.tasks).0
      ∙ rw noted_row (rw at_i refl)

  record_failed_row :
      (metadata : Metadata) (d : Database) (t : QueueTask)
      → get task_id d.tasks ≡ some t
      → get task_id
          (record_failed classify settings task_id worker_id now schedule_id failure metadata
            (after_note d)).tasks
        ≡ some (ended t)
  unfolding record_failed note_failure write_task write_schedule mark_queue_task_failed
  record_failed_row metadata d t at_i =
      let noted_row = get-update_where_self task_id (λ _. true) noted d.tasks in
      get-update_where_self task_id (λ _. true)
        (λ u. record u {
          status = failed;
          completed_at = some now;
          lease_owner = none;
          lease_expires_at = none;
          last_error = some failure.message;
        })
        (update_where task_id (λ _. true) noted d.tasks).0
      ∙ rw noted_row (rw at_i refl)

  record_retry_enabled :
      (n : ℕ) (metadata : Metadata) (d : Database) (s : ScheduledScan)
      → get schedule_id d.schedules ≡ some s
      → enabled_of (
          get schedule_id
            (record_retry classify settings task_id worker_id now schedule_id failure n metadata
              (after_note d)).schedules)
        ≡ some s.enabled
  unfolding record_retry note_failure write_task mark_queue_task_retry
  record_retry_enabled n metadata d s e = enabled_of-write schedule_id _ _ s e

  record_failed_enabled :
      (metadata : Metadata) (d : Database) (s : ScheduledScan)
      → get schedule_id d.schedules ≡ some s
      → enabled_of (
          get schedule_id
            (record_failed classify settings task_id worker_id now schedule_id failure metadata
              (after_note d)).schedules)
        ≡ some false
  unfolding record_failed note_failure write_task mark_queue_task_failed
  record_failed_enabled metadata d s e = enabled_of-write schedule_id _ _ s e

module _ (classify : Classifier) (settings : Settings) (task_id : ℕ) (worker_id : String)
    (now : Time) (schedule_id : ℕ) (e : Raised) (d : Database) (t : QueueTask) (s : ScheduledScan)
    (at_i : get task_id d.tasks ≡ some t) (owned : owned_by worker_id t ≡ true)
    (row : get schedule_id d.schedules ≡ some s)
    (not_stopped : str_eq (failure_of classify e).code "cancelled" ≡ false) where
  abbrev failure : Failure
  failure = failure_of classify e

  -- The failure is transient and the task has an attempt left.
  abbrev pub again : Bool
  again = failure.retryable && ltb t.attempt_count t.max_attempts

  abbrev out : Database × Reply
  out = fail_task classify settings task_id worker_id now schedule_id e d

  -- A failed scan that was not cancelled is tried again exactly if its failure is retryable and an
  -- attempt is left: then the task is queued for the time that the delay of its failure gives,
  -- and its schedule keeps its flag. If not, the task is failed and the schedule disabled.
  -- In both cases the lease is given up and the reply carries the message of the failure.
  pub fail_task-outcome :
      (get task_id out.0.tasks
        ≡ some (
            if again
            then retried classify settings task_id worker_id now schedule_id failure t
            else ended classify settings task_id worker_id now schedule_id failure t))
      × (enabled_of (get schedule_id out.0.schedules) ≡ some (if again then s.enabled else false))
      × (out.1 ≡ execution_error failure.message)
  unfolding fail_task
  fail_task-outcome = elim (Bool-cases again) [
    | inl more ↦ rw more (
        rw (at_i, fail_task)
          (rw owned (
            rw row (
              rw not_stopped (
                rw more (
                  record_retry_row classify settings task_id worker_id now schedule_id failure
                      s.metadata_json d t at_i,
                  record_retry_enabled classify settings task_id worker_id now schedule_id failure
                      t.attempt_count s.metadata_json d s row,
                  refl,
                ))))))
    | inr over ↦ rw over (
        rw (at_i, fail_task)
          (rw owned (
            rw row (
              rw not_stopped (
                rw over (
                  record_failed_row classify settings task_id worker_id now schedule_id failure
                      s.metadata_json d t at_i,
                  record_failed_enabled classify settings task_id worker_id now schedule_id failure
                      s.metadata_json d s row,
                  refl,
                ))))))
  ]
