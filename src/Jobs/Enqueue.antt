-- ===== src/Jobs/Enqueue.antt =====
-- `_reserve_due` of src/orgscan/queueing.py: the due schedules get a durable task each.
use github_osint_secret_scan.Prelude.{ℕ, ◌+◌, String, Option, none, some, List, [], ◌∷◌, take}
use github_osint_secret_scan.Prelude.Dict.{update}
use github_osint_secret_scan.Jobs.Policy.{Settings, retry_limit}
use github_osint_secret_scan.Jobs.Model.{
  Time, null, num, text, stamp, Backend, rq, db, ScheduledScan, Database,
}
use github_osint_secret_scan.Jobs.Storage.{
  write_schedule, reserve_queue_execution, list_due_scheduled_scans,
}

abbrev backend_text : Backend → String
backend_text rq = "rq"
backend_text db = "db"

module _ (settings : Settings) (backend : Backend) (now : Time) where
  unfoldable pub note_queued : ℕ → ℕ → String → Database → Database
  note_queued schedule_id task_id key d =
      write_schedule schedule_id
        (λ s. record s {
          metadata_json = update s.metadata_json (
              ("queue_status", text "queued")
              ∷ ("queue_backend", text (backend_text backend))
              ∷ ("queue_task_id", num task_id)
              ∷ ("queue_job_id", text key)
              ∷ ("queue_name", text settings.scan_queue_name)
              ∷ ("queued_at", stamp now)
              ∷ ("last_error", null)
              ∷ []);
        })
        d

  -- One schedule of the loop: `none` if another process holds it.
  unfoldable pub reserve_one : String → ℕ × ScheduledScan → Database → Option (ℕ × Database)
  reserve_one key (schedule_id, s) d =
      elim (reserve_queue_execution key schedule_id s.next_run_at backend settings.scan_queue_name
        (retry_limit settings + 1) now d) [
          | none ↦ none
          | some (task_id, d') ↦ some (task_id, note_queued schedule_id task_id key d')
        ]

  -- `fresh n` is the key that the n-th call of `uuid.uuid4` gives.
  unfoldable pub reserve_rows :
      (ℕ → String) → ℕ → List (ℕ × ScheduledScan) → Database → Database × List ℕ
  reserve_rows fresh n [] d = (d, [])
  reserve_rows fresh n (row ∷ rest) d = elim (reserve_one (fresh n) row d) [
    | none ↦ reserve_rows fresh (n + 1) rest d
    | some (task_id, d') ↦
        let (d'', queued) = reserve_rows fresh (n + 1) rest d' in (d'', task_id ∷ queued)
  ]

  unfoldable pub reserve_due : (ℕ → String) → ℕ → Option (List ℕ) → Database → Database × List ℕ
  reserve_due fresh limit schedule_ids d =
      reserve_rows fresh 0 (take limit (list_due_scheduled_scans now schedule_ids d)) d
