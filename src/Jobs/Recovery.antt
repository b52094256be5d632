-- ===== src/Jobs/Recovery.antt =====
-- src/orgscan/services/job_recovery.py: the quarantine of tasks whose lease has run out.
pub mod Quarantine
use github_osint_secret_scan.Prelude.{
  ℕ, String, Bool, true, false, ◌&&◌, not, Option, none, some, List, [], ◌∷◌, leb, if◌then◌else◌,
}
use github_osint_secret_scan.Prelude.Dict.{insert, update}
use github_osint_secret_scan.Prelude.Table.{get}
use github_osint_secret_scan.Jobs.Model.{
  Time, Value, text, stamp, is_running, db, QueueTask, ScheduledScan, Database,
}
use github_osint_secret_scan.Jobs.Storage.{
  write_task, write_schedule, mark_queue_task_failed, list_queue_tasks,
}

abbrev lease_expired : Time → Option Time → Bool
lease_expired now none = false
lease_expired now (some t) = leb t now

unfoldable pub is_stale : Time → QueueTask → Bool
is_stale now t = is_running t.status && lease_expired now t.lease_expires_at

-- The task is failed and its schedule, if there is one, disabled.
unfoldable pub quarantine : Time → ℕ → ℕ → Database → Database
quarantine now i schedule_id d =
    write_schedule schedule_id
      (λ s. record s {
        enabled = false;
        metadata_json =
            update s.metadata_json
              (("queue_status", text "failed") ∷ ("failure_code", text "stale_lease") ∷ []);
      })
      (write_task i
        (λ t. record t {
          metadata_json =
              update t.metadata_json
                (("failure_code", text "stale_lease") ∷ ("recovered_at", stamp now) ∷ []);
        })
        (mark_queue_task_failed i
          "Expired lease quarantined by operator; review incomplete scan jobs" now d))

-- The loop over the tasks that were read: the database, and the ids that it reports.
unfoldable pub recover_rows : Bool → Time → List (ℕ × QueueTask) → Database → Database × List ℕ
recover_rows apply now [] d = (d, [])
recover_rows apply now ((i, t) ∷ rest) d =
    let d' = if is_stale now t && apply then quarantine now i t.scheduled_scan_id d else d in
    let (d'', rows) = recover_rows apply now rest d' in
    (d'', if is_stale now t then i ∷ rows else rows)

unfoldable pub recover_stale_tasks : Bool → String → Time → Database → Database × List ℕ
recover_stale_tasks apply queue_name now d =
    recover_rows apply now (list_queue_tasks db queue_name d) d
