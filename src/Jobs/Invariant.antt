-- ===== src/Jobs/Invariant.antt =====
-- The invariant of the queue's database: keys, reservations and the budget of attempts.
pub mod Operations
pub mod Worker
pub mod Cancel
pub mod System
use github_osint_secret_scan.Prelude.{
  ℕ, ◌+◌, ◌≤◌, ◌<◌, String, ◌≡◌, ◌≢◌, refl, sym, ap, ◌∙◌, ◌⊎◌, inl, inr, arith, Bool, true, false,
  Option, none, some, List, [], ◌∷◌, Bool-cases, Option-cases,
}
use github_osint_secret_scan.Prelude.Rows.{IsKeyed, update_where-IsKeyed, add_row-IsKeyed}
use github_osint_secret_scan.Prelude.Table.{get, update_where, update_where-Origin, write-Origin}
use github_osint_secret_scan.Jobs.Model.{
  QueueTaskStatus, queued, running, is_queued, is_running, Backend, same_backend, db, QueueTask,
  ScheduledScan, Database,
}
use github_osint_secret_scan.Jobs.Storage.{write_task, write_schedule, released}
use github_osint_secret_scan.Jobs.Storage.Reservation.{
  is_active, IsReserved, update_task-IsReserved,
}
use github_osint_secret_scan.Jobs.Storage.Operations.{write_schedule-IsReserved}
use github_osint_secret_scan.Jobs.Storage.Finish.{finish-IsReserved, tasks-released}

-- A queued task of the database backend has an attempt left, and a running one is within its
-- attempts.
pub record IsBudgeted (t : QueueTask) : Type 0 where
  pub before :
      same_backend t.backend db ≡ true
      → is_queued t.status ≡ true
      → t.attempt_count < t.max_attempts
  pub within :
      same_backend t.backend db ≡ true
      → is_running t.status ≡ true
      → t.attempt_count ≤ t.max_attempts

pub record IsSound (d : Database) : Type 0 where
  pub keyed : IsKeyed d.tasks
  pub reserved : IsReserved d
  pub budgeted : (i : ℕ) (t : QueueTask) → get i d.tasks ≡ some t → IsBudgeted t

idle-IsBudgeted : (t : QueueTask) → is_active t.status ≡ false → IsBudgeted t
idle-IsBudgeted t h = ground arith

module _ {d : Database} (s : IsSound d) (i : ℕ) (p : QueueTask → Bool) (f : QueueTask → QueueTask)
    (keeps_key : (t : QueueTask) → (f t).execution_key ≡ t.execution_key)
    (keeps_schedule : (t : QueueTask) → (f t).scheduled_scan_id ≡ t.scheduled_scan_id)
    (no_revival : (t : QueueTask)
      → get i d.tasks ≡ some t
      → p t ≡ true
      → is_active (f t).status ≡ true
      → is_active t.status ≡ true)
    (in_budget : (t : QueueTask)
      → get i d.tasks ≡ some t
      → p t ≡ true
      → IsBudgeted t
      → IsBudgeted (f t)) where
  pub update_task-IsSound : IsSound (record d { tasks = (update_where i p f d.tasks).0 })
  update_task-IsSound = record {
    keyed = update_where-IsKeyed i p f d.tasks s.keyed;
    reserved = update_task-IsReserved s.reserved i p f keeps_key keeps_schedule no_revival;
    budgeted = λ j t' h.
        let (t, found, how) = update_where-Origin i p f d.tasks j t' h in
        elim how [
          | inl same ↦ rw same (s.budgeted j t found)
          | inr (pt, changed, target) ↦
              rw changed (in_budget t (rw target found) pt (s.budgeted j t found))
        ];
  }

module _ {d : Database} (s : IsSound d) (i : ℕ) (f : QueueTask → QueueTask)
    (keeps_key : (t : QueueTask) → (f t).execution_key ≡ t.execution_key)
    (ends : (t : QueueTask) → is_active (f t).status ≡ false) where
  pub finish-IsSound : IsSound (write_task i f (released i d))
  unfolding write_task
  finish-IsSound = record {
    keyed = update_where-IsKeyed i (λ _. true) f (released i d).tasks (rw tasks-released s.keyed);
    reserved = finish-IsReserved s.reserved i f keeps_key ends;
    budgeted = λ j t' h.
        let (t, found, how) = write-Origin i f (released i d).tasks j t' h in
        elim how [
          | inl (same, other) ↦
              rw same (s.budgeted j t (sym (ap (λ ts. get j ts) (tasks-released i d)) ∙ found))
          | inr (changed, target) ↦
              idle-IsBudgeted t' (ap (λ x. is_active x.status) changed ∙ ends t)
        ];
  }

module _ {d : Database} (s : IsSound d) (i : ℕ) (f : ScheduledScan → ScheduledScan)
    (keeps : (r : ScheduledScan) → (f r).queue_execution_key ≡ r.queue_execution_key) where
  pub write_schedule-IsSound : IsSound (write_schedule i f d)
  unfolding write_schedule
  write_schedule-IsSound = record {
    keyed = s.keyed;
    reserved = write_schedule-IsReserved s.reserved i f keeps;
    budgeted = s.budgeted;
  }
