-- ===== src/Jobs/Storage/Reservation.antt =====
-- The reservation of schedules: `queue_execution_key` of a schedule names its one active task.
use github_osint_secret_scan.Prelude.{
  ℕ, String, ◌≡◌, sym, ap, ◌∙◌, inl, inr, Bool, true, false, Option, none, some,
}
use github_osint_secret_scan.Prelude.Table.{get, update_where, update_where-Origin}
use github_osint_secret_scan.Jobs.Model.{
  QueueTaskStatus, queued, running, QueueTask, ScheduledScan, Database,
}

abbrev pub is_active : QueueTaskStatus → Bool
is_active queued = true
is_active running = true
is_active _ = false

abbrev pub key_of : Option ScheduledScan → Option String
key_of none = none
key_of (some s) = s.queue_execution_key

-- The schedule of the task carries the task's execution key.
abbrev pub IsLinked : Database → QueueTask → Type 0
IsLinked db t =
    (key : String) × (t.execution_key ≡ some key)
    × (key_of (get t.scheduled_scan_id db.schedules) ≡ some key)

-- Every active task holds the reservation of its schedule, and no two tasks share a key (the
-- unique constraint of the column).
pub record IsReserved (db : Database) : Type 0 where
  pub linked :
      (i : ℕ) (t : QueueTask) → get i db.tasks ≡ some t → is_active t.status ≡ true → IsLinked db t
  pub unique :
      (i j : ℕ) (t u : QueueTask) (key : String)
      → get i db.tasks ≡ some t
      → get j db.tasks ≡ some u
      → t.execution_key ≡ some key
      → u.execution_key ≡ some key
      → i ≡ j

-- A schedule has at most one active task.
pub one_active :
    {db : Database}
    → IsReserved db
    → (i j : ℕ) (t u : QueueTask) → get i db.tasks ≡ some t
    → get j db.tasks ≡ some u
    → is_active t.status ≡ true
    → is_active u.status ≡ true
    → t.scheduled_scan_id ≡ u.scheduled_scan_id
    → i ≡ j
one_active {db} r i j t u at_i at_j t_active u_active same =
    let (k, t_key, t_link) = r.linked i t at_i t_active in
    let (l, u_key, u_link) = r.linked j u at_j u_active in
    let keys : some k ≡ some l = sym t_link ∙ ap (λ s. key_of (get s db.schedules)) same ∙ u_link in
    r.unique i j t u k at_i at_j t_key (u_key ∙ sym keys)

-- An UPDATE of a task that keeps its key and its schedule, and makes no finished task active.
module _ {db : Database} (r : IsReserved db) (i : ℕ) (p : QueueTask → Bool)
    (f : QueueTask → QueueTask)
    (keeps_key : (t : QueueTask) → (f t).execution_key ≡ t.execution_key)
    (keeps_schedule : (t : QueueTask) → (f t).scheduled_scan_id ≡ t.scheduled_scan_id)
    (no_revival : (t : QueueTask)
      → get i db.tasks ≡ some t
      → p t ≡ true
      → is_active (f t).status ≡ true
      → is_active t.status ≡ true) where
  abbrev updated_db : Database
  updated_db = record db { tasks = (update_where i p f db.tasks).0 }

  -- The row before, with the same key and schedule, and active if the new row is.
  abbrev Before : ℕ → QueueTask → Type 0
  Before j t' =
      (t : QueueTask) × (get j db.tasks ≡ some t)
      × (t'.execution_key ≡ t.execution_key)
      × (t'.scheduled_scan_id ≡ t.scheduled_scan_id)
      × (is_active t'.status ≡ true → is_active t.status ≡ true)

  before : (j : ℕ) (t' : QueueTask) → get j updated_db.tasks ≡ some t' → Before j t'
  before j t' h =
      let (t, found, how) = update_where-Origin i p f db.tasks j t' h in
      elim how [
        | inl same ↦ (
          t,
          found,
          ap (λ x. x.execution_key) same,
          ap (λ x. x.scheduled_scan_id) same,
          λ a. rw same at a,
        )
        | inr (pt, changed, target) ↦ (
          t,
          found,
          ap (λ x. x.execution_key) changed ∙ keeps_key t,
          ap (λ x. x.scheduled_scan_id) changed ∙ keeps_schedule t,
          λ a. no_revival t (rw target found) pt (rw changed at a),
        )
      ]

  pub update_task-IsReserved : IsReserved updated_db
  update_task-IsReserved = record {
    linked = λ j t' h a.
        let (t, found, key, schedule, active) = before j t' h in
        let (k, t_key, link) = r.linked j t found (active a) in (k, key ∙ t_key, rw schedule link);
    unique = λ j l t' u' k at_j at_l t_key u_key.
        let (t, found_t, key_t, _, _) = before j t' at_j in
        let (u, found_u, key_u, _, _) = before l u' at_l in
        r.unique j l t u k found_t found_u (sym key_t ∙ t_key) (sym key_u ∙ u_key);
  }
