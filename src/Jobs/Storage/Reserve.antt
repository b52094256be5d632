-- ===== src/Jobs/Storage/Reserve.antt =====
-- The reservation of a schedule keeps the reservation invariant, and is refused while one holds.
use github_osint_secret_scan.Prelude.{
  ℕ, String, ◌≡◌, ◌≢◌, refl, sym, ap, ◌∙◌, ◌⊎◌, inl, inr, arith, Bool, true, Option, none, some, [],
  ◌==◌, ==_iff, if◌then◌else◌, some_injective, Bool-cases, Option-cases,
}
use github_osint_secret_scan.Prelude.Table.{
  get, update_where, get-update_where, fresh_id, add_row, get-add_row, get-fresh_id, updated,
  accepts, update_where-count, Table,
}
use github_osint_secret_scan.Prelude.Rows.{IsKeyed, update_where-IsKeyed, add_row-IsKeyed}
use github_osint_secret_scan.Jobs.Model.{Time, queued, Backend, QueueTask, ScheduledScan, Database}
use github_osint_secret_scan.Jobs.Storage.{
  write_task, reservable, create_queue_task, reserve_queue_execution,
}
use github_osint_secret_scan.Jobs.Storage.Reservation.{is_active, key_of, IsLinked, IsReserved}

module _ (key : String) (scheduled_id : ℕ) (next_run_at : Time) (backend : Backend)
    (queue_name : String) (max_attempts : ℕ) (now : Time) (db : Database) where
  abbrev pub new_task : QueueTask
  new_task = record {
    execution_key = some key;
    scheduled_scan_id = scheduled_id;
    backend = backend;
    queue_name = queue_name;
    status = queued;
    attempt_count = 0;
    max_attempts = max_attempts;
    available_at = now;
    lease_owner = none;
    lease_expires_at = none;
    started_at = none;
    completed_at = none;
    result_scan_job_id = none;
    result_tool_run_id = none;
    last_error = none;
    metadata_json = [];
    created_at = now;
  }

  abbrev pub reserve : Option (ℕ × Database)
  reserve =
      reserve_queue_execution key scheduled_id next_run_at backend queue_name max_attempts now db

  -- What a successful reservation leaves in the two tables.
  pub record IsReservation (task_id : ℕ) (db' : Database) : Type 0 where
    pub new_id : get task_id db.tasks ≡ none
    pub was_free : accepts (reservable next_run_at) (get scheduled_id db.schedules) ≡ true
    pub tasks : (j : ℕ) → get j db'.tasks ≡ (if task_id == j then some new_task else get j db.tasks)
    pub schedules :
        (j : ℕ)
        → get j db'.schedules ≡ (
            if scheduled_id == j
            then updated
                (reservable next_run_at)
                (λ row. record row { queue_execution_key = some key })
                (get j db.schedules)
            else get j db.schedules)

  abbrev marked : ScheduledScan → ScheduledScan
  marked row = record row { queue_execution_key = some key }

  abbrev claimed_schedules : Table ScheduledScan × Bool
  claimed_schedules = update_where scheduled_id (reservable next_run_at) marked db.schedules

  abbrev keyed : QueueTask → QueueTask
  keyed t = record t { execution_key = some key }

  abbrev added : Table QueueTask
  added = add_row (record new_task { execution_key = none }) db.tasks

  abbrev result : Database
  result = record {
    tasks = (update_where (fresh_id db.tasks) (λ _. true) keyed added).0;
    schedules = claimed_schedules.0;
  }

  reserve_lem : reserve ≡ (if claimed_schedules.1 then some (fresh_id db.tasks, result) else none)
  unfolding reserve_queue_execution create_queue_task write_task
  reserve_lem = refl

  result-IsReservation : claimed_schedules.1 ≡ true → IsReservation (fresh_id db.tasks) result
  result-IsReservation claimed = record {
    new_id = get-fresh_id db.tasks;
    was_free =
        sym (update_where-count scheduled_id (reservable next_run_at) marked db.schedules)
        ∙ claimed;
    tasks = λ j. ground (
      arith,
      get-update_where (fresh_id db.tasks) j (λ _. true) keyed added,
      get-add_row j (record new_task { execution_key = none }) db.tasks,
    );
    schedules = λ j. get-update_where scheduled_id j (reservable next_run_at) marked db.schedules;
  }

  pub reserve-IsReservation :
      (task_id : ℕ) (db' : Database) → reserve ≡ some (task_id, db') → IsReservation task_id db'
  reserve-IsReservation task_id db' h = elim (Bool-cases claimed_schedules.1) [
    | inl claimed ↦
        let same : some (fresh_id db.tasks, result) ≡ some (task_id, db') =
          sym (rw claimed at reserve_lem) ∙ h in
        let pair : (fresh_id db.tasks, result) ≡ (task_id, db') = some_injective same in
        rw (← ap (λ x. x.0) pair, ← ap (λ x. x.1) pair) (result-IsReservation claimed)
    | inr refused ↦ cc (sym (rw refused at reserve_lem) ∙ h)
  ]

  pub reserve-IsKeyed :
      {task_id : ℕ} {db' : Database}
      → reserve ≡ some (task_id, db')
      → IsKeyed db.tasks
      → IsKeyed db'.tasks
  reserve-IsKeyed {task_id} {db'} h k = elim (Bool-cases claimed_schedules.1) [
    | inl claimed ↦
        let same : some (fresh_id db.tasks, result) ≡ some (task_id, db') =
          sym (rw claimed at reserve_lem) ∙ h in
        let after : result ≡ db' = ap (λ x. x.1) (some_injective same) in
        rw (← after) (
          update_where-IsKeyed (fresh_id db.tasks) (λ _. true) keyed added
            (add_row-IsKeyed (record new_task { execution_key = none }) db.tasks k))
    | inr refused ↦ cc (sym (rw refused at reserve_lem) ∙ h)
  ]

  free_no_key :
      accepts (reservable next_run_at) (get scheduled_id db.schedules) ≡ true
      → key_of (get scheduled_id db.schedules) ≡ none
  unfolding reservable
  free_no_key h = elim (Option-cases (get scheduled_id db.schedules)) [
    | inl e ↦ rw e refl
    | inr (row, e) ↦ elim (Option-cases row.queue_execution_key) [
      | inl free ↦ rw e free
      | inr (k, taken) ↦ ground (arith, h, e, taken)
    ]
  ]

  -- While a schedule has an active task, reserving it once more is refused.
  pub reserve_refused :
      IsReserved db
      → (i : ℕ) (t : QueueTask) → get i db.tasks ≡ some t
      → is_active t.status ≡ true
      → t.scheduled_scan_id ≡ scheduled_id
      → reserve ≡ none
  reserve_refused r i t at_i active same = elim (Option-cases reserve) [
    | inl refused ↦ refused
    | inr ((task_id, db'), h) ↦
        let (k, _, link) = r.linked i t at_i active in
        cc (free_no_key (reserve-IsReservation task_id db' h).was_free, rw same at link)
  ]

  module _ (r : IsReserved db)
      (fresh : (i : ℕ) (t : QueueTask) → get i db.tasks ≡ some t → t.execution_key ≢ some key)
      {task_id : ℕ} {db' : Database} (done : reserve ≡ some (task_id, db')) where
    pub row_cases :
        (j : ℕ) (t : QueueTask)
        → get j db'.tasks ≡ some t
        → ((task_id ≡ j) × (t ≡ new_task)) ⊎ (get j db.tasks ≡ some t)
    row_cases j t h =
        let there = (reserve-IsReservation task_id db' done).tasks j in
        elim (Bool-cases (task_id == j)) [
          | inl same ↦ inl (ground arith, ground (arith, h, there, same))
          | inr other ↦ inr (ground (arith, h, there, other))
        ]

    new-IsLinked : IsLinked db' new_task
    new-IsLinked =
        let made = reserve-IsReservation task_id db' done in
        elim (Option-cases (get scheduled_id db.schedules)) [
          | inl e ↦ ground (arith, made.was_free, e)
          | inr (row, e) ↦
              (key, refl, ground (arith, made.schedules scheduled_id, made.was_free, e))
        ]

    old-IsLinked : (t : QueueTask) → IsLinked db t → IsLinked db' t
    old-IsLinked t (k, t_key, link) =
        let made = reserve-IsReservation task_id db' done in
        (
          k,
          t_key,
          ground (
            arith,
            link,
            made.schedules t.scheduled_scan_id,
            free_no_key made.was_free,
            ==_iff scheduled_id t.scheduled_scan_id,
          ),
        )

    pub reserve-IsReserved : IsReserved db'
    reserve-IsReserved = record {
      linked = λ j t at_j active. elim (row_cases j t at_j) [
        | inl (_, same) ↦ rw same new-IsLinked
        | inr old ↦ old-IsLinked t (r.linked j t old active)
      ];
      unique = λ i j t u k at_i at_j t_key u_key. elim (row_cases i t at_i) [
        | inl (i_new, t_new) ↦ elim (row_cases j u at_j) [
          | inl (j_new, u_new) ↦ sym i_new ∙ j_new
          | inr old ↦ absurd (fresh j u old (u_key ∙ sym t_key ∙ ap (λ x. x.execution_key) t_new))
        ]
        | inr old_i ↦ elim (row_cases j u at_j) [
          | inl (j_new, u_new) ↦
              absurd (fresh i t old_i (t_key ∙ sym u_key ∙ ap (λ x. x.execution_key) u_new))
          | inr old_j ↦ r.unique i j t u k old_i old_j t_key u_key
        ]
      ];
    }
