-- ===== src/Jobs/Storage/Finish.antt =====
-- The end of a task: its reservation is released, and its row becomes inactive.
use github_osint_secret_scan.Prelude.{
  ℕ, String, str_eq, eq_iff, ◌≡◌, ◌≢◌, sym, ap, ◌∙◌, ◌⊎◌, inl, inr, arith, true, false, none, some,
  Bool-cases, Option-cases,
}
use github_osint_secret_scan.Prelude.Table.{get, get-update_where, write-Origin}
use github_osint_secret_scan.Jobs.Model.{QueueTask, Database, holds}
use github_osint_secret_scan.Jobs.Storage.{
  write_task, release_key, release_queue_execution, released,
}
use github_osint_secret_scan.Jobs.Storage.Reservation.{is_active, IsLinked, IsReserved}

-- The reservation invariant for every task but `i`.
abbrev Others : ℕ → Database → Type 0
Others i db =
    (j : ℕ) (t : QueueTask)
    → i ≢ j
    → get j db.tasks ≡ some t
    → is_active t.status ≡ true
    → IsLinked db t

release-IsLinked :
    (sid : ℕ) (k : String) (db : Database) (u : QueueTask)
    → IsLinked db u
    → (u.execution_key ≡ some k → ⊥)
    → IsLinked (release_key sid k db) u
unfolding release_key
release-IsLinked sid k db u (l, u_key, link) other = (
  l,
  u_key,
  ground (
    arith,
    link,
    get-update_where sid u.scheduled_scan_id (λ row. holds row.queue_execution_key k)
        (λ row. record row { queue_execution_key = none }) db.schedules,
    eq_iff l k,
    other,
    u_key,
  ),
)

pub tasks-released : (i : ℕ) (db : Database) → (released i db).tasks ≡ db.tasks
unfolding released release_queue_execution release_key
tasks-released i db = ground arith

-- Either nothing was released, or the key of the task was.
released-cases :
    (i : ℕ) (db : Database)
    → (released i db ≡ db)
      ⊎ ((u : QueueTask) × (k : String) × (get i db.tasks ≡ some u)
          × (u.execution_key ≡ some k)
          × (released i db ≡ release_key u.scheduled_scan_id k db))
unfolding released release_queue_execution
released-cases i db = elim (Option-cases (get i db.tasks)) [
  | inl e ↦ inl (ground (arith, e))
  | inr (u, e) ↦ elim (Option-cases u.execution_key) [
    | inl no_key ↦ inl (ground (arith, e, no_key))
    | inr (k, key) ↦ elim (Bool-cases (str_eq k "")) [
      | inl empty ↦ inl (ground (arith, e, key, empty))
      | inr full ↦ inr (u, k, e, key, ground (arith, e, key, full))
    ]
  ]
]

released-Others : (i : ℕ) {db : Database} → IsReserved db → Others i (released i db)
released-Others i {db} r j t ne at_j a =
    let at_j' : get j db.tasks ≡ some t = sym (ap (λ d. get j d) (tasks-released i db)) ∙ at_j in
    let linked = r.linked j t at_j' a in
    elim (released-cases i db) [
      | inl same ↦ rw same linked
      | inr (u, k, at_i, key, changed) ↦ rw changed (
          release-IsLinked u.scheduled_scan_id k db t linked
            (λ t_key. ne (r.unique i j u t k at_i at_j' key t_key)))
    ]

module _ {db : Database} (r : IsReserved db) (i : ℕ) (f : QueueTask → QueueTask)
    (keeps_key : (t : QueueTask) → (f t).execution_key ≡ t.execution_key)
    (ends : (t : QueueTask) → is_active (f t).status ≡ false) where
  abbrev ended : Database
  ended = write_task i f (released i db)

  -- A row of the ended database: another task's, unchanged, or the ended one.
  abbrev Kept : ℕ → QueueTask → Type 0
  Kept j t' =
      (t : QueueTask) × (get j db.tasks ≡ some t)
      × (t'.execution_key ≡ t.execution_key)
      × ((t' ≡ t) × (i ≢ j) ⊎ (is_active t'.status ≡ false))

  kept : (j : ℕ) (t' : QueueTask) → get j ended.tasks ≡ some t' → Kept j t'
  unfolding write_task
  kept j t' h =
      let (t, found, how) = write-Origin i f (released i db).tasks j t' h in
      let found' : get j db.tasks ≡ some t =
        sym (ap (λ d. get j d) (tasks-released i db)) ∙ found in
      elim how [
        | inl (same, other) ↦ (t, found', ap (λ x. x.execution_key) same, inl (same, other))
        | inr (changed, target) ↦ (
          t,
          found',
          ap (λ x. x.execution_key) changed ∙ keeps_key t,
          inr (ap (λ x. is_active x.status) changed ∙ ends t),
        )
      ]

  pub finish-IsReserved : IsReserved ended
  unfolding write_task
  finish-IsReserved = record {
    linked = λ j t' at_j a.
        let (t, found, key, how) = kept j t' at_j in
        elim how [
          | inl (same, other) ↦ rw same (
              released-Others i r j t other (ap (λ d. get j d) (tasks-released i db) ∙ found)
                (rw same at a))
          | inr idle ↦ cc
        ];
    unique = λ j l t' u' k at_j at_l t_key u_key.
        let (t, found_t, key_t, _) = kept j t' at_j in
        let (u, found_u, key_u, _) = kept l u' at_l in
        r.unique j l t u k found_t found_u (sym key_t ∙ t_key) (sym key_u ∙ u_key);
  }
