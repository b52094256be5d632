-- ===== src/Jobs/Recovery/Quarantine.antt =====
-- What the recovery of src/orgscan/services/job_recovery.py leaves in the queue.
use mathlib.Core.List.{Memᴰ}
use github_osint_secret_scan.Prelude.{
  ℕ, String, ◌≡◌, ◌≢◌, refl, sym, ap, inl, inr, arith, Bool, true, false, ◌&&◌, none, some, List,
  [], ◌∷◌, ◌==◌, str_eq, if◌then◌else◌, Bool-cases, Option-cases,
}
use github_osint_secret_scan.Prelude.Sort.{mem-sort_by}
use github_osint_secret_scan.Prelude.Dict.{update}
use github_osint_secret_scan.Prelude.Rows.{mem-keep, mem-of-get}
use github_osint_secret_scan.Prelude.Table.{get, update_where, get-update_where, updated}
use github_osint_secret_scan.Jobs.Model.{
  Time, db, same_backend, failed, text, stamp, QueueTask, Database,
}
use github_osint_secret_scan.Jobs.Storage.{
  write_task, write_schedule, mark_queue_task_failed, list_queue_tasks, newer,
}
use github_osint_secret_scan.Jobs.Recovery.{is_stale, quarantine, recover_rows, recover_stale_tasks}

-- The row of a quarantined task.
abbrev pub quarantined : Time → QueueTask → QueueTask
quarantined now t = record t {
  status = failed;
  completed_at = some now;
  lease_owner = none;
  lease_expires_at = none;
  last_error = some "Expired lease quarantined by operator; review incomplete scan jobs";
  metadata_json =
      update t.metadata_json
        (("failure_code", text "stale_lease") ∷ ("recovered_at", stamp now) ∷ []);
}

abbrev marked : Time → QueueTask → QueueTask
marked now t = record t {
  status = failed;
  completed_at = some now;
  lease_owner = none;
  lease_expires_at = none;
  last_error = some "Expired lease quarantined by operator; review incomplete scan jobs";
}

abbrev noted : Time → QueueTask → QueueTask
noted now t = record t {
  metadata_json =
      update t.metadata_json
        (("failure_code", text "stale_lease") ∷ ("recovered_at", stamp now) ∷ []);
}

quarantine-row :
    (now : Time) (i sid j : ℕ) (d : Database)
    → get j (quarantine now i sid d).tasks
      ≡ (if i == j then updated (λ _. true) (quarantined now) (get j d.tasks) else get j d.tasks)
unfolding quarantine write_task write_schedule mark_queue_task_failed
quarantine-row now i sid j d =
    let first = get-update_where i j (λ _. true) (marked now) d.tasks in
    let second =
      get-update_where i j (λ _. true) (noted now)
        (update_where i (λ _. true) (marked now) d.tasks).0 in
    elim (Option-cases (get j d.tasks)) [
      | inl e ↦ ground (arith, e, first, second)
      | inr (t, e) ↦ ground (arith, e, first, second)
    ]

quarantined_fresh : (now : Time) (t : QueueTask) → is_stale now (quarantined now t) ≡ false
unfolding is_stale
quarantined_fresh now t = refl

-- A row that is stale afterwards was there before.
quarantine_stale :
    (now : Time) (i sid j : ℕ) (d : Database) (u : QueueTask)
    → get j (quarantine now i sid d).tasks ≡ some u
    → is_stale now u ≡ true
    → (get j d.tasks ≡ some u) × (i ≢ j)
quarantine_stale now i sid j d u h stale =
    let there = quarantine-row now i sid j d in
    elim (Option-cases (get j d.tasks)) [
      | inl e ↦ ground (arith, e, there, h)
      | inr (t, e) ↦ (
        ground (arith, e, there, h, stale, quarantined_fresh now t),
        ground (arith, e, there, h, stale, quarantined_fresh now t),
      )
    ]

recover_rows_stale :
    (apply : Bool) (now : Time) (rows : List (ℕ × QueueTask)) (j : ℕ) (d : Database) (u : QueueTask)
    → get j (recover_rows apply now rows d).0.tasks ≡ some u
    → is_stale now u ≡ true
    → get j d.tasks ≡ some u
unfolding recover_rows
recover_rows_stale apply now [] j d u h stale = h
recover_rows_stale apply now ((i, t) ∷ rest) j d u h stale =
    elim (Bool-cases (is_stale now t && apply)) [
      | inl e ↦
          (quarantine_stale now i t.scheduled_scan_id j d u
            (recover_rows_stale apply now rest j _ u (rw e at h) stale) stale).0
      | inr e ↦ recover_rows_stale apply now rest j d u (rw e at h) stale
    ]

recover_rows_complete :
    (now : Time) (rows : List (ℕ × QueueTask)) (j : ℕ) (d : Database) (t u : QueueTask)
    → Memᴰ (j, t) rows
    → is_stale now t ≡ true
    → get j (recover_rows true now rows d).0.tasks ≡ some u
    → is_stale now u ≡ false
unfolding recover_rows
recover_rows_complete now [] j d t u m stale h = elim m [ ]
recover_rows_complete now ((i, s) ∷ rest) j d t u (Memᴰ.head p) stale h =
    let same_id : j ≡ i = ap (λ r. r.0) p in
    let same_row : t ≡ s = ap (λ r. r.1) p in
    let hit : (is_stale now s && true) ≡ true = ground (arith, rw same_row at stale) in
    elim (Bool-cases (is_stale now u)) [
      | inr fresh ↦ fresh
      | inl again ↦ absurd (
          (quarantine_stale now i s.scheduled_scan_id j d u
              (recover_rows_stale true now rest j _ u (rw hit at h) again) again).1
            (sym same_id))
    ]
recover_rows_complete now ((i, s) ∷ rest) j d t u (Memᴰ.tail m) stale h =
    recover_rows_complete now rest j _ t u m stale h

recover_rows_dry :
    (now : Time) (rows : List (ℕ × QueueTask)) (d : Database)
    → (recover_rows false now rows d).0 ≡ d
unfolding recover_rows
recover_rows_dry now [] d = refl
recover_rows_dry now ((i, t) ∷ rest) d = elim (Bool-cases (is_stale now t)) [
  | inl e ↦ rw e (recover_rows_dry now rest d)
  | inr e ↦ rw e (recover_rows_dry now rest d)
]

-- A dry run of the recovery reports and changes nothing.
pub recover_stale_tasks_dry :
    (queue_name : String) (now : Time) (d : Database)
    → (recover_stale_tasks false queue_name now d).0 ≡ d
unfolding recover_stale_tasks
recover_stale_tasks_dry queue_name now d = recover_rows_dry now (list_queue_tasks db queue_name d) d

-- After an applied recovery no task of the database backend in that queue is left running under a
-- lease that has run out.
pub recover_stale_tasks_complete :
    (queue_name : String) (now : Time) (d : Database) (j : ℕ) (u : QueueTask)
    → get j (recover_stale_tasks true queue_name now d).0.tasks ≡ some u
    → same_backend u.backend db ≡ true
    → str_eq u.queue_name queue_name ≡ true
    → is_stale now u ≡ false
unfolding recover_stale_tasks list_queue_tasks
recover_stale_tasks_complete queue_name now d j u h of_db of_queue =
    elim (Bool-cases (is_stale now u)) [
      | inr fresh ↦ fresh
      | inl stale ↦
          let listed = list_queue_tasks db queue_name d in
          let before = recover_rows_stale true now listed j d u h stale in
          let member : Memᴰ (j, u) listed = mem-sort_by newer _ (
            mem-keep (λ row. same_backend row.1.backend db && str_eq row.1.queue_name queue_name)
              d.tasks (mem-of-get j d.tasks before) (ground (arith, of_db, of_queue))) in
          recover_rows_complete now listed j d u u member stale h
    ]
