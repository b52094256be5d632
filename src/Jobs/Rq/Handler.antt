-- ===== src/Jobs/Rq/Handler.antt =====
-- Claims of RQ jobs and their publication: `execute_scheduled_scan_job` and
-- `enqueue_due_scheduled_scans` of src/orgscan/queueing.py.
use github_osint_secret_scan.Prelude.{
  ℕ, ◌+◌, String, ◌≡◌, refl, ap, ◌∙◌, inl, inr, arith, Bool, true, false, Option, some,
  Option-cases, Bool-cases, ◌⊎◌, some_injective, if◌then◌else◌, ◌≢◌, [], ◌∷◌, none, eq_iff,
}
use github_osint_secret_scan.Prelude.Table.{
  get, update_where-count, get-update_where_ne, update_where_missed, get-update_where_self,
}
use github_osint_secret_scan.Jobs.Policy.{Settings}
use github_osint_secret_scan.Jobs.Model.{
  Time, seconds, QueueTaskStatus, queued, running, completed, failed, cancelled, QueueTask,
  Database, holds, is_queued, flag,
}
use github_osint_secret_scan.Jobs.Storage.{claimed_row}
use github_osint_secret_scan.Jobs.Worker.{Classifier, Scan}
use github_osint_secret_scan.Jobs.Rq.{rq_claimable, rq_claim, published_by, end_publication}

pub holds-eq : (o : Option String) (k : String) → holds o k ≡ true → o ≡ some k
holds-eq none k h = cc h
holds-eq (some s) k h = ap some ((eq_iff s k).0 h)

pub holds_self : (o : Option String) (k : String) → o ≡ some k → holds o k ≡ true
holds_self none k h = cc h
holds_self (some s) k h = (eq_iff s k).1 (some_injective h)

pub is_queued-eq : (s : QueueTaskStatus) → is_queued s ≡ true → s ≡ queued
is_queued-eq queued h = refl
is_queued-eq running h = cc h
is_queued-eq completed h = cc h
is_queued-eq failed h = cc h
is_queued-eq cancelled h = cc h

module _ (classify : Classifier) (settings : Settings) (scan : Scan) (schedule_id : ℕ)
    (retries_left : Option ℕ) (now : Time) where
  -- Of two deliveries of one task, the second claim fails, whatever its clock says.
  pub rq_claim-exclusive :
      (first second : String) (i : ℕ) (later : Time) (d : Database)
      → (rq_claim classify settings scan schedule_id retries_left now first i d).1 ≡ true
      → (rq_claim classify settings scan schedule_id retries_left later second i
          (rq_claim classify settings scan schedule_id retries_left now first i d).0).1
        ≡ false
  unfolding rq_claim rq_claimable claimed_row
  rq_claim-exclusive first second i later d won =
      let before =
        update_where-count i (rq_claimable classify settings scan schedule_id retries_left now)
          (claimed_row first (now + seconds 600) now) d.tasks in
      let row =
        get-update_where_self i (rq_claimable classify settings scan schedule_id retries_left now)
          (claimed_row first (now + seconds 600) now) d.tasks in
      update_where-count i (rq_claimable classify settings scan schedule_id retries_left later)
        (claimed_row second (later + seconds 600) later) _
      ∙ elim (Option-cases (get i d.tasks)) [
        | inl e ↦ ground (arith, won, before, row, e)
        | inr (t, e) ↦ ground (arith, won, before, row, e)
      ]

-- The row that a publisher leaves of a task that it still leases.
abbrev pub published : Bool → QueueTask → QueueTask
published enqueued t = record t {
  lease_owner = none;
  lease_expires_at = none;
  metadata_json = if enqueued then ("published", flag true) ∷ [] else t.metadata_json;
}

-- The end of a publication gives up the lease of a task that is still queued under it, and notes
-- whether it was enqueued; it changes no other row. If the task is no longer queued, or the lease
-- is not this publisher's, as after the claim of a fast worker, the database stays as it is.
pub end_publication-Ended :
    (publisher : String) (enqueued : Bool) (i : ℕ) (d : Database) (t : QueueTask)
    → get i d.tasks ≡ some t
    → ((t.status ≡ queued)
        × (t.lease_owner ≡ some publisher)
        × (get i (end_publication publisher enqueued i d).tasks ≡ some (published enqueued t))
        × ((j : ℕ) → i ≢ j → get j (end_publication publisher enqueued i d).tasks ≡ get j d.tasks)
        × ((end_publication publisher enqueued i d).schedules ≡ d.schedules))
      ⊎ ((t.status ≡ queued → t.lease_owner ≢ some publisher)
          × (end_publication publisher enqueued i d ≡ d))
unfolding end_publication published_by
end_publication-Ended publisher enqueued i d t at_i = elim (Bool-cases (published_by publisher t)) [
  | inl held ↦ inl (
    is_queued-eq t.status (ground (arith, held)),
    holds-eq t.lease_owner publisher (ground (arith, held)),
    get-update_where_self i (published_by publisher) (published enqueued) d.tasks
        ∙ rw at_i (rw held refl),
    λ j apart. get-update_where_ne i j (published_by publisher) (published enqueued) d.tasks apart,
    refl,
  )
  | inr over ↦ inr (
    λ waiting owns. ground (arith, over, waiting, holds_self t.lease_owner publisher owns),
    ap (λ ts. record d { tasks = ts })
        (update_where_missed i (published_by publisher) (published enqueued) d.tasks (
          update_where-count i (published_by publisher) (published enqueued) d.tasks
          ∙ rw at_i over)),
  )
]
