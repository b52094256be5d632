-- ===== src/Jobs/Storage/Claim.antt =====
-- `claim_queue_task`: which task a worker gets, and that no two workers get the same one.
pub mod Progress
use mathlib.Core.List.{Memᴰ}
use github_osint_secret_scan.Prelude.{
  ℕ, String, ◌≡◌, ◌≢◌, refl, sym, ap, ◌∙◌, ◌⊎◌, inl, inr, arith, Bool, true, false, Option, none,
  some, List, [], ◌∷◌, All, keep, Bool-cases, Option-cases, some_injective,
}
use github_osint_secret_scan.Prelude.Sort.{
  sort_by, All-sort_by, mem-sort_by, IsOrdered, sort_by-IsOrdered,
}
use github_osint_secret_scan.Prelude.Rows.{
  mem-keep, All-keep, All-mem, mem-of-get, IsKeyed, get-of-mem,
}
use github_osint_secret_scan.Prelude.Table.{
  get, set_row, get-update_where_ne, get-update_where_self, update_where_missed, update_where-count,
  update_where_set, accepts,
}
use github_osint_secret_scan.Jobs.Model.{Time, Backend, QueueTask, Database}
use github_osint_secret_scan.Jobs.Storage.{
  is_candidate, earlier, claimable, claimed_row, claim_one, claim_candidates, claim_queue_task,
}

earlier_asym : (a b : ℕ × QueueTask) → earlier a b ≡ true → earlier b a ≡ false
unfolding earlier
earlier_asym (i, t) (j, u) h = ground arith

earlier_trans :
    (a b c : ℕ × QueueTask) → earlier a b ≡ true → earlier b c ≡ true → earlier a c ≡ true
unfolding earlier
earlier_trans (i, t) (j, u) (k, v) h g = ground arith

earlier_irrefl : (a : ℕ × QueueTask) → earlier a a ≡ false
unfolding earlier
earlier_irrefl (i, t) = ground arith

module _ (worker_id : String) (lease_until current : Time) where
  abbrev takes : ℕ → Database → Bool
  takes i db = accepts (claimable current) (get i db.tasks)

  abbrev loop : List (ℕ × QueueTask) → Database → Option ℕ × Database
  loop rows db = claim_candidates worker_id lease_until current rows db

  claim_one_count :
      (i : ℕ) (db : Database) → (claim_one worker_id lease_until current i db).1 ≡ takes i db
  unfolding claim_one
  claim_one_count i db =
      update_where-count i (claimable current) (claimed_row worker_id lease_until current) db.tasks

  claim_one_missed :
      (i : ℕ) (db : Database)
      → takes i db ≡ false
      → (claim_one worker_id lease_until current i db).0 ≡ db
  unfolding claim_one
  claim_one_missed i db h =
      ap (λ ts. record db { tasks = ts })
        (update_where_missed i (claimable current) (claimed_row worker_id lease_until current)
          db.tasks (claim_one_count i db ∙ h))

  -- The loop takes the first row that the compare-and-set accepts.
  record IsFirst (rows : List (ℕ × QueueTask)) (db : Database) (row : ℕ × QueueTask) : Type 0 where
    result : loop rows db ≡ (some row.0, (claim_one worker_id lease_until current row.0 db).0)
    taken : takes row.0 db ≡ true
    member : Memᴰ row rows
    first : IsOrdered earlier rows → All (λ r. takes r.0 db ≡ true → earlier r row ≡ false) rows

  record IsMissed (rows : List (ℕ × QueueTask)) (db : Database) : Type 0 where
    result : loop rows db ≡ (none, db)
    none_taken : All (λ r. takes r.0 db ≡ false) rows

  ignore :
      (P : ℕ × QueueTask → Bool) (row : ℕ × QueueTask) (rows : List (ℕ × QueueTask))
      → All (λ r. earlier r row ≡ false) rows
      → All (λ r. P r ≡ true → earlier r row ≡ false) rows
  ignore P row [] h = tt
  ignore P row (r ∷ rows) h = (λ _. h.0, ignore P row rows h.1)

  loop_skip :
      (i : ℕ) (t : QueueTask) (rest : List (ℕ × QueueTask)) (db : Database)
      → takes i db ≡ false
      → loop ((i, t) ∷ rest) db ≡ loop rest db
  unfolding claim_candidates
  loop_skip i t rest db miss =
      rw (claim_one_count i db ∙ miss, claim_candidates)
        (ap (λ d. loop rest d) (claim_one_missed i db miss))

  loop_cases :
      (rows : List (ℕ × QueueTask)) (db : Database)
      → IsMissed rows db ⊎ ((row : ℕ × QueueTask) × IsFirst rows db row)
  unfolding claim_candidates
  loop_cases [] db = inl (record { result = refl; none_taken = tt })
  loop_cases ((i, t) ∷ rest) db = elim (Bool-cases (takes i db)) [
    | inl hit ↦ inr (
      (i, t),
      record {
        result = rw (claim_one_count i db ∙ hit, claim_candidates) refl;
        taken = hit;
        member = Memᴰ.head refl;
        first = λ o. (λ _. earlier_irrefl (i, t), ignore (λ r. takes r.0 db) (i, t) rest o.0);
      },
    )
    | inr miss ↦ elim (loop_cases rest db) [
      | inl none_hit ↦ inl (record {
        result = loop_skip i t rest db miss ∙ none_hit.result;
        none_taken = (miss, none_hit.none_taken);
      })
      | inr (row, f) ↦ inr (
        row,
        record {
          result = loop_skip i t rest db miss ∙ f.result;
          taken = f.taken;
          member = Memᴰ.tail f.member;
          first = λ o. (λ hit. cc (hit, miss), f.first o.1);
        },
      )
    ]
  ]

-- The rows that a worker may take now.
abbrev pub IsEligible :
    Backend → String → Time → Option (List ℕ) → Database → ℕ → QueueTask → Type 0
IsEligible backend queue_name current schedule_ids db i t =
    (get i db.tasks ≡ some t)
    × (is_candidate backend queue_name current schedule_ids (i, t) ≡ true)
    × (claimable current t ≡ true)

module _ (backend : Backend) (queue_name worker_id : String) (lease_until current : Time)
    (schedule_ids : Option (List ℕ)) (db : Database) (keyed : IsKeyed db.tasks) where
  abbrev Eligible : ℕ → QueueTask → Type 0
  Eligible i t = IsEligible backend queue_name current schedule_ids db i t

  abbrev candidates : List (ℕ × QueueTask)
  candidates =
      sort_by earlier (keep (is_candidate backend queue_name current schedule_ids) db.tasks)

  abbrev claim : Option ℕ × Database
  claim = claim_queue_task backend queue_name worker_id lease_until current schedule_ids db

  -- A worker got task `i`, whose row was `t`: the first eligible one, and nothing else changed.
  pub record IsClaim (i : ℕ) (t : QueueTask) (db' : Database) : Type 0 where
    pub eligible : Eligible i t
    pub first : (j : ℕ) (u : QueueTask) → Eligible j u → earlier (j, u) (i, t) ≡ false
    pub tasks : db'.tasks ≡ set_row i (claimed_row worker_id lease_until current t) db.tasks
    pub row : get i db'.tasks ≡ some (claimed_row worker_id lease_until current t)
    pub others : (j : ℕ) → i ≢ j → get j db'.tasks ≡ get j db.tasks
    pub schedules : db'.schedules ≡ db.schedules

  abbrev IsCandidate : ℕ × QueueTask → Type 0
  IsCandidate r =
      (is_candidate backend queue_name current schedule_ids r ≡ true)
      × (get r.0 db.tasks ≡ some r.1)

  IsCandidate-rows : All IsCandidate candidates
  IsCandidate-rows = All-sort_by earlier IsCandidate _ (
      All-keep IsCandidate (is_candidate backend queue_name current schedule_ids) db.tasks
        (λ r kept m. (kept, get-of-mem r.0 db.tasks r.1 keyed m)))

  eligible_takes :
      (j : ℕ) (u : QueueTask)
      → get j db.tasks ≡ some u
      → takes worker_id lease_until current j db ≡ claimable current u
  eligible_takes j u at_j = ap (accepts (claimable current)) at_j

  eligible_member : (j : ℕ) (u : QueueTask) → Eligible j u → Memᴰ (j, u) candidates
  eligible_member j u e = mem-sort_by earlier _ (
      mem-keep (is_candidate backend queue_name current schedule_ids) db.tasks
        (mem-of-get j db.tasks e.0) e.1)

  found-IsClaim :
      (row : ℕ × QueueTask)
      → IsFirst worker_id lease_until current candidates db row
      → IsClaim row.0 row.1 (claim_one worker_id lease_until current row.0 db).0
  unfolding claim_one
  found-IsClaim (i, t) f =
      let is_row = All-mem IsCandidate candidates IsCandidate-rows f.member in
      let ordered = sort_by-IsOrdered earlier earlier_asym earlier_trans _ in
      let taken = sym (eligible_takes i t is_row.1) ∙ f.taken in
      record {
        tasks =
            update_where_set i (claimable current) (claimed_row worker_id lease_until current)
              db.tasks t is_row.1 taken;
        eligible = (is_row.1, is_row.0, taken);
        first = λ j u e.
            All-mem
              (λ r. takes worker_id lease_until current r.0 db ≡ true → earlier r (i, t) ≡ false)
              candidates (f.first ordered) (eligible_member j u e) (eligible_takes j u e.0 ∙ e.2);
        row =
            get-update_where_self i (claimable current) (claimed_row worker_id lease_until current)
              db.tasks
            ∙ ground (arith, is_row.1, taken);
        others = λ j ne.
            get-update_where_ne i j (claimable current) (claimed_row worker_id lease_until current)
              db.tasks ne;
        schedules = refl;
      }

  -- A claim takes the first eligible task of the queue in the order of the columns `available_at`
  -- and `id`, marks it as running under a lease of this worker with one attempt more, and changes
  -- no other row; it returns nothing and changes nothing exactly if no task is eligible.
  pub claim_queue_task-IsClaim :
      ((claim ≡ (none, db)) × ((j : ℕ) (u : QueueTask) → Eligible j u → ⊥))
      ⊎ ((i : ℕ) × (t : QueueTask) × (db' : Database) × (claim ≡ (some i, db')) × IsClaim i t db')
  unfolding claim_queue_task
  claim_queue_task-IsClaim = elim (loop_cases worker_id lease_until current candidates db) [
    | inl missed ↦ inl (
      missed.result,
      λ j u e.
          let refused =
            All-mem (λ r. takes worker_id lease_until current r.0 db ≡ false) candidates
              missed.none_taken (eligible_member j u e) in
          cc (refused, eligible_takes j u e.0, e.2),
    )
    | inr (row, f) ↦ inr (
      row.0,
      row.1,
      (claim_one worker_id lease_until current row.0 db).0,
      f.result,
      found-IsClaim row f,
    )
  ]

-- A task that was just claimed is claimed by nobody else.
claim_one_closed :
    (w : String) (l c : Time) (v : String) (l' c' : Time) (i : ℕ) (db : Database)
    → takes w l c i db ≡ true
    → takes v l' c' i (claim_one w l c i db).0 ≡ false
unfolding claim_one claimable claimed_row
claim_one_closed w l c v l' c' i db h = elim (Option-cases (get i db.tasks)) [
  | inl e ↦ ground (arith, h, e)
  | inr (t, e) ↦
      ground (arith, h, e, get-update_where_self i (claimable c) (claimed_row w l c) db.tasks)
]

-- Of two workers that saw the same queued rows, the second never gets the task that the first
-- one just took, whatever rows it read and whatever its clock says.
pub claim_candidates-exclusive :
    (worker_id other_id : String) (lease_until current lease_until' current' : Time)
    (rows rows' : List (ℕ × QueueTask)) (db db' : Database) (i : ℕ)
    → claim_candidates worker_id lease_until current rows db ≡ (some i, db')
    → (claim_candidates other_id lease_until' current' rows' db').0 ≢ some i
claim_candidates-exclusive w v l c l' c' rows rows' db db' i h h' =
    elim (loop_cases w l c rows db) [
      | inl missed ↦ cc (h, missed.result)
      | inr (row, f) ↦ elim (loop_cases v l' c' rows' db') [
        | inl missed' ↦ cc (h', missed'.result)
        | inr (row', f') ↦
            let both = sym f.result ∙ h in
            let mine : row.0 ≡ i = some_injective (ap (λ x. x.0) both) in
            let theirs : row'.0 ≡ i = some_injective (sym (ap (λ x. x.0) f'.result) ∙ h') in
            let after : (claim_one w l c row.0 db).0 ≡ db' = ap (λ x. x.1) both in
            let taken : takes v l' c' row.0 (claim_one w l c row.0 db).0 ≡ true =
              rw (after, mine) (rw theirs at f'.taken) in
            cc (taken, claim_one_closed w l c v l' c' row.0 db f.taken)
      ]
    ]
