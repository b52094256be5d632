-- ===== src/Jobs/Storage/Claim/Progress.antt =====
-- Repeated calls of `claim_queue_task`, src/orgscan/repositories.py, as the workers of a queue make
-- them: no eligible task is passed over forever.
use mathlib.Core.List.{Memᴰ}
use mathlib.Core.Path.{subst⁻¹}
use github_osint_secret_scan.Prelude.{
  suc, some_injective, ℕ, ◌≤◌, String, ◌≡◌, ◌≢◌, refl, sym, ap, ◌∙◌, inl, inr, arith, true, false,
  Option, some, List, [], ◌∷◌, All, length, Bool-cases, ◌==◌, ==_iff,
}
use github_osint_secret_scan.Prelude.Rows.{IsKeyed, set_row-IsKeyed}
use github_osint_secret_scan.Prelude.Table.{get, count, count-set_row}
use github_osint_secret_scan.Jobs.Model.{Time, is_queued, Backend, QueueTask, Database}
use github_osint_secret_scan.Jobs.Storage.{is_candidate, claimable, claimed_row, claim_queue_task}
use github_osint_secret_scan.Jobs.Storage.Claim.{IsClaim, claim_queue_task-IsClaim}

-- The arguments of one call that differ between workers.
pub record ClaimCall : Type 0 where
  pub worker_id : String
  pub lease_until : Time
  pub current : Time
  pub schedule_ids : Option (List ℕ)

-- The row that a call leaves of a task.
abbrev pub claimed_by : ClaimCall → QueueTask → QueueTask
claimed_by c t = claimed_row c.worker_id c.lease_until c.current t

abbrev pub queued_count : Database → ℕ
queued_count d = count (λ t. is_queued t.status) d.tasks

module _ (backend : Backend) (queue_name : String) where
  abbrev claim : ClaimCall → Database → Option ℕ × Database
  claim c d =
      claim_queue_task backend queue_name c.worker_id c.lease_until c.current c.schedule_ids d

  -- The database after the calls, whichever tasks they take.
  unfoldable pub claim_all : List ClaimCall → Database → Database
  claim_all [] d = d
  claim_all (c ∷ cs) d = claim_all cs (claim c d).1

  -- The call looks for this task among others, and may take it.
  abbrev pub Wants : ℕ → QueueTask → ClaimCall → Type 0
  Wants i t c =
      (is_candidate backend queue_name c.current c.schedule_ids (i, t) ≡ true)
      × (claimable c.current t ≡ true)

  claimable_queued :
      (current : Time) (t : QueueTask) → claimable current t ≡ true → is_queued t.status ≡ true
  unfolding claimable
  claimable_queued current t h = ground (arith, h)

  module _ (c : ClaimCall) (d : Database) (keyed : IsKeyed d.tasks) where
    abbrev Claimed : ℕ → QueueTask → Database → Type 0
    Claimed j u d' =
        IsClaim backend queue_name c.worker_id c.lease_until c.current c.schedule_ids d keyed j u d'

    Claimed-IsKeyed : (j : ℕ) (u : QueueTask) (d' : Database) → Claimed j u d' → IsKeyed d'.tasks
    Claimed-IsKeyed j u d' taken =
        subst⁻¹ IsKeyed taken.tasks (set_row-IsKeyed j (claimed_by c u) d.tasks keyed)

    Claimed-row :
        (j : ℕ) (u : QueueTask) (d' : Database)
        → Claimed j u d'
        → (i : ℕ) (t : QueueTask) → j ≡ i
        → get i d.tasks ≡ some t
        → get i d'.tasks ≡ some (claimed_by c t)
    Claimed-row j u d' taken i t same at_i =
        let at_j = ap (λ k. get k d.tasks) same ∙ at_i in
        ap (λ k. get k d'.tasks) (sym same)
        ∙ taken.row
        ∙ ap (λ r. some (claimed_by c r)) (some_injective (sym taken.eligible.0 ∙ at_j))

    -- A claim leaves one queued task less.
    Claimed-count :
        (j : ℕ) (u : QueueTask) (d' : Database)
        → Claimed j u d'
        → suc (queued_count d') ≡ queued_count d
    unfolding claimed_row
    Claimed-count j u d' taken = rw (taken.tasks) (
        count-set_row (λ t. is_queued t.status) j (claimed_by c u) d.tasks u taken.eligible.0
          (claimable_queued c.current u taken.eligible.2) refl)

    -- A task that is not queued is not claimed.
    claim-keeps :
        (i : ℕ) (t : QueueTask)
        → get i d.tasks ≡ some t
        → is_queued t.status ≡ false
        → (get i (claim c d).1.tasks ≡ some t) × IsKeyed (claim c d).1.tasks
    claim-keeps i t at_i closed =
        elim (claim_queue_task-IsClaim backend queue_name c.worker_id c.lease_until c.current
          c.schedule_ids d keyed) [
            | inl missed ↦ rw (missed.0) (at_i, keyed)
            | inr (j, u, d', result, taken) ↦
                let other : j ≢ i = λ same.
                  let at_j = rw same at taken.eligible.0 in
                  cc (
                    some_injective (sym at_j ∙ at_i),
                    claimable_queued c.current u taken.eligible.2,
                    closed,
                  ) in
                rw result (taken.others i other ∙ at_i, Claimed-IsKeyed j u d' taken)
          ]

  claim_all-keeps :
      (cs : List ClaimCall) (d : Database) (i : ℕ) (t : QueueTask)
      → IsKeyed d.tasks
      → get i d.tasks ≡ some t
      → is_queued t.status ≡ false
      → get i (claim_all cs d).tasks ≡ some t
  unfolding claim_all
  claim_all-keeps [] d i t keyed at_i closed = at_i
  claim_all-keeps (c ∷ cs) d i t keyed at_i closed =
      let kept = claim-keeps c d keyed i t at_i closed in
      claim_all-keeps cs (claim c d).1 i t kept.1 kept.0 closed

  count_pos :
      (i : ℕ) (t : QueueTask) (d : Database)
      → get i d.tasks ≡ some t
      → is_queued t.status ≡ true
      → 1 ≤ queued_count d
  unfolding claimed_row
  count_pos i t d at_i waiting =
      let one_less =
        count-set_row (λ r. is_queued r.status) i (claimed_row "" 0 0 t) d.tasks t at_i waiting
          refl in
      omega (arith, one_less)

  -- On a table with unique ids: if workers call, each with its own clock and lease, at least once
  -- for each queued task, then a queued task that every call looks for and may take is claimed by
  -- one of them, and its row is at the end what that call made of it.
  pub claim_all-claims :
      (cs : List ClaimCall) (d : Database) (i : ℕ) (t : QueueTask)
      → IsKeyed d.tasks
      → get i d.tasks ≡ some t
      → is_queued t.status ≡ true
      → All (Wants i t) cs
      → queued_count d ≤ length cs
      → (c : ClaimCall) × Memᴰ c cs × (get i (claim_all cs d).tasks ≡ some (claimed_by c t))
  unfolding claim_all
  claim_all-claims [] d i t keyed at_i waiting wants enough =
      absurd (omega (arith, enough, count_pos i t d at_i waiting))
  claim_all-claims (c ∷ cs) d i t keyed at_i waiting wants enough =
      elim (claim_queue_task-IsClaim backend queue_name c.worker_id c.lease_until c.current
        c.schedule_ids d keyed) [
          | inl missed ↦ absurd (missed.1 i t (at_i, wants.0.0, wants.0.1))
          | inr (j, u, d', result, taken) ↦
              let next = ap (λ r. get i (claim_all cs r.1).tasks) result in
              let keyed' = Claimed-IsKeyed c d keyed j u d' taken in
              elim (Bool-cases (j == i)) [
                | inl same ↦ (
                  c,
                  Memᴰ.head refl,
                  next
                      ∙ claim_all-keeps cs d' i (claimed_by c t) keyed'
                          (Claimed-row c d keyed j u d' taken i t ((==_iff j i).0 same) at_i)
                          (unfold claimed_row in refl),
                )
                | inr other ↦
                    let (c', m, row) =
                      claim_all-claims cs d' i t keyed'
                        (taken.others i (λ e. cc (other, (==_iff j i).1 e)) ∙ at_i) waiting wants.1
                        (omega (arith, enough, Claimed-count c d keyed j u d' taken)) in
                    (c', Memᴰ.tail m, next ∙ row)
              ]
        ]
