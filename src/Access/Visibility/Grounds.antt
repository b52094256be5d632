-- ===== src/Access/Visibility/Grounds.antt =====
-- Why a scope sees a scan job, by the filters of src/orgscan/storage/visibility.py.
use mathlib.Core.List.{Memᴰ}
use mathlib.Core.Path.{subst⁻¹}
use github_osint_secret_scan.Prelude.{
  ℕ, String, str_eq, eq_iff, Bool, true, false, not, ◌&&◌, ◌||◌, Option, some, [], ◌∷◌, ==_iff,
  arith, ◌≡◌, refl, ap, ◌∙◌, Bool-cases, Option-cases, inl, inr,
}
use github_osint_secret_scan.Prelude.Table.{Table, get}
use github_osint_secret_scan.Access.Visibility.{
  Organization, Finding, ScanJob, Assets, Scope, in_scope, refers, any_row, sees_organization,
  sees_repository, sees_domain, finding_scope, is_of, targets, job_scope, foreign_job,
}

any_row-mem :
    {A : Type 0} (p : ℕ → A → Bool) (t : Table A) (i : ℕ) (x : A)
    → any_row p t ≡ false
    → Memᴰ (i, x) t
    → p i x ≡ false
any_row-mem p [] i x h m = elim m [ ]
any_row-mem {A = A} p ((j, y) ∷ t) i x h (Memᴰ.head e) =
    subst⁻¹ (λ (r : ℕ × A). p r.0 r.1 ≡ false) e (ground (arith, h))
any_row-mem p ((j, y) ∷ t) i x h (Memᴰ.tail m) = any_row-mem p t i x (ground (arith, h)) m

any_row-row :
    {A : Type 0} (p : ℕ → A → Bool) (t : Table A)
    → any_row p t ≡ true
    → (i : ℕ) × (x : A) × Memᴰ (i, x) t × (p i x ≡ true)
any_row-row p [] h = cc h
any_row-row p ((j, y) ∷ t) h = elim (Bool-cases (p j y)) [
  | inl e ↦ (j, y, Memᴰ.head refl, e)
  | inr e ↦ let (i, x, m, px) = any_row-row p t (ground (arith, h, e)) in (i, x, Memᴰ.tail m, px)
]

pub refers-row :
    {A : Type 0} (p : A → Bool) (t : Table A) (i : ℕ)
    → refers p t (some i) ≡ true
    → (x : A) × (get i t ≡ some x) × (p x ≡ true)
refers-row p t i h = elim (Option-cases (get i t)) [
  | inl e ↦ cc (rw (e, refers) at h)
  | inr (x, e) ↦ (x, e, rw (e, refers) at h)
]

module _ (show : ℕ → String) (keys : Scope) (a : Assets) where
  -- An organization of the scope.
  abbrev pub InScope : ℕ → Type 0
  InScope o =
      (row : Organization) × (get o a.organizations ≡ some row)
      × (in_scope keys row.tenant_key ≡ true)

  pub sees_organization-InScope :
      (o : ℕ) → sees_organization show keys a (some o) ≡ true → InScope o
  unfolding sees_organization
  sees_organization-InScope o h = refers-row _ a.organizations o h

  pub finding_scope-InScope :
      (f : Finding) (o : ℕ)
      → finding_scope show keys a f ≡ true
      → f.organization_id ≡ some o
      → InScope o
  unfolding finding_scope
  finding_scope-InScope f o h e = sees_organization-InScope o (ground (arith, h, e))

  pub shown_finding :
      (i k : ℕ) (f : Finding)
      → foreign_job show keys a i ≡ false
      → Memᴰ (k, f) a.findings
      → f.scan_job_id ≡ some i
      → finding_scope show keys a f ≡ true
  unfolding foreign_job
  shown_finding i k f h m e =
      let other =
        any_row-mem (λ k' f'. is_of show keys a i f' && not (finding_scope show keys a f'))
          a.findings k f h m in
      ground (arith, other, e, (==_iff i i).1 refl)

  -- A row of the scope whose id, as a text, is the target's.
  abbrev pub Targeted : {A : Type 0} → String → (Option ℕ → Bool) → Table A → ScanJob → Type 0
  Targeted {A} kind sees t j =
      (j.target_type ≡ kind)
      × ((n : ℕ) × (x : A) × Memᴰ (n, x) t × (sees (some n) ≡ true) × (show n ≡ j.target_id))

  -- Why a scope may see a job.
  pub data Ground (i : ℕ) (j : ScanJob) : Type 0 where
    by_organization : (o : ℕ) → j.plan_organization_id ≡ some o → InScope o → Ground i j
    by_repository :
        (r : ℕ)
        → j.plan_repository_id ≡ some r
        → sees_repository show keys a (some r) ≡ true
        → Ground i j
    by_finding :
        (k : ℕ) (f : Finding)
        → Memᴰ (k, f) a.findings
        → f.scan_job_id ≡ some i
        → finding_scope show keys a f ≡ true
        → Ground i j
    by_target_organization :
        Targeted "organization" (sees_organization show keys a) a.organizations j → Ground i j
    by_target_domain : Targeted "domain" (sees_domain show keys a) a.domains j → Ground i j
    by_target_repository :
        Targeted "repository" (sees_repository show keys a) a.repositories j → Ground i j

  targets-Targeted :
      {A : Type 0} (kind : String) (sees : Option ℕ → Bool) (t : Table A) (j : ScanJob)
      → targets show keys a kind sees t j.target_type j.target_id ≡ true
      → Targeted kind sees t j
  targets-Targeted kind sees t j h =
      let (n, x, m, both) =
        any_row-row (λ i x. sees (some i) && str_eq (show i) j.target_id) t (ground (arith, h)) in
      (
        (eq_iff j.target_type kind).0 (ground (arith, h)),
        (n, x, m, ground (arith, both), (eq_iff (show n) j.target_id).0 (ground (arith, both))),
      )

  is_of-eq : (i : ℕ) (f : Finding) → is_of show keys a i f ≡ true → f.scan_job_id ≡ some i
  is_of-eq i f h = elim (Option-cases f.scan_job_id) [
    | inl e ↦ cc (rw (e) at h)
    | inr (j, e) ↦ e ∙ ap some ((==_iff j i).0 (rw (e) at h))
  ]

  plan-Ground :
      (i : ℕ) (j : ScanJob)
      → sees_organization show keys a j.plan_organization_id
          || sees_repository show keys a j.plan_repository_id
        ≡ true
      → Ground i j
  unfolding sees_organization sees_repository
  plan-Ground i j h = elim (Option-cases j.plan_organization_id) [
    | inr (o, e) ↦ elim (Bool-cases (sees_organization show keys a (some o))) [
      | inl seen ↦ Ground.by_organization o e (sees_organization-InScope o seen)
      | inr hidden ↦ elim (Option-cases j.plan_repository_id) [
        | inl f ↦ cc (rw (hidden, f) at (rw e at h))
        | inr (r, f) ↦ Ground.by_repository r f (rw (hidden, f) at (rw e at h))
      ]
    ]
    | inl e ↦ elim (Option-cases j.plan_repository_id) [
      | inl f ↦ cc (rw (e, f) at h)
      | inr (r, f) ↦ Ground.by_repository r f (rw (e, f) at h)
    ]
  ]

  finding-Ground :
      (i : ℕ) (j : ScanJob)
      → any_row (λ k f. is_of show keys a i f && finding_scope show keys a f) a.findings ≡ true
      → Ground i j
  finding-Ground i j h =
      let (k, f, m, both) =
        any_row-row (λ k f. is_of show keys a i f && finding_scope show keys a f) a.findings h in
      Ground.by_finding k f m (is_of-eq i f (ground (arith, both))) (ground (arith, both))

  pub job_scope-Ground : (i : ℕ) (j : ScanJob) → job_scope show keys a i j ≡ true → Ground i j
  unfolding job_scope
  job_scope-Ground i j h =
      elim (Bool-cases
        (any_row (λ k f. is_of show keys a i f && finding_scope show keys a f) a.findings)) [
          | inl e ↦ finding-Ground i j e
          | inr no_finding ↦
              elim (Bool-cases (
                targets show keys a "organization" (sees_organization show keys a) a.organizations
                  j.target_type j.target_id)) [
                    | inl e ↦ Ground.by_target_organization (
                        targets-Targeted "organization" (sees_organization show keys a)
                          a.organizations j e)
                    | inr no_organization ↦
                        elim (Bool-cases (
                          targets show keys a "domain" (sees_domain show keys a) a.domains
                            j.target_type j.target_id)) [
                              | inl e ↦ Ground.by_target_domain (
                                  targets-Targeted "domain" (sees_domain show keys a) a.domains j e)
                              | inr no_domain ↦
                                  elim (Bool-cases (
                                    targets show keys a "repository" (sees_repository show keys a)
                                      a.repositories j.target_type j.target_id)) [
                                        | inl e ↦ Ground.by_target_repository (
                                            targets-Targeted "repository"
                                              (sees_repository show keys a) a.repositories j e)
                                        | inr no_repository ↦ plan-Ground i j (
                                            ground (
                                              arith,
                                              rw
                                                  (
                                                    no_finding, no_organization, no_domain,
                                                    no_repository,
                                                  )
                                                  at h,
                                            ))
                                      ]
                            ]
                  ]
        ]
