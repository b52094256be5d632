-- ===== src/Access/Visibility/Jobs.antt =====
-- What a scope sees of scan jobs and findings, and that a wider scope sees no less.
use mathlib.Core.List.{Memᴰ}
use github_osint_secret_scan.Prelude.{
  ℕ, String, Bool, true, not, ◌&&◌, ◌||◌, Option, none, some, [], ◌∷◌, arith, ◌≡◌, refl, Bool-cases,
  inl, inr,
}
use github_osint_secret_scan.Prelude.Table.{Table}
use github_osint_secret_scan.Access.Visibility.{
  Owned, Organization, Domain, Finding, ScanJob, Assets, Scope, has_key, has_none, in_scope, refers,
  any_row, owner_in_scope, sees_organization, sees_repository, sees_account, sees_domain,
  finding_scope, is_of, targets, job_scope, foreign_job, unset_or, visible_job,
}
use github_osint_secret_scan.Access.Visibility.Grounds.{
  refers-row, InScope, Ground, shown_finding, finding_scope-InScope, sees_organization-InScope,
  job_scope-Ground,
}

module _ (show : ℕ → String) (keys : Scope) (a : Assets) where
  -- There is a ground to see a visible job: an organization or a repository of the scope that its
  -- plan or its target names, a domain of the scope as its target, or a visible finding. All of its
  -- findings are visible, and one with an organization has one of the scope; and neither an
  -- organization nor a repository of its plan is outside the scope.
  pub visible_job-IsSound :
      (i : ℕ) (j : ScanJob)
      → visible_job show keys a i j ≡ true
      → Ground show keys a i j
        × ((k : ℕ) (f : Finding)
            → Memᴰ (k, f) a.findings
            → f.scan_job_id ≡ some i
            → (finding_scope show keys a f ≡ true)
              × ((o : ℕ) → f.organization_id ≡ some o → InScope show keys a o))
        × ((o : ℕ) → j.plan_organization_id ≡ some o → InScope show keys a o)
        × ((r : ℕ) → j.plan_repository_id ≡ some r → sees_repository show keys a (some r) ≡ true)
  unfolding visible_job
  visible_job-IsSound i j h = (
    job_scope-Ground show keys a i j (ground (arith, h)),
    λ k f m e.
        let shown = shown_finding show keys a i k f (ground (arith, h)) m e in
        (shown, λ o at_o. finding_scope-InScope show keys a f o shown at_o),
    λ o e. sees_organization-InScope show keys a o (ground (arith, h, e)),
    λ r e. ground (arith, h, e),
  )

or_mono :
    {b b' c c' : Bool}
    → (b ≡ true → b' ≡ true)
    → (c ≡ true → c' ≡ true)
    → b || c ≡ true
    → b' || c' ≡ true
or_mono {b} {b'} {c} {c'} f g h = elim (Bool-cases b) [
  | inl e ↦ ground (arith, f e)
  | inr e ↦ let last = g (ground (arith, h, e)) in ground (arith, last)
]

and_mono :
    {b b' c c' : Bool}
    → (b ≡ true → b' ≡ true)
    → (c ≡ true → c' ≡ true)
    → b && c ≡ true
    → b' && c' ≡ true
and_mono {b} {b'} {c} {c'} f g h =
    let first = f (ground (arith, h)) in
    let last = g (ground (arith, h)) in ground (arith, first, last)

not_mono : {b b' : Bool} → (b' ≡ true → b ≡ true) → not b ≡ true → not b' ≡ true
not_mono {b} {b'} f h = elim (Bool-cases b') [ inl e ↦ cc (rw (f e) at h) | inr e ↦ rw e ]

refers_mono :
    {A : Type 0} (p q : A → Bool) (t : Table A) (i : Option ℕ)
    → ((x : A) → p x ≡ true → q x ≡ true)
    → refers p t i ≡ true
    → refers q t i ≡ true
refers_mono p q t none f h = cc
refers_mono p q t (some i) f h =
    let (x, at_i, px) = refers-row p t i h in rw (at_i, refers) (f x px)

any_row_mono :
    {A : Type 0} (p q : ℕ → A → Bool) (t : Table A)
    → ((i : ℕ) (x : A) → p i x ≡ true → q i x ≡ true)
    → any_row p t ≡ true
    → any_row q t ≡ true
any_row_mono p q [] f h = cc
any_row_mono p q ((i, x) ∷ t) f h = or_mono (f i x) (any_row_mono p q t f) h

-- A scope that has every key of another one.
pub record IsWider (keys wide : Scope) : Type 0 where
  pub has_keys : (k : String) → has_key k keys ≡ true → has_key k wide ≡ true
  pub has_unset : has_none keys ≡ true → has_none wide ≡ true

in_scope_mono :
    (keys wide : Scope)
    → IsWider keys wide
    → (k : Option String) → in_scope keys k ≡ true
    → in_scope wide k ≡ true
unfolding in_scope
in_scope_mono keys wide w none h = w.has_unset h
in_scope_mono keys wide w (some k) h = w.has_keys k h

module _ (show : ℕ → String) (keys wide : Scope) (a : Assets) (w : IsWider keys wide) where
  sees_organization_mono :
      (o : Option ℕ)
      → sees_organization show keys a o ≡ true
      → sees_organization show wide a o ≡ true
  unfolding sees_organization
  sees_organization_mono o h =
      refers_mono _ _ a.organizations o
        (λ (x : Organization). in_scope_mono keys wide w x.tenant_key) h

  owner_mono :
      (o : Option ℕ) → owner_in_scope show keys a o ≡ true → owner_in_scope show wide a o ≡ true
  owner_mono none h = w.has_unset h
  owner_mono (some o) h = sees_organization_mono (some o) h

  sees_repository_mono :
      (o : Option ℕ) → sees_repository show keys a o ≡ true → sees_repository show wide a o ≡ true
  unfolding sees_repository
  sees_repository_mono o h =
      refers_mono _ _ a.repositories o (λ (x : Owned). owner_mono x.organization_id) h

  sees_account_mono :
      (o : Option ℕ) → sees_account show keys a o ≡ true → sees_account show wide a o ≡ true
  unfolding sees_account
  sees_account_mono o h =
      refers_mono _ _ a.accounts o (λ (x : Owned). owner_mono x.organization_id) h

  sees_domain_mono :
      (o : Option ℕ) → sees_domain show keys a o ≡ true → sees_domain show wide a o ≡ true
  unfolding sees_domain
  sees_domain_mono o h =
      refers_mono _ _ a.domains o
        (λ (x : Domain).
          and_mono (owner_mono x.organization_id) (in_scope_mono keys wide w x.tenant_key))
        h

  finding_scope_mono :
      (f : Finding) → finding_scope show keys a f ≡ true → finding_scope show wide a f ≡ true
  unfolding finding_scope
  finding_scope_mono f = or_mono (sees_organization_mono f.organization_id) (
      and_mono (λ e. e)
        (or_mono (or_mono (sees_repository_mono f.repository_id) (sees_domain_mono f.domain_id))
          (sees_account_mono f.account_id)))

  targets_mono :
      {A : Type 0} (kind : String) (sees sees' : Option ℕ → Bool) (t : Table A) (type id : String)
      → ((o : Option ℕ) → sees o ≡ true → sees' o ≡ true)
      → targets show keys a kind sees t type id ≡ true
      → targets show wide a kind sees' t type id ≡ true
  targets_mono kind sees sees' t type id f =
      and_mono (λ e. e) (any_row_mono _ _ t (λ i x. and_mono (f (some i)) (λ e. e)))

  job_scope_mono :
      (i : ℕ) (j : ScanJob) → job_scope show keys a i j ≡ true → job_scope show wide a i j ≡ true
  unfolding job_scope
  job_scope_mono i j =
      or_mono
        (or_mono
          (or_mono
            (or_mono
              (or_mono (sees_organization_mono j.plan_organization_id)
                (sees_repository_mono j.plan_repository_id))
              (any_row_mono _ _ a.findings
                (λ k f. and_mono {b = is_of show keys a i f} (λ e. e) (finding_scope_mono f))))
            (targets_mono "organization" _ _ a.organizations j.target_type j.target_id
              sees_organization_mono))
          (targets_mono "domain" _ _ a.domains j.target_type j.target_id sees_domain_mono))
        (targets_mono "repository" _ _ a.repositories j.target_type j.target_id
          sees_repository_mono)

  foreign_job_mono : (i : ℕ) → foreign_job show wide a i ≡ true → foreign_job show keys a i ≡ true
  unfolding foreign_job
  foreign_job_mono i =
      any_row_mono _ _ a.findings (λ k f. and_mono (λ e. e) (not_mono (finding_scope_mono f)))

  unset_or_mono :
      (sees sees' : Option ℕ → Bool) (o : Option ℕ)
      → ((o : Option ℕ) → sees o ≡ true → sees' o ≡ true)
      → unset_or show keys a sees o ≡ true
      → unset_or show wide a sees' o ≡ true
  unset_or_mono sees sees' none f h = refl
  unset_or_mono sees sees' (some o) f h = f (some o) h

  -- A job or a finding that a scope sees is seen by every wider scope, although a job is hidden for
  -- the sake of findings outside the scope.
  pub visible_job_mono :
      ((f : Finding) → finding_scope show keys a f ≡ true → finding_scope show wide a f ≡ true)
      × ((i : ℕ) (j : ScanJob)
          → visible_job show keys a i j ≡ true
          → visible_job show wide a i j ≡ true)
  unfolding visible_job
  visible_job_mono = (
    finding_scope_mono,
    λ i j.
        and_mono
          (and_mono (and_mono (job_scope_mono i j) (not_mono (foreign_job_mono i)))
            (unset_or_mono _ _ j.plan_organization_id sees_organization_mono))
          (unset_or_mono _ _ j.plan_repository_id sees_repository_mono),
  )
