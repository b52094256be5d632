-- ===== src/Access/Visibility/Writes/Sound.antt =====
-- What a session with a tenant scope may write: what each change names is in the scope.
use github_osint_secret_scan.Prelude.{ℕ, String, Bool, true, Option, none, some, List, ◌≡◌}
use github_osint_secret_scan.Prelude.Table.{Table}
use github_osint_secret_scan.Access.Context.{AuthContext}
use github_osint_secret_scan.Access.Visibility.{
  ScanJob, Assets, Scope, has_key, in_scope, sees_organization, sees_repository, sees_account,
  sees_domain, finding_scope, sees_finding, sees_scan_job, visible_secret,
}
use github_osint_secret_scan.Access.Visibility.Writes.{
  Change, tenant_row, assessment_row, organization, owned, finding, of_finding, secret, tool_run,
  risk_score, scan_job, other, scope_of, sees_assessment,
}

module _ (show : ℕ → String) (digits : String → Option ℕ) (auth : AuthContext) (a : Assets)
    (assessments : Table String) where
  abbrev keys : Scope
  keys = scope_of show digits auth a assessments

  -- An asset that is named is in the scope.
  abbrev pub Seen : (Option ℕ → Bool) → Option ℕ → Type 0
  Seen sees o = (i : ℕ) → o ≡ some i → sees (some i) ≡ true

  -- A job without a plan names its target by a number, and by a kind of asset.
  pub data SeenTarget (j : ScanJob) : Type 0 where
    organization_target :
        (i : ℕ)
        → digits j.target_id ≡ some i
        → j.target_type ≡ "organization"
        → sees_organization show keys a (some i) ≡ true
        → SeenTarget j
    repository_target :
        (i : ℕ)
        → digits j.target_id ≡ some i
        → j.target_type ≡ "repository"
        → sees_repository show keys a (some i) ≡ true
        → SeenTarget j
    domain_target :
        (i : ℕ)
        → digits j.target_id ≡ some i
        → j.target_type ≡ "domain"
        → sees_domain show keys a (some i) ≡ true
        → SeenTarget j

  -- What a change names that the scope has to see.
  abbrev pub Visible : Change → Type 0
  Visible (tenant_row k) = has_key k keys ≡ true
  Visible (assessment_row i) = sees_assessment show digits auth a assessments i ≡ true
  Visible (organization o) = in_scope keys o.tenant_key ≡ true
  Visible (owned o) = sees_organization show keys a o ≡ true
  Visible (finding f) =
      (finding_scope show keys a f ≡ true)
      × Seen (sees_repository show keys a) f.repository_id
      × Seen (sees_domain show keys a) f.domain_id
      × Seen (sees_account show keys a) f.account_id
  Visible (of_finding i) = sees_finding show keys a (some i) ≡ true
  Visible (secret s) = visible_secret show keys a s ≡ true
  Visible (tool_run i) = sees_scan_job show keys a i ≡ true
  Visible (risk_score i) = sees_finding show keys a i ≡ true
  Visible (scan_job j) =
      Seen (sees_organization show keys a) j.plan_organization_id
      × Seen (sees_repository show keys a) j.plan_repository_id
      × (j.plan_organization_id ≡ none → j.plan_repository_id ≡ none → SeenTarget j)
  Visible other = ⊥
