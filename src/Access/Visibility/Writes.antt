-- ===== src/Access/Visibility/Writes.antt =====
-- `writable` and `authorize_changes` of src/orgscan/storage/authorization.py: the changes that a
-- session with a tenant scope may flush. `digits` is `str.isdigit` with `int`; the subclasses that
-- the code treats alike share a constructor.
pub mod Sound
use github_osint_secret_scan.Prelude.{
  ℕ, String, str_eq, is_none, is_member, is_empty, Bool, true, false, not, ◌&&◌, ◌||◌, Option, none,
  some, List, [], ◌∷◌, map, if◌then◌else◌, arith, ◌≡◌, ◌⊎◌, refl, ap, sym, ◌∙◌, Bool-cases,
  Option-cases, inl, inr,
}
use github_osint_secret_scan.Prelude.Table.{Table, get}
use github_osint_secret_scan.Access.Context.{
  AuthContext, allows_role, allows_tenant, level, role_level,
}
use github_osint_secret_scan.Access.Visibility.{
  Owned, Organization, Domain, Finding, ScanJob, Secret, Assets, Scope, has_key, has_none, in_scope,
  refers, sees_organization, sees_repository, sees_account, sees_domain, finding_scope,
  sees_finding, sees_scan_job, visible_secret, visible_job,
}

-- A changed record, by the branch of `writable` that it takes.
pub data Change : Type 0 where
  tenant_row : String → Change
  assessment_row : ℕ → Change
  organization : Organization → Change
  owned : Option ℕ → Change
  finding : Finding → Change
  of_finding : ℕ → Change
  secret : Secret → Change
  tool_run : Option ℕ → Change
  risk_score : Option ℕ → Change
  scan_job : ScanJob → Change
  other : Change

module _ (show : ℕ → String) (digits : String → Option ℕ) (auth : AuthContext) (a : Assets)
    (assessments : Table String) where
  -- visibility_ids(auth.tenants)
  abbrev pub scope_of : Scope
  scope_of = map (λ k. some k) auth.tenants

  -- permitted(m.Assessment, i)
  abbrev pub sees_assessment : ℕ → Bool
  sees_assessment i = refers (λ k. has_key k scope_of) assessments (some i)

  -- identity is not None and not permitted(model, identity)
  abbrev pub refused : (Option ℕ → Bool) → Option ℕ → Bool
  refused sees none = false
  refused sees (some i) = not (sees (some i))

  unfoldable pub writable_finding : Finding → Bool
  unfolding sees_organization sees_repository sees_domain sees_account
  writable_finding f =
      if refused (sees_repository show scope_of a) f.repository_id
        || refused (sees_domain show scope_of a) f.domain_id
        || refused (sees_account show scope_of a) f.account_id
      then false
      else if not (is_none f.organization_id)
      then sees_organization show scope_of a f.organization_id
      else sees_repository show scope_of a f.repository_id
        || sees_domain show scope_of a f.domain_id
        || sees_account show scope_of a f.account_id

  -- The model of a job's target, and its id.
  unfoldable pub sees_target : String → String → Bool
  unfolding sees_organization sees_repository sees_domain
  sees_target target_type target_id =
      if str_eq target_type "organization"
      then sees_organization show scope_of a (digits target_id)
      else if str_eq target_type "repository"
      then sees_repository show scope_of a (digits target_id)
      else if str_eq target_type "domain"
      then sees_domain show scope_of a (digits target_id)
      else false

  unfoldable pub writable_job : ScanJob → Bool
  unfolding sees_target sees_organization sees_repository
  writable_job j =
      if not (is_none j.plan_organization_id) || not (is_none j.plan_repository_id)
      then not (refused (sees_organization show scope_of a) j.plan_organization_id)
        && not (refused (sees_repository show scope_of a) j.plan_repository_id)
      else sees_target j.target_type j.target_id

  unfoldable pub writable : Change → Bool
  unfolding allows_tenant writable_finding writable_job sees_finding sees_scan_job sees_organization
  writable (tenant_row tenant_key) = allows_tenant (some tenant_key) auth
  writable (assessment_row i) = sees_assessment i
  writable (organization o) = allows_tenant o.tenant_key auth
  writable (owned organization_id) = sees_organization show scope_of a organization_id
  writable (finding f) = writable_finding f
  writable (of_finding i) = sees_finding show scope_of a (some i)
  writable (secret s) =
      allows_tenant (some s.tenant_key) auth && sees_finding show scope_of a (some s.finding_id)
  writable (tool_run i) = sees_scan_job show scope_of a i
  writable (risk_score i) = sees_finding show scope_of a i
  writable (scan_job j) = writable_job j
  writable other = false

  unfoldable pub any_unwritable : List Change → Bool
  unfolding writable
  any_unwritable [] = false
  any_unwritable (c ∷ cs) = not (writable c) || any_unwritable cs

  -- The error that a flush of the changes raises.
  unfoldable pub authorize_changes : List Change → Option String
  unfolding allows_role any_unwritable
  authorize_changes changes =
      if not (is_empty changes) && not (allows_role "analyst" auth)
      then some "Analyst role is required for mutations"
      else if not (is_member "*" auth.tenants) && any_unwritable changes
      then some "The requested data is outside the authorized tenant scope"
      else none
