-- ===== src/Access/Visibility.antt =====
-- Which rows a tenant scope sees (src/orgscan/storage/visibility.py) and which changes a session may
-- flush (src/orgscan/storage/authorization.py). The rows keep the columns that these read
-- (src/orgscan/models.py); a condition of SQL that is NULL counts as false, as in a WHERE clause.
-- `show` is the database's CAST of an id to a text.
pub mod Grounds
pub mod Jobs
pub mod Writes
use github_osint_secret_scan.Prelude.{
  ℕ, String, str_eq, is_none, Bool, true, false, not, ◌&&◌, ◌||◌, Option, none, some, List, [], ◌∷◌,
  ◌==◌, if◌then◌else◌,
}
use github_osint_secret_scan.Prelude.Table.{Table, get}

-- Repository, Account and ReconAsset have the same scope column.
pub record Owned : Type 0 where
  pub organization_id : Option ℕ

pub record Organization : Type 0 where
  pub tenant_key : Option String

pub record Domain : Type 0 where
  pub organization_id : Option ℕ
  pub tenant_key : Option String

pub record Finding : Type 0 where
  pub organization_id : Option ℕ
  pub repository_id : Option ℕ
  pub domain_id : Option ℕ
  pub account_id : Option ℕ
  pub scan_job_id : Option ℕ

-- `plan_…` are the fields of parameters_json["scan_plan"].
pub record ScanJob : Type 0 where
  pub target_type : String
  pub target_id : String
  pub plan_organization_id : Option ℕ
  pub plan_repository_id : Option ℕ

-- SecretEvidence and SecretRevealAudit.
pub record Secret : Type 0 where
  pub finding_id : ℕ
  pub tenant_key : String

pub record Relationship : Type 0 where
  pub from_entity_type : String
  pub from_entity_id : String
  pub to_entity_type : String
  pub to_entity_id : String

pub record RiskScore : Type 0 where
  pub finding_id : Option ℕ
  pub entity_type : String
  pub entity_id : String

pub record ScheduledScan : Type 0 where
  pub organization_id : Option ℕ
  pub repository_id : Option ℕ
  pub plan_organization_id : Option ℕ
  pub plan_repository_id : Option ℕ

pub record ScheduledReport : Type 0 where
  pub target_type : String
  pub target_value : String

pub record Assets : Type 0 where
  pub organizations : Table Organization
  pub repositories : Table Owned
  pub domains : Table Domain
  pub accounts : Table Owned
  pub recon_assets : Table Owned
  pub findings : Table Finding
  pub scan_jobs : Table ScanJob

-- The keys of a scope, among which None stands for rows without a tenant.
abbrev pub Scope : Type 0
Scope = List (Option String)

-- column.in_([key for key in tenant_keys if key is not None])
abbrev pub has_key : String → Scope → Bool
has_key k [] = false
has_key k (none ∷ keys) = has_key k keys
has_key k (some j ∷ keys) = str_eq j k || has_key k keys

-- None in tenant_keys
abbrev pub has_none : Scope → Bool
has_none [] = false
has_none (none ∷ keys) = true
has_none (some j ∷ keys) = has_none keys

unfoldable pub in_scope : Scope → Option String → Bool
in_scope keys none = has_none keys
in_scope keys (some k) = has_key k keys

-- column.in_(select(id) where p): false at NULL and at a missing row.
abbrev pub refers {ℓ} : {A : Type ℓ} → (A → Bool) → Table A → Option ℕ → Bool
refers p t none = false
refers p t (some i) = elim (get i t) [ none ↦ false | some a ↦ p a ]

abbrev pub any_row {ℓ} : {A : Type ℓ} → (ℕ → A → Bool) → Table A → Bool
any_row p [] = false
any_row p ((i, a) ∷ t) = p i a || any_row p t

module _ (show : ℕ → String) (keys : Scope) (a : Assets) where
  unfoldable pub sees_organization : Option ℕ → Bool
  unfolding in_scope get
  sees_organization = refers (λ (o : Organization). in_scope keys o.tenant_key) a.organizations

  -- The condition on the column `organization_id` of an owned row.
  abbrev pub owner_in_scope : Option ℕ → Bool
  owner_in_scope none = has_none keys
  owner_in_scope (some o) = sees_organization (some o)

  unfoldable pub sees_repository : Option ℕ → Bool
  unfolding sees_organization get
  sees_repository = refers (λ (r : Owned). owner_in_scope r.organization_id) a.repositories

  unfoldable pub sees_account : Option ℕ → Bool
  unfolding sees_organization get
  sees_account = refers (λ (r : Owned). owner_in_scope r.organization_id) a.accounts

  unfoldable pub sees_recon_asset : Option ℕ → Bool
  unfolding sees_organization get
  sees_recon_asset = refers (λ (r : Owned). owner_in_scope r.organization_id) a.recon_assets

  unfoldable pub sees_domain : Option ℕ → Bool
  unfolding sees_organization in_scope get
  sees_domain =
      refers (λ (r : Domain). owner_in_scope r.organization_id && in_scope keys r.tenant_key)
        a.domains

  -- finding_scope
  unfoldable pub finding_scope : Finding → Bool
  unfolding sees_organization sees_repository sees_domain sees_account
  finding_scope f =
      sees_organization f.organization_id
      || is_none f.organization_id
        && (sees_repository f.repository_id || sees_domain f.domain_id || sees_account f.account_id)

  unfoldable pub sees_finding : Option ℕ → Bool
  unfolding finding_scope get
  sees_finding = refers finding_scope a.findings

  abbrev pub is_of : ℕ → Finding → Bool
  is_of i f = elim f.scan_job_id [ none ↦ false | some j ↦ j == i ]

  -- and_(target_type == kind, target_id.in_(select(cast(id, String)) where visible))
  abbrev pub targets : {A : Type 0} → String → (Option ℕ → Bool) → Table A → String → String → Bool
  targets kind sees t entity_type entity_id =
      str_eq entity_type kind && any_row (λ i x. sees (some i) && str_eq (show i) entity_id) t

  -- job_scope
  unfoldable pub job_scope : ℕ → ScanJob → Bool
  unfolding sees_organization sees_repository sees_domain finding_scope
  job_scope i j =
      sees_organization j.plan_organization_id
      || sees_repository j.plan_repository_id
      || any_row (λ k f. is_of i f && finding_scope f) a.findings
      || targets "organization" sees_organization a.organizations j.target_type j.target_id
      || targets "domain" sees_domain a.domains j.target_type j.target_id
      || targets "repository" sees_repository a.repositories j.target_type j.target_id

  -- The job is of a finding that the scope does not see.
  unfoldable pub foreign_job : ℕ → Bool
  unfolding finding_scope
  foreign_job i = any_row (λ k f. is_of i f && not (finding_scope f)) a.findings

  abbrev pub unset_or : (Option ℕ → Bool) → Option ℕ → Bool
  unset_or sees none = true
  unset_or sees (some i) = sees (some i)

  unfoldable pub visible_job : ℕ → ScanJob → Bool
  unfolding job_scope foreign_job sees_organization sees_repository
  visible_job i j =
      job_scope i j
      && not (foreign_job i)
      && unset_or sees_organization j.plan_organization_id
      && unset_or sees_repository j.plan_repository_id

  unfoldable pub sees_scan_job : Option ℕ → Bool
  unfolding visible_job get
  sees_scan_job none = false
  sees_scan_job (some i) = refers (visible_job i) a.scan_jobs (some i)

  -- FindingHistory, Evidence and Suppression see their finding, ToolRun its job, DomainExposure and
  -- IdentityCorrelation their domain.
  unfoldable pub visible_secret : Secret → Bool
  unfolding sees_finding
  visible_secret s = sees_finding (some s.finding_id) && has_key s.tenant_key keys

  unfoldable pub entity_scope : String → String → Bool
  unfolding sees_organization sees_repository sees_domain sees_account sees_finding sees_recon_asset
  entity_scope kind value =
      targets "organization" sees_organization a.organizations kind value
      || targets "repository" sees_repository a.repositories kind value
      || targets "domain" sees_domain a.domains kind value
      || targets "account" sees_account a.accounts kind value
      || targets "finding" sees_finding a.findings kind value
      || targets "recon_asset" sees_recon_asset a.recon_assets kind value

  unfoldable pub visible_relationship : Relationship → Bool
  unfolding entity_scope
  visible_relationship r =
      entity_scope r.from_entity_type r.from_entity_id
      && entity_scope r.to_entity_type r.to_entity_id

  unfoldable pub visible_risk_score : RiskScore → Bool
  unfolding entity_scope sees_finding
  visible_risk_score r =
      sees_finding r.finding_id || is_none r.finding_id && entity_scope r.entity_type r.entity_id

  unfoldable pub visible_schedule : ScheduledScan → Bool
  unfolding sees_organization sees_repository
  visible_schedule s =
      sees_organization s.organization_id
      || sees_repository s.repository_id
      || sees_organization s.plan_organization_id
      || sees_repository s.plan_repository_id

  unfoldable pub visible_report : ScheduledReport → Bool
  visible_report r = str_eq r.target_type "tenant" && has_key r.target_value keys
