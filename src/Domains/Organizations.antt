-- ===== src/Domains/Organizations.antt =====
-- The writes of an organization's tenant, src/orgscan/repositories.py and
-- src/orgscan/storage/safety.py, with the check of src/orgscan/storage/domain_identity.py.
use github_osint_secret_scan.Prelude.{
  ℕ, String, is_none, Bool, true, not, ◌&&◌, ◌||◌, Option, none, some, if◌then◌else◌,
}
use github_osint_secret_scan.Prelude.Result.{Result, ok, raise, then_do}
use github_osint_secret_scan.Prelude.Table.{get, fresh_id, add_row, update_where}
use github_osint_secret_scan.Prelude.Select.{same_text, any_row}
use github_osint_secret_scan.Domains.{
  Refusal, Organization, Domain, Assets, anchored, ownership_conflict, association_immutable,
  same_id,
}

abbrev pub owned_elsewhere : ℕ → Option String → Domain → Bool
owned_elsewhere o tenant_key d =
    same_id d.organization_id (some o) && not (same_text d.tenant_key tenant_key)

unfoldable pub validate_organization_domain_anchor :
    ℕ → Option String → Assets → Result Refusal Bool
validate_organization_domain_anchor o tenant_key db =
    if any_row (owned_elsewhere o tenant_key) db.domains then raise anchored else ok true

-- `_claim_unassigned_owner(existing, "tenant_key", value)` for the organization `o`, which was read
-- as `existing`; its compare-and-set.
unfoldable pub claim_unassigned_owner :
    ℕ → Organization → Option String → Assets → Result Refusal Assets
claim_unassigned_owner o existing value db =
    if is_none value || not (is_none existing.tenant_key)
    then ok db
    else then_do (validate_organization_domain_anchor o value db) (λ _.
      let claimed =
        update_where o (λ org. is_none org.tenant_key) (λ org. record org { tenant_key = value })
          db.organizations in
      if claimed.1 then ok (record db { organizations = claimed.0 }) else raise ownership_conflict)

-- The flush of an organization whose `tenant_key` was set to `value`.
unfoldable pub flush_organization : ℕ → Option String → Assets → Result Refusal Assets
flush_organization o value db = elim (get o db.organizations) [
  | none ↦ ok db
  | some org ↦
      if same_text org.tenant_key value
      then ok db
      else then_do (validate_organization_domain_anchor o value db) (λ _.
        if not (is_none org.tenant_key)
        then raise association_immutable
        else ok (record db {
          organizations =
              (update_where o (λ _. true) (λ row. record row { tenant_key = value })
                db.organizations).0;
        }))
]

-- `create_organization`
unfoldable pub create_organization : Organization → Assets → ℕ × Assets
create_organization org db =
    (fresh_id db.organizations, record db { organizations = add_row org db.organizations })
