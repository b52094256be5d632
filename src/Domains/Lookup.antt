-- ===== src/Domains/Lookup.antt =====
-- `find_domain` and `resolve_domain` of src/orgscan/storage/domain_identity.py.
use github_osint_secret_scan.Prelude.{
  ℕ, String, str_eq, is_none, Bool, true, false, not, ◌&&◌, Option, none, some, List, [], ◌∷◌,
  if◌then◌else◌, keep,
}
use github_osint_secret_scan.Prelude.Result.{Result, ok, raise, then_do}
use github_osint_secret_scan.Prelude.Table.{Table, get}
use github_osint_secret_scan.Prelude.Select.{same_text, any_row}
use github_osint_secret_scan.Access.Context.{AuthContext}
use github_osint_secret_scan.Domains.{
  Refusal, Domain, DomainContext, Assets, outside_scope, organization_unavailable, needs_context,
  association_required, denied, normalize_name, create_domain,
}

-- The organization of the call, or else the one of the context.
unfoldable pub lookup_owner : Option DomainContext → Option (Option ℕ) → Option (Option ℕ)
lookup_owner context (some organization_id) = some organization_id
lookup_owner none none = none
lookup_owner (some c) none = some c.organization_id

-- The WHERE that the ownership context adds: none, or the tenant of the rows and whether they have
-- no organization.
unfoldable pub owner_filter :
    Option AuthContext → Option (Option ℕ) → Assets → Result Refusal (Domain → Bool)
owner_filter auth none db = ok (λ _. true)
owner_filter auth (some none) db = ok (λ d. is_none d.tenant_key && is_none d.organization_id)
owner_filter auth (some (some o)) db = elim (get o db.organizations) [
  | none ↦ raise organization_unavailable
  | some owner ↦
      if denied auth owner.tenant_key
      then raise outside_scope
      else ok (λ d. same_text d.tenant_key owner.tenant_key)
]

abbrev pub tenant_filter : Option (Option String) → Domain → Bool
tenant_filter none d = true
tenant_filter (some tenant_key) d = same_text d.tenant_key tenant_key

-- `rows[0] if rows else None` of a SELECT … LIMIT 2, which may not give two rows.
unfoldable pub one_row : List (ℕ × Domain) → Result Refusal (Option ℕ)
one_row [] = ok none
one_row ((i, d) ∷ []) = ok (some i)
one_row (_ ∷ (_ ∷ _)) = raise needs_context

-- `organization_id` and `tenant_key` are `none` where they are `UNSPECIFIED`.
unfoldable pub find_domain :
    (String → Option String)
    → Option AuthContext
    → Option DomainContext
    → String
    → Option (Option ℕ)
    → Option (Option String)
    → Assets
    → Result Refusal (Option ℕ)
find_domain idna auth context name organization_id tenant_key db =
    then_do (normalize_name idna name) (λ name'.
      then_do (owner_filter auth (lookup_owner context organization_id) db) (λ owned. one_row (
        keep (λ r. str_eq name' r.1.name && owned r.1 && tenant_filter tenant_key r.1) db.domains)))

abbrev pub or_no_owner : Option (Option ℕ) → Option ℕ
or_no_owner none = none
or_no_owner (some organization_id) = organization_id

-- Without any ownership context, no organization may own the name.
unfoldable pub check_unowned :
    Option (Option ℕ) → (String → Option String) → String → Assets → Result Refusal Bool
check_unowned (some organization_id) idna name db = ok true
check_unowned none idna name db = then_do (normalize_name idna name) (λ name'.
    if any_row (λ d. str_eq name' d.name && not (is_none d.organization_id)) db.domains
    then raise association_required
    else ok true)

-- `tenant_key` and `identity_id` are what the caller gives a new row. The id, and whether the row
-- was created.
unfoldable pub resolve_domain :
    (String → Option String)
    → Option AuthContext
    → Option DomainContext
    → Table String
    → String
    → Option (Option ℕ)
    → Option String
    → Option ℕ
    → Assets
    → Result Refusal ((ℕ × Bool) × Assets)
resolve_domain idna auth context seen name organization_id tenant_key identity_id db =
    let owner = lookup_owner context organization_id in
    then_do (check_unowned owner idna name db) (λ _.
      then_do (find_domain idna auth context name (some (or_no_owner owner)) none db) (λ existing.
        elim existing [
          | some i ↦ ok ((i, false), db)
          | none ↦ then_do (normalize_name idna name) (λ name'.
              then_do
                (create_domain idna auth seen
                  (record {
                    name = name';
                    organization_id = or_no_owner owner;
                    tenant_key = tenant_key;
                    identity_id = identity_id;
                  })
                  db)
                (λ created. ok ((created.0, true), created.1)))
        ]))
