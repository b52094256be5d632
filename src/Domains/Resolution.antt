-- ===== src/Domains/Resolution.antt =====
-- `resolve_domain` of src/orgscan/storage/domain_identity.py: how it ends, and which tenant's domain it gives.
use github_osint_secret_scan.Prelude.{
  ℕ, String, Bool, false, Option, none, some, List, arith, ◌≡◌, ap, ◌∙◌, ◌⊎◌, inl, inr,
  Option-cases,
}
use github_osint_secret_scan.Prelude.Result.{Result, ok, Result-cases, ok_injective}
use github_osint_secret_scan.Prelude.Table.{Table, get}
use github_osint_secret_scan.Access.Context.{AuthContext}
use github_osint_secret_scan.Domains.{
  Refusal, Organization, Domain, DomainContext, Assets, denied, create_domain, normalize_name,
}
use github_osint_secret_scan.Domains.Lookup.{
  find_domain, resolve_domain, check_unowned, lookup_owner, or_no_owner,
}

module _ (idna : String → Option String) (auth : Option AuthContext)
    (context : Option DomainContext) (seen : Table String) (name : String)
    (organization_id : Option (Option ℕ)) (tenant_key : Option String) (identity_id : Option ℕ)
    (db : Assets) where
  abbrev owner : Option (Option ℕ)
  owner = lookup_owner context organization_id

  abbrev resolve : Result Refusal ((ℕ × Bool) × Assets)
  resolve = resolve_domain idna auth context seen name organization_id tenant_key identity_id db

  abbrev new_row : String → Domain
  new_row name' = record {
    name = name';
    organization_id = or_no_owner owner;
    tenant_key = tenant_key;
    identity_id = identity_id;
  }

  -- A domain that is resolved was found, and nothing changed, or it was created.
  pub resolve-cases :
      (r : (ℕ × Bool) × Assets)
      → resolve ≡ ok r
      → ((find_domain idna auth context name (some (or_no_owner owner)) none db ≡ ok (some r.0.0))
          × (db ≡ r.1))
        ⊎ ((name' : String) × (normalize_name idna name ≡ ok name')
            × (create_domain idna auth seen (new_row name') db ≡ ok (r.0.0, r.1)))
  unfolding resolve_domain
  resolve-cases r h = elim (Result-cases (check_unowned owner idna name db)) [
    | inr (e, bad) ↦ absurd (ground (arith, rw (bad, resolve_domain) at h))
    | inl (b, fine) ↦
        let h1 = rw (fine, resolve_domain) at h in
        elim (Result-cases
          (find_domain idna auth context name (some (or_no_owner owner)) none db)) [
            | inr (e, bad) ↦ absurd (ground (arith, rw bad at h1))
            | inl (existing, found) ↦ elim (Option-cases existing) [
              | inr (i, e) ↦
                  let got = ok_injective (rw e at (rw found at h1)) in
                  inl (found ∙ ap ok (e ∙ ap (λ x. some x.0.0) got), ap (λ x. x.1) got)
              | inl e ↦
                  let h2 = rw e at (rw found at h1) in
                  elim (Result-cases (normalize_name idna name)) [
                    | inr (f, bad) ↦ absurd (ground (arith, rw bad at h2))
                    | inl (name', at_name) ↦
                        let h3 = rw at_name at h2 in
                        elim (Result-cases (create_domain idna auth seen (new_row name') db)) [
                          | inr (f, bad) ↦ absurd (ground (arith, rw bad at h3))
                          | inl (created, made) ↦
                              let got = ok_injective (rw made at h3) in
                              inr (name', at_name, made ∙ ap ok (ap (λ x. (x.0.0, x.1)) got))
                        ]
                  ]
            ]
          ]
  ]

-- Row `i` is the domain of that name in the tenant of organization `o`, for which the caller may
-- work. Another organization of the tenant may be the one that the row names.
pub record IsAssociation (idna : String → Option String) (auth : Option AuthContext) (name : String)
    (o i : ℕ) (db : Assets) : Type 0 where
  pub canonical : String
  pub at_name : normalize_name idna name ≡ ok canonical
  pub owner : Organization
  pub at_owner : get o db.organizations ≡ some owner
  pub allowed : denied auth owner.tenant_key ≡ false
  pub domain : Domain
  pub at_domain : get i db.domains ≡ some domain
  pub same_name : domain.name ≡ canonical
  pub same_tenant : domain.tenant_key ≡ owner.tenant_key
