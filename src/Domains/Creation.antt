-- ===== src/Domains/Creation.antt =====
-- What a successful `create_domain` of src/orgscan/repositories.py checked and wrote.
use github_osint_secret_scan.Prelude.{
  ℕ, String, false, Option, some, arith, ◌≡◌, sym, ap, ◌∙◌, inl, inr, Bool-cases,
}
use github_osint_secret_scan.Prelude.Result.{Result, ok, Result-cases, ok_injective}
use github_osint_secret_scan.Prelude.Select.{any_row}
use github_osint_secret_scan.Prelude.Table.{Table, fresh_id, add_row}
use github_osint_secret_scan.Access.Context.{AuthContext}
use github_osint_secret_scan.Domains.{
  Refusal, Domain, Assets, normalize_name, denied, owner_tenant, identity_of, prepare_domain,
  clashes, create_domain,
}

module _ (idna : String → Option String) (auth : Option AuthContext) (seen : Table String)
    (row : Domain) (db : Assets) where
  abbrev prepare : Result Refusal (Domain × Assets)
  prepare = prepare_domain idna auth seen row db

  abbrev pub prepared : String → Option String → Domain × Assets
  prepared name tenant = (
    record {
      name = name;
      organization_id = row.organization_id;
      tenant_key = tenant;
      identity_id = some (identity_of seen name db.identities).0;
    },
    record db { identities = (identity_of seen name db.identities).1 },
  )

  prepare-cases :
      (p : Domain × Assets)
      → prepare ≡ ok p
      → (name : String) × (tenant : Option String) × (normalize_name idna row.name ≡ ok name)
        × (owner_tenant row.organization_id db ≡ ok tenant)
        × (denied auth tenant ≡ false)
        × (prepared name tenant ≡ p)
  unfolding prepare_domain
  prepare-cases p h = elim (Result-cases (normalize_name idna row.name)) [
    | inr (e, at_name) ↦ absurd (ground (arith, rw (at_name, prepare_domain) at h))
    | inl (name, at_name) ↦ elim (Result-cases (owner_tenant row.organization_id db)) [
      | inr (e, at_owner) ↦
          absurd (ground (arith, rw at_owner at (rw (at_name, prepare_domain) at h)))
      | inl (tenant, at_owner) ↦ (
        name,
        tenant,
        at_name,
        at_owner,
        ground (arith, rw at_owner at (rw (at_name, prepare_domain) at h)),
        ground (arith, rw at_owner at (rw (at_name, prepare_domain) at h)),
      )
    ]
  ]

  abbrev inserted_row : Domain × Assets → ℕ × Assets
  inserted_row p = (fresh_id p.1.domains, record p.1 { domains = add_row p.0 p.1.domains })

  -- What a successful creation checked and wrote.
  pub create-cases :
      (i : ℕ) (db' : Assets)
      → create_domain idna auth seen row db ≡ ok (i, db')
      → (name : String) × (tenant : Option String) × (normalize_name idna row.name ≡ ok name)
        × (owner_tenant row.organization_id db ≡ ok tenant)
        × (denied auth tenant ≡ false)
        × (any_row (clashes (prepared name tenant).0) db.domains ≡ false)
        × (inserted_row (prepared name tenant) ≡ (i, db'))
  unfolding create_domain
  create-cases i db' h = elim (Result-cases prepare) [
    | inr (e, refused) ↦ absurd (ground (arith, rw (refused, create_domain) at h))
    | inl (p, flushed) ↦
        let (name, tenant, at_name, at_owner, allowed, at_p) = prepare-cases p flushed in
        let h' = rw (flushed ∙ ap ok (sym at_p), create_domain) at h in
        elim (Bool-cases (any_row (clashes (prepared name tenant).0) db.domains)) [
          | inl taken ↦ absurd (ground (arith, rw taken at h'))
          | inr free ↦
              (name, tenant, at_name, at_owner, allowed, free, ok_injective (rw free at h'))
        ]
  ]
