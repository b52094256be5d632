-- ===== src/Domains/Owned.antt =====
-- What holds of organizations, domains and identities after any calls of
-- src/orgscan/storage/domain_identity.py.
pub mod System
use mathlib.Core.Path.{subst}
use github_osint_secret_scan.Prelude.{
  ℕ, String, str_eq, eq_iff, eq_refl, is_none, Bool, true, false, not, Option, none, some, arith,
  ◌≡◌, refl, sym, ap, ◌∙◌, inl, inr, Bool-cases, Option-cases, some_injective, if◌then◌else◌,
}
use github_osint_secret_scan.Prelude.Result.{Result, ok, raise, Result-cases, ok_injective}
use github_osint_secret_scan.Prelude.Select.{
  same_text, same_text_iff, find_row, find_row-get, find_row-none, any_row, any_row-none,
  add_row-Origin, add_row-kept, add_row-new,
}
use github_osint_secret_scan.Prelude.Table.{Table, get, fresh_id, add_row, update_where}
use github_osint_secret_scan.Prelude.Rows.{IsKeyed, add_row-IsKeyed}
use github_osint_secret_scan.Access.Context.{AuthContext}
use github_osint_secret_scan.Domains.Creation.{prepared, create-cases}
use github_osint_secret_scan.Domains.{
  Refusal, Organization, Domain, Assets, normalize_name, denied, owner_tenant, identity_of, differs,
  prepare_domain, clashes, create_domain,
}

-- A row has the tenant of the organization that it names, and none without one.
unfoldable pub OwnedBy : Table Organization → Option ℕ → Option String → Type 0
OwnedBy orgs none tenant = tenant ≡ none
OwnedBy orgs (some o) tenant =
    (org : Organization) × (get o orgs ≡ some org) × (org.tenant_key ≡ tenant)

-- Each name has one identity.
pub record IsGlobal (identities : Table String) : Type 0 where
  pub keyed : IsKeyed identities
  pub unique :
      (j k : ℕ) (name : String)
      → get j identities ≡ some name
      → get k identities ≡ some name
      → j ≡ k

abbrev pub Named : Table String → Domain → Type 0
Named identities d = (k : ℕ) × (d.identity_id ≡ some k) × (get k identities ≡ some d.name)

-- Each domain has the tenant of its organization and the one identity of its name, and a tenant has
-- one domain of a name.
pub record IsOwned (db : Assets) : Type 0 where
  pub keyed : IsKeyed db.domains
  pub global : IsGlobal db.identities
  pub named : (i : ℕ) (d : Domain) → get i db.domains ≡ some d → Named db.identities d
  pub owned :
      (i : ℕ) (d : Domain)
      → get i db.domains ≡ some d
      → OwnedBy db.organizations d.organization_id d.tenant_key
  pub single :
      (i j : ℕ) (d e : Domain)
      → get i db.domains ≡ some d
      → get j db.domains ≡ some e
      → d.name ≡ e.name
      → d.tenant_key ≡ e.tenant_key
      → i ≡ j

abbrev pub Kept : Table String → Table String → Type 0
Kept old new = (k : ℕ) (name : String) → get k old ≡ some name → get k new ≡ some name

-- What the search for an identity gives.
record IsIdentity (old : Table String) (name : String) (found : ℕ × Table String) : Type 0 where
  here : get found.0 found.1 ≡ some name
  kept : Kept old found.1
  global : IsGlobal found.1

found_name :
    (name : String) (t : Table String) (k : ℕ)
    → IsKeyed t
    → find_row (str_eq name) t ≡ some k
    → get k t ≡ some name
found_name name t k keyed h =
    let (n, at_k, same) = find_row-get (str_eq name) t k keyed h in
    at_k ∙ ap some (sym ((eq_iff name n).0 same))

add_name-IsGlobal :
    (name : String) (t : Table String)
    → IsGlobal t
    → find_row (str_eq name) t ≡ none
    → IsGlobal (add_row name t)
add_name-IsGlobal name t g missing =
    let fresh : (j : ℕ) (n : String) → get j t ≡ some n → str_eq name n ≡ false =
      λ j n at_j. find_row-none (str_eq name) t j n missing at_j in
    record {
      keyed = add_row-IsKeyed name t g.keyed;
      unique = λ j k n at_j at_k. elim (add_row-Origin name t j n at_j) [
        | inl old ↦ elim (add_row-Origin name t k n at_k) [
          | inl old' ↦ g.unique j k n old old'
          | inr new' ↦ cc (fresh j n old, ap (str_eq name) new'.1, eq_refl name)
        ]
        | inr new ↦ elim (add_row-Origin name t k n at_k) [
          | inl old' ↦ cc (fresh k n old', ap (str_eq name) new.1, eq_refl name)
          | inr new' ↦ new.0 ∙ sym new'.0
        ]
      ];
    }

identity_of-IsIdentity :
    (seen : Table String) (name : String) (t : Table String)
    → IsKeyed seen
    → Kept seen t
    → IsGlobal t
    → IsIdentity t name (identity_of seen name t)
unfolding identity_of
identity_of-IsIdentity seen name t keyed older g =
    elim (Option-cases (find_row (str_eq name) seen)) [
      | inr (k, e) ↦
          rw (e, identity_of)
            (record {
              here = older k name (found_name name seen k keyed e);
              kept = λ j n h. h;
              global = g;
            })
      | inl missed ↦ elim (Option-cases (find_row (str_eq name) t)) [
        | inr (k, e) ↦
            rw (missed, identity_of)
              (rw e
                (record { here = found_name name t k g.keyed e; kept = λ j n h. h; global = g }))
        | inl missing ↦
            rw (missed, identity_of)
              (rw missing (record {
                here = add_row-new name t;
                kept = λ j n h. add_row-kept name t j n h;
                global = add_name-IsGlobal name t g missing;
              }))
      ]
    ]

pub owner_tenant-OwnedBy :
    (o : Option ℕ) (db : Assets) (tenant : Option String)
    → owner_tenant o db ≡ ok tenant
    → OwnedBy db.organizations o tenant
unfolding owner_tenant OwnedBy
owner_tenant-OwnedBy none db tenant h = sym (ok_injective h)
owner_tenant-OwnedBy (some o) db tenant h = elim (Option-cases (get o db.organizations)) [
  | inl e ↦ ground (arith, h, e)
  | inr (org, e) ↦ (org, e, ok_injective (rw (e, owner_tenant) at h))
]

-- Two rows of one tenant and one name violate a unique constraint.
twins-clash :
    (ids : Table String) (d e : Domain)
    → IsGlobal ids
    → Named ids d
    → Named ids e
    → d.name ≡ e.name
    → d.tenant_key ≡ e.tenant_key
    → clashes e d ≡ true
unfolding clashes
twins-clash ids d e g (j, d_id, at_j) (k, e_id, at_k) same_name same_tenant =
    let same_identity = g.unique j k e.name (at_j ∙ ap some same_name) at_k in
    rw d_id (
      rw e_id
        (ground (arith, same_identity, (same_text_iff d.tenant_key e.tenant_key).1 same_tenant)))

-- A row that is inserted with the identity of its name, for the tenant of its organization, and
-- that violates no constraint.
inserted-IsOwned :
    (db : Assets) (row : Domain) (ids : Table String)
    → IsOwned db
    → Kept db.identities ids
    → IsGlobal ids
    → Named ids row
    → OwnedBy db.organizations row.organization_id row.tenant_key
    → any_row (clashes row) db.domains ≡ false
    → IsOwned (record db { identities = ids; domains = add_row row db.domains })
inserted-IsOwned db row ids s kept g row_named row_owned free =
    let renamed : (i : ℕ) (d : Domain) → get i db.domains ≡ some d → Named ids d =
      λ i d at_i. let (k, at_id, at_k) = s.named i d at_i in (k, at_id, kept k d.name at_k) in
    let distinct : (i : ℕ) (d : Domain)
        → get i db.domains ≡ some d
        → d.name ≡ row.name
        → d.tenant_key ≡ row.tenant_key
        → ⊥ =
      λ i d at_i same_name same_tenant. cc (
        any_row-none (clashes row) db.domains i d free at_i,
        twins-clash ids d row g (renamed i d at_i) row_named same_name same_tenant,
      ) in
    record {
      keyed = add_row-IsKeyed row db.domains s.keyed;
      global = g;
      named = λ i d at_i. elim (add_row-Origin row db.domains i d at_i) [
        | inl old ↦ renamed i d old
        | inr new ↦ rw new.1 row_named
      ];
      owned = λ i d at_i. elim (add_row-Origin row db.domains i d at_i) [
        | inl old ↦ s.owned i d old
        | inr new ↦ rw new.1 row_owned
      ];
      single = λ i j d e at_i at_j same_name same_tenant.
          elim (add_row-Origin row db.domains i d at_i) [
            | inl old ↦ elim (add_row-Origin row db.domains j e at_j) [
              | inl old' ↦ s.single i j d e old old' same_name same_tenant
              | inr new' ↦ absurd (
                  distinct i d old (same_name ∙ ap (λ r. r.name) new'.1)
                    (same_tenant ∙ ap (λ r. r.tenant_key) new'.1))
            ]
            | inr new ↦ elim (add_row-Origin row db.domains j e at_j) [
              | inl old' ↦ absurd (
                  distinct j e old' (sym same_name ∙ ap (λ r. r.name) new.1)
                    (sym same_tenant ∙ ap (λ r. r.tenant_key) new.1))
              | inr new' ↦ new.0 ∙ sym new'.0
            ]
          ];
    }

module _ (idna : String → Option String) (auth : Option AuthContext) (seen : Table String)
    (row : Domain) (db : Assets) (seen_keyed : IsKeyed seen) (older : Kept seen db.identities) where
  -- A domain that is created keeps the invariant, whoever asks for it.
  pub create_domain-IsOwned :
      (i : ℕ) (db' : Assets)
      → IsOwned db
      → create_domain idna auth seen row db ≡ ok (i, db')
      → IsOwned db'
  create_domain-IsOwned i db' s h =
      let (name, tenant, _, owner, _, free, inserted) =
        create-cases idna auth seen row db i db' h in
      let found = identity_of-IsIdentity seen name db.identities seen_keyed older s.global in
      subst IsOwned (ap (λ r. r.1) inserted) (
        inserted-IsOwned db (prepared idna auth seen row db name tenant).0
          (identity_of seen name db.identities).1 s found.kept found.global
          ((identity_of seen name db.identities).0, refl, found.here)
          (owner_tenant-OwnedBy row.organization_id db tenant owner) free)
