-- ===== src/Domains/Owned/System.antt =====
-- Domains and organizations under any sequence of calls.
use mathlib.Core.Path.{subst}
use github_osint_secret_scan.Prelude.{
  ℕ, String, is_none, Bool, true, false, not, Option, none, some, [], ◌==◌, ◌&&◌, ◌||◌, arith, ◌≡◌,
  sym, inl, inr, Bool-cases, Option-cases,
}
use github_osint_secret_scan.Prelude.Result.{ok, Result-cases, ok_injective}
use github_osint_secret_scan.Prelude.Select.{
  same_text, same_text_iff, any_row, any_row-none, add_row-kept,
}
use github_osint_secret_scan.Prelude.Table.{Table, get, add_row, update_where, get-update_where}
use github_osint_secret_scan.Prelude.Rows.{IsKeyed}
use github_osint_secret_scan.Access.Context.{AuthContext}
use github_osint_secret_scan.Domains.{
  Organization, Domain, DomainContext, Assets, same_id, create_domain,
}
use github_osint_secret_scan.Domains.Lookup.{resolve_domain}
use github_osint_secret_scan.Domains.Organizations.{
  create_organization, flush_organization, claim_unassigned_owner,
  validate_organization_domain_anchor, owned_elsewhere,
}
use github_osint_secret_scan.Domains.Resolution.{resolve-cases}
use github_osint_secret_scan.Domains.Owned.{OwnedBy, Kept, IsOwned, create_domain-IsOwned}

-- Other organizations, where each domain is still its owner's.
reowned-IsOwned :
    (db : Assets) (orgs : Table Organization)
    → IsOwned db
    → ((i : ℕ) (d : Domain)
        → get i db.domains ≡ some d
        → OwnedBy db.organizations d.organization_id d.tenant_key
        → OwnedBy orgs d.organization_id d.tenant_key)
    → IsOwned (record db { organizations = orgs })
reowned-IsOwned db orgs s keeps = record {
  keyed = s.keyed;
  global = s.global;
  named = s.named;
  owned = λ i d at_i. keeps i d at_i (s.owned i d at_i);
  single = s.single;
}

OwnedBy-grown :
    (org : Organization) (orgs : Table Organization) (o : Option ℕ) (tenant : Option String)
    → OwnedBy orgs o tenant
    → OwnedBy (add_row org orgs) o tenant
unfolding OwnedBy
OwnedBy-grown org orgs none tenant h = h
OwnedBy-grown org orgs (some o) tenant (row, at_o, same) =
    (row, add_row-kept org orgs o row at_o, same)

create_organization-IsOwned :
    (org : Organization) (db : Assets) → IsOwned db → IsOwned (create_organization org db).1
unfolding create_organization
create_organization-IsOwned org db s =
    reowned-IsOwned db _ s
      (λ i d at_i. OwnedBy-grown org db.organizations d.organization_id d.tenant_key)

module _ (o : ℕ) (value : Option String) (p : Organization → Bool) where
  abbrev assign : Organization → Organization
  assign org = record org { tenant_key = value }

  OwnedBy-assigned :
      (orgs : Table Organization) (k : Option ℕ) (tenant : Option String)
      → (same_id k (some o) && not (same_text tenant value)) ≡ false
      → OwnedBy orgs k tenant
      → OwnedBy (update_where o p assign orgs).0 k tenant
  unfolding OwnedBy
  OwnedBy-assigned orgs none tenant t h = h
  OwnedBy-assigned orgs (some k) tenant t (row, at_k, same) =
      let after = get-update_where o k p assign orgs in
      elim (Bool-cases (o == k)) [
        | inr other ↦ (row, ground (arith, after, other, at_k), same)
        | inl here ↦ elim (Bool-cases (p row)) [
          | inr refused ↦ (row, ground (arith, after, here, at_k, refused), same)
          | inl accepted ↦ (
            assign row,
            ground (arith, after, here, at_k, accepted),
            sym ((same_text_iff tenant value).0 (ground (arith, t, here))),
          )
        ]
      ]

  -- The tenant of an organization changes only if none of its domains is left with another one.
  assigned-IsOwned :
      (db : Assets)
      → IsOwned db
      → any_row (owned_elsewhere o value) db.domains ≡ false
      → IsOwned (record db { organizations = (update_where o p assign db.organizations).0 })
  assigned-IsOwned db s anchor = reowned-IsOwned db _ s (λ i d at_i.
      OwnedBy-assigned db.organizations d.organization_id d.tenant_key
        (any_row-none (owned_elsewhere o value) db.domains i d anchor at_i))

anchor-cases :
    (o : ℕ) (value : Option String) (db : Assets) (b : Bool)
    → validate_organization_domain_anchor o value db ≡ ok b
    → any_row (owned_elsewhere o value) db.domains ≡ false
unfolding validate_organization_domain_anchor
anchor-cases o value db b h = ground (arith, h)

claim_unassigned_owner-IsOwned :
    (o : ℕ) (existing : Organization) (value : Option String) (db db' : Assets)
    → IsOwned db
    → claim_unassigned_owner o existing value db ≡ ok db'
    → IsOwned db'
unfolding claim_unassigned_owner
claim_unassigned_owner-IsOwned o existing value db db' s h =
    elim (Bool-cases (is_none value || not (is_none existing.tenant_key))) [
      | inl skip ↦ subst IsOwned (ok_injective (rw (skip, claim_unassigned_owner) at h)) s
      | inr go ↦ elim (Result-cases (validate_organization_domain_anchor o value db)) [
        | inr (e, bad) ↦ absurd (ground (arith, rw bad at (rw (go, claim_unassigned_owner) at h)))
        | inl (b, fine) ↦
            let h' = rw fine at (rw (go, claim_unassigned_owner) at h) in
            subst IsOwned (ground (arith, h')) (
              assigned-IsOwned o value (λ org. is_none org.tenant_key) db s
                (anchor-cases o value db b fine))
      ]
    ]

flush_organization-IsOwned :
    (o : ℕ) (value : Option String) (db db' : Assets)
    → IsOwned db
    → flush_organization o value db ≡ ok db'
    → IsOwned db'
unfolding flush_organization
flush_organization-IsOwned o value db db' s h = elim (Option-cases (get o db.organizations)) [
  | inl missing ↦ subst IsOwned (ok_injective (rw (missing, flush_organization) at h)) s
  | inr (org, at_o) ↦
      let h1 = rw (at_o, flush_organization) at h in
      elim (Bool-cases (same_text org.tenant_key value)) [
        | inl same ↦ subst IsOwned (ok_injective (rw same at h1)) s
        | inr changed ↦ elim (Result-cases (validate_organization_domain_anchor o value db)) [
          | inr (e, bad) ↦ absurd (ground (arith, rw bad at (rw changed at h1)))
          | inl (b, fine) ↦
              let h2 = rw fine at (rw changed at h1) in
              subst IsOwned (ground (arith, h2))
                (assigned-IsOwned o value (λ _. true) db s (anchor-cases o value db b fine))
        ]
      ]
]

-- One call, on what its process read of the identities before.
pub data Step (idna : String → Option String) : Assets → Assets → Type 0 where
  creates_organization :
      (org : Organization) (d : Assets) → Step idna d (create_organization org d).1
  claims :
      (o : ℕ) (existing : Organization) (value : Option String) {d d' : Assets}
      → claim_unassigned_owner o existing value d ≡ ok d'
      → Step idna d d'
  flushes :
      (o : ℕ) (value : Option String) {d d' : Assets}
      → flush_organization o value d ≡ ok d'
      → Step idna d d'
  creates :
      (auth : Option AuthContext) (seen : Table String) (row : Domain) (i : ℕ) {d d' : Assets}
      → IsKeyed seen
      → Kept seen d.identities
      → create_domain idna auth seen row d ≡ ok (i, d')
      → Step idna d d'
  resolves :
      (auth : Option AuthContext) (context : Option DomainContext) (seen : Table String)
      (name : String) (organization_id : Option (Option ℕ)) (tenant_key : Option String)
      (identity_id : Option ℕ) (i : ℕ × Bool) {d d' : Assets}
      → IsKeyed seen
      → Kept seen d.identities
      → resolve_domain idna auth context seen name organization_id tenant_key identity_id d
        ≡ ok (i, d')
      → Step idna d d'

pub data Reachable (idna : String → Option String) : Assets → Type 0 where
  empty : Reachable idna (record { organizations = []; domains = []; identities = [] })
  next : {d d' : Assets} → Reachable idna d → Step idna d d' → Reachable idna d'

step-IsOwned :
    (idna : String → Option String) {d d' : Assets} → Step idna d d' → IsOwned d → IsOwned d'
step-IsOwned idna (Step.creates_organization org d) s = create_organization-IsOwned org d s
step-IsOwned idna {d} {d'} (Step.claims o existing value h) s =
    claim_unassigned_owner-IsOwned o existing value d d' s h
step-IsOwned idna {d} {d'} (Step.flushes o value h) s = flush_organization-IsOwned o value d d' s h
step-IsOwned idna {d} {d'} (Step.creates auth seen row i keyed older h) s =
    create_domain-IsOwned idna auth seen row d keyed older i d' s h
step-IsOwned idna {d} {d'} (Step.resolves auth context seen name o tenant identity i keyed older h)
      s =
    elim (resolve-cases idna auth context seen name o tenant identity d (i, d') h) [
      | inl (found, same) ↦ subst IsOwned same s
      | inr (name', at_name, made) ↦
          create_domain-IsOwned idna auth seen _ d keyed older i.0 d' s made
    ]

-- Whatever is called, in whatever order, by whoever and on whatever earlier version of the
-- identities: each domain has the tenant of its organization, and none without one; it carries the
-- one identity of its name; and a tenant has at most one domain of a name.
pub reachable-IsOwned : (idna : String → Option String) {d : Assets} → Reachable idna d → IsOwned d
unfolding get
reachable-IsOwned idna Reachable.empty = record {
  keyed = tt;
  global = record { keyed = tt; unique = λ j k n h. cc h };
  named = λ i d h. cc h;
  owned = λ i d h. cc h;
  single = λ i j d e h. cc h;
}
reachable-IsOwned idna (Reachable.next r step) = step-IsOwned idna step (reachable-IsOwned idna r)
