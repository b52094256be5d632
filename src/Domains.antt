-- ===== src/Domains.antt =====
-- `prepare_domain` of src/orgscan/storage/domain_identity.py, and `create_domain` of
-- src/orgscan/repositories.py: who owns a domain, and which identity its name has. A row is named
-- by its id; the columns that say nothing about either are left out. `idna` is
-- `value.strip().rstrip('.').encode('idna').decode('ascii').lower()`, `none` where it raises.
pub mod Lookup
pub mod Organizations
pub mod Creation
pub mod Owned
pub mod Resolution
use Prim.Native.Char.{code}
use github_osint_secret_scan.Prelude.{
  ℕ, String, str_eq, is_none, Bool, true, false, not, ◌&&◌, ◌||◌, Option, none, some, List, [], ◌∷◌,
  ◌-◌, ltb, leb, ◌==◌, if◌then◌else◌, keep, length,
}
use github_osint_secret_scan.Prelude.Result.{Result, ok, raise, then_do}
use github_osint_secret_scan.Prelude.Table.{Table, get, fresh_id, add_row, update_where}
use github_osint_secret_scan.Access.Context.{AuthContext, allows_tenant}
use github_osint_secret_scan.Prelude.Select.{same_text, find_row, any_row}

-- The exceptions that the code raises, and the one of a unique constraint.
pub data Refusal : Type 0 where
  invalid_identity organization_unavailable outside_scope tenant_mismatch identity_immutable :
      Refusal
  needs_context association_required anchored ownership_conflict association_immutable : Refusal
  duplicate : Refusal

pub record Organization : Type 0 where
  pub name : String
  pub tenant_key : Option String

pub record Domain : Type 0 where
  pub name : String
  pub organization_id : Option ℕ
  pub tenant_key : Option String
  pub identity_id : Option ℕ

-- `identities` has the column `normalized_name` of `domain_identities`.
pub record Assets : Type 0 where
  pub organizations : Table Organization
  pub domains : Table Domain
  pub identities : Table String

-- The association that `domain_scope` put on the storage.
pub record DomainContext : Type 0 where
  pub organization_id : Option ℕ
  pub tenant_key : Option String

abbrev is_alnum : ℕ → Bool
is_alnum c = leb b'0' c && leb c b'9' || leb b'a' c && leb c b'z'

abbrev codes : String → List ℕ
codes String.[] = []
codes (String.◌∷◌ c s) = code c ∷ codes s

-- The group of the expression after the first character: it ends in a letter or a digit.
unfoldable label_tail : List ℕ → Bool
label_tail [] = true
label_tail (c ∷ []) = is_alnum c
label_tail (c ∷ (d ∷ cs)) = (is_alnum c || c == b'-') && label_tail (d ∷ cs)

-- re.fullmatch(r'[a-z0-9](?:[a-z0-9-]{0,61}[a-z0-9])?', label)
unfoldable is_label : List ℕ → Bool
unfolding label_tail
is_label [] = false
is_label (c ∷ cs) = is_alnum c && leb (length cs) 62 && label_tail cs

abbrev onto_first : ℕ → List (List ℕ) → List (List ℕ)
onto_first c [] = (c ∷ []) ∷ []
onto_first c (l ∷ ls) = (c ∷ l) ∷ ls

-- name.split('.')
unfoldable labels : List ℕ → List (List ℕ)
labels [] = [] ∷ []
labels (c ∷ cs) = let rest = labels cs in if c == b'.' then [] ∷ rest else onto_first c rest

abbrev all_labels : List (List ℕ) → Bool
all_labels [] = true
all_labels (l ∷ ls) = is_label l && all_labels ls

unfoldable pub normalize_name : (String → Option String) → String → Result Refusal String
unfolding is_label labels
normalize_name idna value = elim (idna value) [
  | none ↦ raise invalid_identity
  | some name ↦
      if ltb 253 (length (codes name)) || str_eq name "" || not (all_labels (labels (codes name)))
      then raise invalid_identity
      else ok name
]

-- auth is not None and not auth.allows_tenant(tenant)
unfoldable pub denied : Option AuthContext → Option String → Bool
denied none tenant = false
denied (some auth) tenant = not (allows_tenant tenant auth)

-- The tenant of the organization that a row names.
unfoldable pub owner_tenant : Option ℕ → Assets → Result Refusal (Option String)
owner_tenant none db = ok none
owner_tenant (some o) db = elim (get o db.organizations) [
  | none ↦ raise organization_unavailable
  | some org ↦ ok org.tenant_key
]

-- SELECT, INSERT … ON CONFLICT DO NOTHING, and the second SELECT. Another process may have added
-- the name since the first SELECT, which saw `seen`.
unfoldable pub identity_of : Table String → String → Table String → ℕ × Table String
identity_of seen name identities = elim (find_row (str_eq name) seen) [
  | some k ↦ (k, identities)
  | none ↦ elim (find_row (str_eq name) identities) [
    | some k ↦ (k, identities)
    | none ↦ (fresh_id identities, add_row name identities)
  ]
]

abbrev differs : Option ℕ → ℕ → Bool
differs none k = false
differs (some j) k = not (j == k)

-- The row as it is flushed, and the database with its identity.
unfoldable pub prepare_domain :
    (String → Option String)
    → Option AuthContext
    → Table String
    → Domain
    → Assets
    → Result Refusal (Domain × Assets)
prepare_domain idna auth seen row db = then_do (normalize_name idna row.name) (λ name.
    then_do (owner_tenant row.organization_id db) (λ tenant.
      let identity = identity_of seen name db.identities in
      if denied auth tenant
      then raise outside_scope
      else if not (is_none row.tenant_key) && not (same_text row.tenant_key tenant)
      then raise tenant_mismatch
      else if differs row.identity_id identity.0
      then raise identity_immutable
      else ok (
        record {
          name = name;
          organization_id = row.organization_id;
          tenant_key = tenant;
          identity_id = some identity.0;
        },
        record db { identities = identity.1 },
      )))

abbrev pub same_id : Option ℕ → Option ℕ → Bool
same_id (some j) (some k) = j == k
same_id _ _ = false

-- uq_domain_tenant_identity, and uq_domain_legacy_identity for the rows without a tenant.
unfoldable pub clashes : Domain → Domain → Bool
clashes row d = same_id d.identity_id row.identity_id && same_text d.tenant_key row.tenant_key

-- `create_domain`: the flush prepares the row and inserts it.
unfoldable pub create_domain :
    (String → Option String)
    → Option AuthContext
    → Table String
    → Domain
    → Assets
    → Result Refusal (ℕ × Assets)
create_domain idna auth seen row db = then_do (prepare_domain idna auth seen row db) (λ prepared.
    if any_row (clashes prepared.0) prepared.1.domains
    then raise duplicate
    else ok (
      fresh_id prepared.1.domains,
      record prepared.1 { domains = add_row prepared.0 prepared.1.domains },
    ))
