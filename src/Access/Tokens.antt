-- ===== src/Access/Tokens.antt =====
-- src/orgscan/auth.py: the tokens of the environment, new sessions, and the tenants that a request
-- asks for. An entry of the environment's JSON list is read as texts: `token` and `role` stripped,
-- `role` in lower case, and `name` with its default.
pub mod Grants
pub mod Issued
use github_osint_secret_scan.Prelude.{
  ℕ, String, str_eq, is_member, is_empty, has_text, Bool, true, false, not, ◌&&◌, ◌||◌, Option,
  none, some, List, [], ◌∷◌, if◌then◌else◌, ltb, keep, map, or_default,
}
use github_osint_secret_scan.Prelude.Dict.{Dict, lookup, insert}
use github_osint_secret_scan.Prelude.Result.{Result, ok, raise}
use github_osint_secret_scan.Jobs.Model.{Time}
use github_osint_secret_scan.Access.Context.{AuthContext, level, role_level, is_role, allows_tenant}
use github_osint_secret_scan.Access.Storage.{
  UserTenantMembership, UserSession, AuthTables, get_user_by_username, create_user_session,
  list_user_tenant_memberships,
}
use github_osint_secret_scan.Access.Sessions.{capped_role, scoped, key_of}

pub data TenantsValue : Type 0 where
  every other : TenantsValue
  listed : List String → TenantsValue

pub record TokenEntry : Type 0 where
  pub token : String
  pub role : String
  pub name : String
  pub tenants : TenantsValue
  pub capabilities : Option (List String)

-- any(value != 'secrets:reveal' for value in capabilities)
abbrev pub unsupported : List String → Bool
unsupported [] = false
unsupported (c ∷ cs) = not (str_eq c "secrets:reveal") || unsupported cs

-- `value.strip()` of each value, without the empty ones; `strip` is Python's.
abbrev stripped : (String → String) → List String → List String
stripped strip values = keep (λ s. not (str_eq s "")) (map strip values)

abbrev normalized : (String → String) → TenantsValue → Option (List String)
normalized strip every = some ("*" ∷ [])
normalized strip (listed values) = some (stripped strip values)
normalized strip other = none

-- One round of the loop: the context of an entry, or the error that it raises.
unfoldable pub entry_context : (String → String) → TokenEntry → Result String AuthContext
unfolding role_level keep
entry_context strip e = elim e.capabilities [
  | none ↦ raise "Token capabilities must be a list of supported capabilities"
  | some capabilities ↦
      if unsupported capabilities
      then raise "Token capabilities must be a list of supported capabilities"
      else if not (is_role e.role)
      then raise "Unsupported auth role"
      else if str_eq e.token ""
      then raise "Each auth token entry must include a token."
      else elim (normalized strip e.tenants) [
        | none ↦ raise "Auth token tenants must be '*' or a JSON list of tenant keys."
        | some tenants ↦ ok (record {
          name = e.name;
          role = e.role;
          tenants = tenants;
          authenticated = true;
          source = "env-token";
          user_id = none;
          capabilities = capabilities;
        })
      ]
]

-- An entry that is no JSON object is `none`.
unfoldable pub load_entries :
    (String → String)
    → Dict AuthContext
    → List (Option TokenEntry)
    → Result String (Dict AuthContext)
unfolding entry_context insert
load_entries strip contexts [] = ok contexts
load_entries strip contexts (none ∷ entries) = raise "Each auth token entry must be a JSON object."
load_entries strip contexts (some e ∷ entries) = elim (entry_context strip e) [
  | raise error ↦ raise error
  | ok c ↦ load_entries strip (insert e.token c contexts) entries
]

-- {row.tenant_key: row.role for row in rows}
unfoldable pub role_map : Dict String → List UserTenantMembership → Dict String
unfolding insert
role_map d [] = d
role_map d (m ∷ rows) = role_map (insert m.tenant_key m.role d) rows

abbrev pub all_roles : Dict String → Bool
all_roles [] = true
all_roles ((k, role) ∷ d) = is_role role && all_roles d

-- any(tenant not in memberships and "*" not in memberships for tenant in tenants)
abbrev pub unassigned : Dict String → List String → Bool
unassigned memberships [] = false
unassigned memberships (t ∷ tenants) =
    not (is_member t (map key_of memberships)) && not (is_member "*" (map key_of memberships))
    || unassigned memberships tenants

-- The least role of the memberships that the tenants select.
unfoldable pub role_cap : Dict String → List String → String
unfolding capped_role scoped
role_cap memberships [] = "reader"
role_cap memberships (t ∷ tenants) =
    capped_role (scoped "reader" memberships t) (map (scoped "reader" memberships) tenants)

-- `role or role_cap`
abbrev pub wanted_role : Option String → String → String
wanted_role role cap = if has_text role then or_default role cap else cap

-- The first test of a session's tenants and role that fails.
unfoldable pub grant_error : Dict String → List String → String → Option String
unfolding role_cap role_level
grant_error memberships tenants role =
    if not (all_roles memberships)
    then some "Invalid stored membership role"
    else if is_empty tenants || unassigned memberships tenants
    then some "Session scopes must have assigned tenant memberships"
    else if ltb (level (role_cap memberships tenants)) (level role)
    then some "Session role exceeds the user's tenant memberships"
    else if not (is_role role)
    then some "Unsupported auth role"
    else none

-- What a session is given: its tenants and its role.
unfoldable pub session_grant :
    Dict String → Option String → Option (List String) → Result String (List String × String)
unfolding role_cap grant_error
session_grant memberships role tenants =
    let resolved = or_default tenants (map key_of memberships) in
    let granted = wanted_role role (role_cap memberships resolved) in
    elim (grant_error memberships resolved granted) [
      | some error ↦ raise error
      | none ↦ ok (resolved, granted)
    ]

abbrev pub issued_session :
    ℕ → Option String → String → List String → String → Option Time → UserSession
issued_session user_id session_name token_hash tenants role expires_at = record {
  user_id = user_id;
  session_name = session_name;
  token_hash = token_hash;
  role = role;
  tenant_scopes = tenants;
  expires_at = expires_at;
  revoked_at = none;
  last_used_at = none;
  metadata = record {
    kind = none;
    csrf_hash = none;
    parent_env_hash = none;
    parent_session_id = none;
  };
}

-- The digest, the database's order of texts and the random token are arguments.
unfoldable pub create_db_session_token :
    (String → String)
    → (String → String → Bool)
    → String
    → String
    → Option String
    → Option String
    → Option (List String)
    → Option Time
    → AuthTables
    → Result String (ℕ × AuthTables)
unfolding get_user_by_username list_user_tenant_memberships role_map session_grant
    create_user_session
create_db_session_token hash_token before raw_token username session_name role tenants expires_at
      d =
    elim (get_user_by_username username d) [
      | none ↦ raise "Unknown user"
      | some (user_id, user) ↦
          elim (session_grant (role_map [] (list_user_tenant_memberships before user_id d)) role
            tenants) [
              | raise error ↦ raise error
              | ok (resolved, granted) ↦ ok (
                  create_user_session
                    (issued_session user_id session_name (hash_token raw_token) resolved granted
                      expires_at)
                    d)
            ]
    ]

-- An HTTPException 403 is `raise`. `some ""` is false in Python.
unfoldable pub resolve_requested_tenants :
    AuthContext → Option String → Result String (Option (List String))
unfolding allows_tenant
resolve_requested_tenants auth requested =
    if is_member "*" auth.tenants
    then (if has_text requested then ok (some (or_default requested "" ∷ [])) else ok none)
    else if has_text requested
    then (if not (allows_tenant requested auth)
        then raise "Requested tenant is not permitted."
        else ok (some (or_default requested "" ∷ [])))
    else ok (some auth.tenants)
