-- ===== src/Access/Sessions.antt =====
-- How a token becomes a context: `_intersect`, `_capped_role`, `_context_for_row` and `resolve` of
-- src/orgscan/services/auth_service.py. The digest of a token, the contexts of the environment's
-- tokens and the database's order of texts are arguments.
pub mod Scopes
pub mod Caps
use github_osint_secret_scan.Prelude.{
  ℕ, String, str_eq, is_member, is_empty, has_text, is_none, Bool, true, false, not, ◌&&◌, ◌||◌,
  Option, none, some, List, [], ◌∷◌, if◌then◌else◌, ltb, leb, keep, map, or_default,
}
use github_osint_secret_scan.Prelude.Dict.{Dict, lookup, insert}
use github_osint_secret_scan.Prelude.Table.{Table, get}
use github_osint_secret_scan.Jobs.Model.{Time}
use github_osint_secret_scan.Access.Context.{AuthContext, level, role_level, is_role}
use github_osint_secret_scan.Access.Storage.{
  User, UserTenantMembership, UserSession, AuthTables, get_user_session_by_hash, touch_user_session,
  list_user_tenant_memberships,
}

unfoldable pub intersect : List String → List String → List String
unfolding keep
intersect saved current =
    if is_member "*" saved
    then current
    else if is_member "*" current
    then saved
    else keep (λ s. is_member s current) saved

unfoldable pub lower_role : String → String → String
unfolding role_level
lower_role role r = if ltb (level r) (level role) then r else role

-- min(roles, key=…): the first of the least.
unfoldable pub capped_role : String → List String → String
unfolding lower_role
capped_role role [] = role
capped_role role (r ∷ roles) = capped_role (lower_role role r) roles

-- {item.tenant_key: item.role for item in rows if item.role in ROLE_LEVELS}
unfoldable pub roles_from : Dict String → List UserTenantMembership → Dict String
unfolding insert role_level
roles_from d [] = d
roles_from d (m ∷ rows) =
    roles_from (if is_role m.role then insert m.tenant_key m.role d else d) rows

-- {item.tenant_key: set(capabilities) for item in rows}
unfoldable pub grants_from : Dict (List String) → List UserTenantMembership → Dict (List String)
unfolding insert
grants_from d [] = d
grants_from d (m ∷ rows) = grants_from (insert m.tenant_key m.capabilities d) rows

-- d.get(scope, d.get("*", default))
unfoldable pub scoped {ℓ} : {V : Type ℓ} → V → Dict V → String → V
unfolding lookup
scoped default d scope = or_default (lookup scope d) (or_default (lookup "*" d) default)

abbrev pub key_of {ℓ} : {V : Type ℓ} → String × V → String
key_of (k, v) = k

unfoldable pub reveals : Dict (List String) → List String → Bool
unfolding scoped
reveals grants [] = true
reveals grants (s ∷ scopes) =
    is_member "secrets:reveal" (scoped [] grants s) && reveals grants scopes

-- The row may be used now: the user of a session that is neither revoked nor expired, and who is
-- active.
unfoldable pub live_user : Time → AuthTables → UserSession → Option User
unfolding get role_level
live_user now d row =
    if not (is_none row.revoked_at) || elim row.expires_at [ none ↦ false | some t ↦ leb t now ]
    then none
    else elim (get row.user_id d.users) [
      | none ↦ none
      | some user ↦ if user.is_active && is_role row.role then some user else none
    ]

abbrev pub is_browser : UserSession → Bool
is_browser row = elim row.metadata.kind [ none ↦ false | some k ↦ str_eq k "browser" ]

-- `if not scopes: return None`, and the context that is returned otherwise.
abbrev pub with_scopes : List String → AuthContext → Option AuthContext
with_scopes [] c = none
with_scopes (s ∷ scopes) c = some c

abbrev pub direct_made : User → UserSession → List String → List String → Bool → AuthContext
direct_made user row scopes roles reveal = record {
  name = user.username;
  role = if is_empty roles then "reader" else capped_role row.role roles;
  tenants = scopes;
  authenticated = true;
  source = "db-session";
  user_id = some row.user_id;
  capabilities = if reveal then "secrets:reveal" ∷ [] else [];
}

module _ (hash_token : String → String) (env_contexts : Dict AuthContext)
    (before : String → String → Bool) (now : Time) where
  -- The `else` branch, for a session that is no browser session.
  unfoldable pub direct_context : AuthTables → User → UserSession → Option AuthContext
  unfolding list_user_tenant_memberships roles_from grants_from intersect capped_role reveals scoped
  direct_context d user row =
      let rows = list_user_tenant_memberships before row.user_id d in
      let memberships = roles_from [] rows in
      let grants = grants_from [] rows in
      let scopes = intersect row.tenant_scopes (map key_of memberships) in
      let roles = map (scoped "reader" memberships) scopes in
      with_scopes scopes (direct_made user row scopes roles (reveals grants scopes))

  -- `next(context for token, context in env_contexts.items() if hash_token(token) == wanted)`
  unfoldable pub env_parent : Dict AuthContext → String → Option AuthContext
  env_parent [] wanted = none
  env_parent ((token, c) ∷ d) wanted =
      if str_eq (hash_token token) wanted then some c else env_parent d wanted

  -- `_context_for_row` with allow_browser=False.
  unfoldable pub context_for_parent : AuthTables → Option UserSession → Option AuthContext
  unfolding live_user direct_context
  context_for_parent d none = none
  context_for_parent d (some row) = elim (live_user now d row) [
    | none ↦ none
    | some user ↦ if is_browser row then none else direct_context d user row
  ]

  abbrev pub session_of : AuthTables → Option ℕ → Option UserSession
  session_of d none = none
  session_of d (some i) = get i d.sessions

  unfoldable pub parent_of : AuthTables → UserSession → Option AuthContext
  unfolding env_parent context_for_parent get
  parent_of d row =
      if has_text row.metadata.parent_env_hash
      then env_parent env_contexts (or_default row.metadata.parent_env_hash "")
      else context_for_parent d (session_of d row.metadata.parent_session_id)

  -- The branch of a browser session, which is never wider than its parent.
  unfoldable pub browser_context : AuthTables → User → UserSession → Option AuthContext
  unfolding parent_of intersect capped_role
  browser_context d user row = elim (parent_of d row) [
    | none ↦ none
    | some parent ↦
        let scopes = intersect row.tenant_scopes parent.tenants in
        with_scopes scopes (record {
          name = user.username;
          role = capped_role row.role (parent.role ∷ []);
          tenants = scopes;
          authenticated = true;
          source = "browser-session";
          user_id = some row.user_id;
          capabilities = parent.capabilities;
        })
  ]

  unfoldable pub context_for_row : AuthTables → UserSession → Option AuthContext
  unfolding live_user browser_context direct_context
  context_for_row d row = elim (live_user now d row) [
    | none ↦ none
    | some user ↦ if is_browser row then browser_context d user row else direct_context d user row
  ]

  -- The lookup of `resolve` in the database: a context, and the session marked as used.
  unfoldable pub resolve_row : Bool → String → AuthTables → Option AuthContext × AuthTables
  unfolding get_user_session_by_hash context_for_row touch_user_session
  resolve_row browser raw_token d = elim (get_user_session_by_hash (hash_token raw_token) d) [
    | none ↦ (none, d)
    | some (i, row) ↦
        if browser && not (is_browser row) then (none, d) else elim (context_for_row d row) [
          | none ↦ (none, d)
          | some c ↦ (some c, touch_user_session now i row d)
        ]
  ]

  unfoldable pub resolve : Bool → Option String → AuthTables → Option AuthContext × AuthTables
  unfolding resolve_row lookup
  resolve browser none d = (none, d)
  resolve browser (some raw_token) d =
      if str_eq raw_token ""
      then (none, d)
      else if not browser
      then elim (lookup raw_token env_contexts) [
        | some c ↦ (some c, d)
        | none ↦ resolve_row browser raw_token d
      ]
      else resolve_row browser raw_token d
