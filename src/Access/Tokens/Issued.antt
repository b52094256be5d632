-- ===== src/Access/Tokens/Issued.antt =====
-- A session that is issued resolves to what it was issued with.
use mathlib.Core.Path.{subst}
use github_osint_secret_scan.Prelude.{
  ℕ, String, str_eq, eq_refl, is_member, is_empty, Bool, true, false, Option, none, some, List, [],
  ◌∷◌, map, arith, ◌≡◌, ◌<◌, refl, sym, ◌∙◌, some_injective, All, Option-cases, inl, inr,
}
use github_osint_secret_scan.Prelude.Dict.{Dict, lookup}
use github_osint_secret_scan.Prelude.Table.{get, add_row, fresh_id, get-add_row, get-add_row}
use github_osint_secret_scan.Prelude.Rows.{All-keep, All-mem}
use github_osint_secret_scan.Prelude.Sort.{All-sort_by}
use github_osint_secret_scan.Prelude.Result.{ok, Result-cases, ok_injective}
use github_osint_secret_scan.Jobs.Model.{Time}
use github_osint_secret_scan.Access.Context.{AuthContext, is_role}
use github_osint_secret_scan.Access.Storage.{
  User, UserTenantMembership, UserSession, AuthTables, get_user_by_username, create_user_session,
  list_user_tenant_memberships, get_user_session_by_hash, row_of, of_user,
}
use github_osint_secret_scan.Access.Sessions.{
  scoped, live_user, is_browser, direct_context, context_for_row, resolve_row, resolve, with_scopes,
  direct_made, grants_from, reveals,
}
use github_osint_secret_scan.Access.Sessions.Scopes.{is_empty-map, All-map_row}
use github_osint_secret_scan.Access.Tokens.{
  role_map, session_grant, issued_session, create_db_session_token,
}
use github_osint_secret_scan.Access.Tokens.Grants.{
  find_row-append, capped_role_least, roles_from-eq, intersect_assigned, role_cap-le,
  session_grant-IsGranted, IsGranted, All-le_trans,
}

-- The row of a membership has a valid role.
abbrev pub HasRole : ℕ × UserTenantMembership → Type 0
HasRole (i, m) = is_role m.role ≡ true

with_scopes-of_some :
    (ss : List String) (c : AuthContext) → is_empty ss ≡ false → with_scopes ss c ≡ some c
with_scopes-of_some [] c h = cc
with_scopes-of_some (s ∷ ss) c h = refl

get-added :
    (row : UserSession) (d : AuthTables)
    → get (create_user_session row d).0 (create_user_session row d).1.sessions ≡ some row
unfolding create_user_session
get-added row d = ground (arith, get-add_row (fresh_id d.sessions) row d.sessions)

module _ (hash_token : String → String) (env_contexts : Dict AuthContext)
    (before : String → String → Bool) (now : Time) where
  -- A granted session's own context.
  direct_context-granted :
      (d : AuthTables) (user : User) (row : UserSession)
      → All (λ m. is_role m.role ≡ true) (list_user_tenant_memberships before row.user_id d)
      → IsGranted
          (role_map [] (list_user_tenant_memberships before row.user_id d))
          row.tenant_scopes
          row.role
      → is_member "*" row.tenant_scopes ≡ false
      → (c : AuthContext) × (direct_context hash_token env_contexts before now d user row ≡ some c)
        × (c.tenants ≡ row.tenant_scopes)
        × (c.role ≡ row.role)
        × (c.user_id ≡ some row.user_id)
  unfolding direct_context
  direct_context-granted d user row valid granted no_star =
      let rows = list_user_tenant_memberships before row.user_id d in
      let memberships = role_map [] rows in
      let scopes = intersect_assigned memberships row.tenant_scopes no_star granted.assigned in
      let roles =
        capped_role_least row.role (map (scoped "reader" memberships) row.tenant_scopes)
          (All-le_trans _ granted.capped (role_cap-le memberships row.tenant_scopes)) in
      let made =
        direct_made user row row.tenant_scopes (map (scoped "reader" memberships) row.tenant_scopes)
          (reveals (grants_from [] rows) row.tenant_scopes) in
      (
        made,
        rw (roles_from-eq [] rows valid, scopes)
            (with_scopes-of_some row.tenant_scopes made granted.some_tenant),
        refl,
        rw (is_empty-map (scoped "reader" memberships) row.tenant_scopes granted.some_tenant) roles,
        refl,
      )

  -- A usable direct session resolves to its direct context.
  resolve-direct :
      (d : AuthTables) (raw_token : String) (i : ℕ) (row : UserSession) (user : User)
      (c : AuthContext)
      → str_eq raw_token "" ≡ false
      → lookup raw_token env_contexts ≡ none
      → get_user_session_by_hash (hash_token raw_token) d ≡ some (i, row)
      → live_user now d row ≡ some user
      → is_browser row ≡ false
      → direct_context hash_token env_contexts before now d user row ≡ some c
      → (resolve hash_token env_contexts before now false (some raw_token) d).0 ≡ some c
  unfolding resolve resolve_row context_for_row
  resolve-direct d raw_token i row user c e env at_hash live direct made =
      rw (e, env, at_hash, resolve_row, context_for_row, live, direct, made)

  -- A token resolves to the tenants, the role and the user of a session.
  abbrev Resolves : AuthTables → String → UserSession → Type 0
  Resolves d raw row =
      (c : AuthContext) × ((resolve hash_token env_contexts before now false (some raw) d).0
        ≡ some c)
      × (c.tenants ≡ row.tenant_scopes)
      × (c.role ≡ row.role)
      × (c.user_id ≡ some row.user_id)

  -- A session that is added under a fresh digest, with what it may be granted, resolves to it.
  created-resolve :
      (d : AuthTables) (raw : String) (row : UserSession) (user : User)
      → str_eq raw "" ≡ false
      → lookup raw env_contexts ≡ none
      → get_user_session_by_hash (hash_token raw) d ≡ none
      → row.token_hash ≡ hash_token raw
      → is_browser row ≡ false
      → live_user now d row ≡ some user
      → All (λ m. is_role m.role ≡ true) (list_user_tenant_memberships before row.user_id d)
      → IsGranted
          (role_map [] (list_user_tenant_memberships before row.user_id d))
          row.tenant_scopes
          row.role
      → is_member "*" row.tenant_scopes ≡ false
      → Resolves (create_user_session row d).1 raw row
  unfolding create_user_session add_row get_user_session_by_hash live_user
      list_user_tenant_memberships
  created-resolve d raw row user e env fresh at_hash direct live valid granted no_star =
      let d' = (create_user_session row d).1 in
      let (c, made, tenants, role, user_id) =
        direct_context-granted d' user row valid granted no_star in
      let found =
        find_row-append (λ (x : UserSession). str_eq x.token_hash (hash_token raw)) d.sessions
          (fresh_id d.sessions) row fresh (rw at_hash (eq_refl (hash_token raw))) in
      (
        c,
        resolve-direct d' raw (fresh_id d.sessions) row user c e env found live direct made,
        tenants,
        role,
        user_id,
      )

  live_user_issued :
      (d : AuthTables) (user : User) (user_id : ℕ) (name : Option String) (digest role : String)
      (tenants : List String) (expires : Option Time)
      → get user_id d.users ≡ some user
      → user.is_active ≡ true
      → ((t : Time) → expires ≡ some t → now < t)
      → is_role role ≡ true
      → live_user now d (issued_session user_id name digest tenants role expires) ≡ some user
  unfolding live_user
  live_user_issued d user user_id name digest role tenants none u a x r = ground (arith, u, a, r)
  live_user_issued d user user_id name digest role tenants (some t) u a x r =
      ground (arith, u, a, x t refl, r)

  roles_held :
      (d : AuthTables) (user_id : ℕ)
      → All HasRole d.memberships
      → All (λ m. is_role m.role ≡ true) (list_user_tenant_memberships before user_id d)
  unfolding list_user_tenant_memberships
  roles_held d user_id valid =
      All-map_row (λ (m : UserTenantMembership). is_role m.role ≡ true) _
        (All-sort_by _ (λ (r : ℕ × UserTenantMembership). is_role (row_of r).role ≡ true) _
          (All-keep (λ (r : ℕ × UserTenantMembership). is_role (row_of r).role ≡ true)
            (of_user user_id) d.memberships
            (λ (i, m) e at_i. All-mem HasRole d.memberships valid at_i)))

  -- A session that is issued under a fresh token resolves, while it has not expired and its user is
  -- active, to exactly the tenants and the role that it was issued with, if these tenants are named
  -- and not "*", and the stored roles are valid.
  pub create_db_session_token-resolve :
      (raw_token username : String) (session_name role : Option String)
      (tenants : Option (List String)) (expires_at : Option Time) (d d' : AuthTables) (i : ℕ)
      (row : UserSession) (user : User)
      → All HasRole d.memberships
      → str_eq raw_token "" ≡ false
      → lookup raw_token env_contexts ≡ none
      → get_user_session_by_hash (hash_token raw_token) d ≡ none
      → create_db_session_token hash_token before raw_token username session_name role tenants
          expires_at d
        ≡ ok (i, d')
      → get i d'.sessions ≡ some row
      → get row.user_id d'.users ≡ some user
      → user.is_active ≡ true
      → ((t : Time) → row.expires_at ≡ some t → now < t)
      → is_member "*" row.tenant_scopes ≡ false
      → (c : AuthContext) × ((resolve hash_token env_contexts before now false
            (some raw_token)
            d').0
          ≡ some c)
        × (c.tenants ≡ row.tenant_scopes)
        × (c.role ≡ row.role)
        × (c.user_id ≡ some row.user_id)
  unfolding create_db_session_token create_user_session
  create_db_session_token-resolve raw username name role tenants expires d d' i row user valid e env
        fresh h at_i at_user active unexpired no_star =
      elim (Option-cases (get_user_by_username username d)) [
        | inl f ↦ cc (rw (f, create_db_session_token) at h)
        | inr ((user_id, u), f) ↦
            let rows = list_user_tenant_memberships before user_id d in
            elim (Result-cases (session_grant (role_map [] rows) role tenants)) [
              | inr (error, g) ↦ cc (rw (f, g, create_db_session_token) at h)
              | inl ((resolved, granted), g) ↦
                  let stored =
                    issued_session user_id name (hash_token raw) resolved granted expires in
                  let same : create_user_session stored d ≡ (i, d') =
                    ok_injective (rw (f, g, create_db_session_token) at h) in
                  let row_same : stored ≡ row = some_injective (
                    sym (get-added stored d)
                    ∙ subst (λ (p : ℕ × AuthTables). get p.0 p.1.sessions ≡ some row) (sym same)
                        at_i) in
                  let grant = session_grant-IsGranted _ role tenants resolved granted g in
                  let user_there : get user_id d.users ≡ some user =
                    subst (λ (r : UserSession). get r.user_id d.users ≡ some user) (sym row_same)
                      (subst (λ (p : ℕ × AuthTables). get row.user_id p.1.users ≡ some user)
                        (sym same) at_user) in
                  let named =
                    subst (λ (r : UserSession). is_member "*" r.tenant_scopes ≡ false)
                      (sym row_same) no_star in
                  let in_time =
                    subst (λ (r : UserSession). (t : Time) → r.expires_at ≡ some t → now < t)
                      (sym row_same) unexpired in
                  subst (λ (r : UserSession). Resolves d' raw r) row_same
                    (subst (λ (p : ℕ × AuthTables). Resolves p.1 raw stored) same
                      (created-resolve d raw stored user e env fresh refl refl
                        (live_user_issued d user user_id name (hash_token raw) granted resolved
                          expires user_there active in_time grant.valid)
                        (roles_held d user_id valid) grant named))
            ]
      ]
