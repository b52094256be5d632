-- ===== src/Access/Sessions/Caps.antt =====
-- What a resolved session may do is bounded by what its user, or its parent, may do at that time.
use github_osint_secret_scan.Prelude.{
  String, is_member, Bool, true, false, none, some, [], ◌∷◌, if◌then◌else◌, map, arith, ◌≡◌, ◌≤◌,
  ◌<◌, ◌⊎◌, inl, inr, ap, sym, Bool-cases, Option-cases,
}
use github_osint_secret_scan.Prelude.Dict.{Dict}
use github_osint_secret_scan.Prelude.Table.{get}
use github_osint_secret_scan.Jobs.Model.{Time}
use github_osint_secret_scan.Access.Context.{allows_tenant, AuthContext, level}
use github_osint_secret_scan.Access.Storage.{
  User, UserTenantMembership, UserSession, AuthTables, list_user_tenant_memberships,
}
use github_osint_secret_scan.Access.Sessions.{
  intersect, capped_role, roles_from, grants_from, scoped, key_of, reveals, live_user, is_browser,
  direct_context, parent_of, browser_context, context_for_row,
}
use github_osint_secret_scan.Access.Sessions.Scopes.{
  Covers, with_scopes-some, All-map_mem, is_empty-map, reveals-mem, scope-role, scope-grant,
  capped_role-le, intersect-mem,
}

module _ (hash_token : String → String) (env_contexts : Dict AuthContext)
    (before : String → String → Bool) (now : Time) where
  -- Each scope of a direct session's context is covered by a membership of the user whose role is
  -- at least the context's.
  direct_context-roles :
      (d : AuthTables) (user : User) (row : UserSession) (c : AuthContext)
      → direct_context hash_token env_contexts before now d user row ≡ some c
      → (level c.role ≤ level row.role)
        × ((s : String)
            → is_member s c.tenants ≡ true
            → (m : UserTenantMembership) × Covers d row.user_id s m × (level c.role ≤ level m.role))
  unfolding direct_context
  direct_context-roles d user row c h =
      let rows = list_user_tenant_memberships before row.user_id d in
      let memberships = roles_from [] rows in
      let scopes = intersect row.tenant_scopes (map key_of memberships) in
      let roles = map (scoped "reader" memberships) scopes in
      let (made, some_scope) = with_scopes-some scopes _ c h in
      let role : capped_role row.role roles ≡ c.role =
        rw (is_empty-map (scoped "reader" memberships) scopes some_scope) at
          (ap (λ (x : AuthContext). x.role) made) in
      let tenants : scopes ≡ c.tenants = ap (λ (x : AuthContext). x.tenants) made in
      let (below, each) = capped_role-le row.role roles in
      (
        rw (← role) below,
        λ s m.
            let within = rw (← tenants) at m in
            let (held, covers, same) = scope-role before d row.user_id row.tenant_scopes s within in
            (
              held,
              covers,
              rw (same, ← role)
                  (All-map_mem (λ r. level (capped_role row.role roles) ≤ level r)
                    (scoped "reader" memberships) scopes s each within),
            ),
      )

  direct_context-grants :
      (d : AuthTables) (user : User) (row : UserSession) (c : AuthContext) (s : String)
      → direct_context hash_token env_contexts before now d user row ≡ some c
      → is_member "secrets:reveal" c.capabilities ≡ true
      → is_member s c.tenants ≡ true
      → (m : UserTenantMembership) × Covers d row.user_id s m
        × (is_member "secrets:reveal" m.capabilities ≡ true)
  unfolding direct_context
  direct_context-grants d user row c s h reveal m =
      let rows = list_user_tenant_memberships before row.user_id d in
      let scopes = intersect row.tenant_scopes (map key_of (roles_from [] rows)) in
      let grants = grants_from [] rows in
      let (made, _) = with_scopes-some scopes _ c h in
      let tenants : scopes ≡ c.tenants = ap (λ (x : AuthContext). x.tenants) made in
      let capabilities : (if reveals grants scopes then "secrets:reveal" ∷ [] else [])
          ≡ c.capabilities =
        ap (λ (x : AuthContext). x.capabilities) made in
      elim (Bool-cases (reveals grants scopes)) [
        | inl e ↦
            scope-grant before d row.user_id s (reveals-mem grants scopes s e (rw (← tenants) at m))
        | inr e ↦ cc (rw (← capabilities, e) at reveal)
      ]

-- What makes a session usable at a time.
pub record IsLive (now : Time) (d : AuthTables) (row : UserSession) : Type 0 where
  pub unrevoked : row.revoked_at ≡ none
  pub unexpired : (t : Time) → row.expires_at ≡ some t → now < t
  pub active : (user : User) × (get row.user_id d.users ≡ some user) × (user.is_active ≡ true)

pub live_user-IsLive :
    (now : Time) (d : AuthTables) (row : UserSession) (user : User)
    → live_user now d row ≡ some user
    → IsLive now d row
unfolding live_user
live_user-IsLive now d row user h = elim (Option-cases (get row.user_id d.users)) [
  | inl e ↦ ground (arith, h, e)
  | inr (u, e) ↦ record {
    unrevoked = elim (Option-cases row.revoked_at) [
      | inl f ↦ f
      | inr (t, f) ↦ ground (arith, h, e, f)
    ];
    unexpired = λ t f. ground (arith, h, e, f);
    active = (u, e, ground (arith, h, e));
  }
]

-- A context that is no wider than another one.
pub record IsWithin (p c : AuthContext) : Type 0 where
  pub role : level c.role ≤ level p.role
  pub tenants : (s : String) → is_member s c.tenants ≡ true → allows_tenant (some s) p ≡ true
  pub capabilities : c.capabilities ≡ p.capabilities

allows-of-mem :
    (p : AuthContext) (s : String)
    → (is_member s p.tenants ≡ true) ⊎ (is_member "*" p.tenants ≡ true)
    → allows_tenant (some s) p ≡ true
unfolding allows_tenant
allows-of-mem p s (inl e) = ground (arith, e)
allows-of-mem p s (inr e) = ground (arith, e)

module _ (hash_token : String → String) (env_contexts : Dict AuthContext)
    (before : String → String → Bool) (now : Time) where
  browser_context-IsWithin :
      (d : AuthTables) (user : User) (row : UserSession) (c : AuthContext)
      → browser_context hash_token env_contexts before now d user row ≡ some c
      → (level c.role ≤ level row.role)
        × ((p : AuthContext) × (parent_of hash_token env_contexts before now d row ≡ some p)
            × IsWithin p c)
  unfolding browser_context
  browser_context-IsWithin d user row c h =
      elim (Option-cases (parent_of hash_token env_contexts before now d row)) [
        | inl e ↦ cc (rw (e, browser_context) at h)
        | inr (p, e) ↦
            let scopes = intersect row.tenant_scopes p.tenants in
            let (made, _) = with_scopes-some scopes _ c (rw (e, browser_context) at h) in
            let role : capped_role row.role (p.role ∷ []) ≡ c.role =
              ap (λ (x : AuthContext). x.role) made in
            let tenants : scopes ≡ c.tenants = ap (λ (x : AuthContext). x.tenants) made in
            let capabilities : p.capabilities ≡ c.capabilities =
              ap (λ (x : AuthContext). x.capabilities) made in
            let (own, rest) = capped_role-le row.role (p.role ∷ []) in
            (
              rw (← role) own,
              (
                p,
                e,
                record {
                  role = rw (← role) rest.0;
                  tenants = λ s m.
                      allows-of-mem p s
                        (intersect-mem row.tenant_scopes p.tenants s (rw (← tenants) at m)).0;
                  capabilities = sym capabilities;
                },
              ),
            )
      ]

  -- A session that resolves to a context is neither revoked nor expired, and its user is active; the
  -- context's role is at most the session's. A browser session has a parent that resolves now, and
  -- its context allows no more than the parent's. For any other session, each scope of the context
  -- is covered by a membership of its user with at least the context's role, and, if the context
  -- may reveal secrets, by one that grants this.
  pub context_for_row-IsBounded :
      (d : AuthTables) (row : UserSession) (c : AuthContext)
      → context_for_row hash_token env_contexts before now d row ≡ some c
      → IsLive now d row
        × (level c.role ≤ level row.role)
        × (is_browser row ≡ true
            → (p : AuthContext) × (parent_of hash_token env_contexts before now d row ≡ some p)
              × IsWithin p c)
        × (is_browser row ≡ false
            → (s : String) → is_member s c.tenants ≡ true
            → ((m : UserTenantMembership) × Covers d row.user_id s m
                × (level c.role ≤ level m.role))
              × (is_member "secrets:reveal" c.capabilities ≡ true
                  → (m : UserTenantMembership) × Covers d row.user_id s m
                    × (is_member "secrets:reveal" m.capabilities ≡ true)))
  unfolding context_for_row
  context_for_row-IsBounded d row c h = elim (Option-cases (live_user now d row)) [
    | inl e ↦ cc (rw (e, context_for_row) at h)
    | inr (user, e) ↦
        let live = live_user-IsLive now d row user e in
        elim (Bool-cases (is_browser row)) [
          | inl b ↦
              let (own, within) =
                browser_context-IsWithin d user row c (rw (e, b, context_for_row) at h) in
              (live, own, λ _. within, λ nb. cc)
          | inr b ↦
              let made = rw (e, b, context_for_row) at h in
              let (own, covered) =
                direct_context-roles hash_token env_contexts before now d user row c made in
              (
                live,
                own,
                λ br. cc,
                λ _ s m. (
                  covered s m,
                  λ reveal.
                      direct_context-grants hash_token env_contexts before now d user row c s made
                        reveal m,
                ),
              )
        ]
  ]
