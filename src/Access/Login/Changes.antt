-- ===== src/Access/Login/Changes.antt =====
-- How each call of src/orgscan/services/auth_service.py changes the table of sessions.
use Prim.Native.String.{◌++◌ as ◌++ˢ◌}
use mathlib.Core.Path.{subst}
use github_osint_secret_scan.Prelude.{
  ℕ, ◌+◌, ◌*◌, String, str_eq, is_none, Bool, true, false, not, ◌&&◌, Option, none, some, ◌==◌,
  ==_iff, arith, ◌≡◌, refl, sym, ◌∙◌, some_injective, Bool-cases, Option-cases, inl, inr,
}
use github_osint_secret_scan.Prelude.Dict.{Dict, lookup}
use github_osint_secret_scan.Prelude.Table.{
  Table, get, set_row, add_row, get-add_row, get-fresh_id, get-set_row,
}
use github_osint_secret_scan.Prelude.Rows.{IsKeyed, get-of-mem, set_row-IsKeyed, add_row-IsKeyed}
use github_osint_secret_scan.Jobs.Model.{Time}
use github_osint_secret_scan.Access.Context.{AuthContext}
use github_osint_secret_scan.Access.Storage.{
  UserSession, AuthTables, get_user_session_by_hash, touch_user_session, get_or_create_user,
  create_user_session, revoke_user_session,
}
use github_osint_secret_scan.Access.Sessions.{resolve, resolve_row, context_for_row, is_browser}
use github_osint_secret_scan.Access.Tokens.Grants.{find_row-mem}
use github_osint_secret_scan.Access.Login.{
  finish_login, login_as, active_user, browser_session, browser_metadata, login, logout,
}

-- What calls leave of a session: only the marks of its use and its revocation change, and a
-- revocation stays.
pub record Preserves (s s' : UserSession) : Type 0 where
  pub same_user_id : s'.user_id ≡ s.user_id
  pub same_token_hash : s'.token_hash ≡ s.token_hash
  pub same_role : s'.role ≡ s.role
  pub same_tenant_scopes : s'.tenant_scopes ≡ s.tenant_scopes
  pub same_expires_at : s'.expires_at ≡ s.expires_at
  pub same_metadata : s'.metadata ≡ s.metadata
  pub revocation : is_none s.revoked_at ≡ false → is_none s'.revoked_at ≡ false

Preserves-refl : (s : UserSession) → Preserves s s
Preserves-refl s = record {
  same_user_id = refl;
  same_token_hash = refl;
  same_role = refl;
  same_tenant_scopes = refl;
  same_expires_at = refl;
  same_metadata = refl;
  revocation = λ h. h;
}

Preserves-trans : {s t u : UserSession} → Preserves s t → Preserves t u → Preserves s u
Preserves-trans p q = record {
  same_user_id = q.same_user_id ∙ p.same_user_id;
  same_token_hash = q.same_token_hash ∙ p.same_token_hash;
  same_role = q.same_role ∙ p.same_role;
  same_tenant_scopes = q.same_tenant_scopes ∙ p.same_tenant_scopes;
  same_expires_at = q.same_expires_at ∙ p.same_expires_at;
  same_metadata = q.same_metadata ∙ p.same_metadata;
  revocation = λ h. q.revocation (p.revocation h);
}

-- How a call changes the table of sessions.
pub data Change : Table UserSession → Table UserSession → Type 0 where
  same : (t : Table UserSession) → Change t t
  added : (t : Table UserSession) (s : UserSession) → Change t (add_row s t)
  written :
      (t : Table UserSession) (k : ℕ) (s s' : UserSession)
      → (IsKeyed t → get k t ≡ some s)
      → Preserves s s'
      → Change t (set_row k s' t)
  followed : (t u v : Table UserSession) → Change t u → Change u v → Change t v

pub Change-IsKeyed : {t u : Table UserSession} → Change t u → IsKeyed t → IsKeyed u
Change-IsKeyed (same t) k = k
Change-IsKeyed (added t s) k = add_row-IsKeyed s t k
Change-IsKeyed (written t j s s' e q) k = set_row-IsKeyed j s' t k
Change-IsKeyed (followed t u v c d) k = Change-IsKeyed d (Change-IsKeyed c k)

pub Change-Preserves :
    {t u : Table UserSession}
    → Change t u
    → IsKeyed t
    → (i : ℕ) (s : UserSession) → get i t ≡ some s
    → (s' : UserSession) × (get i u ≡ some s') × Preserves s s'
Change-Preserves (same t) k i s h = (s, h, Preserves-refl s)
Change-Preserves (added t s0) k i s h =
    (s, ground (arith, h, get-add_row i s0 t, get-fresh_id t), Preserves-refl s)
Change-Preserves (written t j s0 s' e q) k i s h =
    let there = e k in
    elim (Bool-cases (j == i)) [
      | inl f ↦
          let s_same : s0 ≡ s =
            some_injective
              (sym there ∙ (subst (λ x. get x t ≡ some s) (sym ((==_iff j i).0 f)) h)) in
          (s', ground (arith, get-set_row j i s' t, h, f), subst (λ x. Preserves x s') s_same q)
      | inr f ↦ (s, ground (arith, get-set_row j i s' t, h, f), Preserves-refl s)
    ]
Change-Preserves (followed t u v c d) k i s h =
    let (s1, h1, p1) = Change-Preserves c k i s h in
    let (s2, h2, p2) = Change-Preserves d (Change-IsKeyed c k) i s1 h1 in
    (s2, h2, Preserves-trans p1 p2)

revoked-Preserves :
    (s : UserSession) (now : Time) → Preserves s (record s { revoked_at = some now })
revoked-Preserves s now = record {
  same_user_id = refl;
  same_token_hash = refl;
  same_role = refl;
  same_tenant_scopes = refl;
  same_expires_at = refl;
  same_metadata = refl;
  revocation = λ h. refl;
}

module _ (hash_token : String → String) (env_contexts : Dict AuthContext)
    (before : String → String → Bool) where
  touched-Preserves :
      (s : UserSession) (now : Time) → Preserves s (record s { last_used_at = some now })
  touched-Preserves s now = record {
    same_user_id = refl;
    same_token_hash = refl;
    same_role = refl;
    same_tenant_scopes = refl;
    same_expires_at = refl;
    same_metadata = refl;
    revocation = λ h. h;
  }

  resolve_row-Change :
      (now : Time) (browser : Bool) (raw : String) (d : AuthTables)
      → Change d.sessions (resolve_row hash_token env_contexts before now browser raw d).1.sessions
  unfolding resolve_row get_user_session_by_hash touch_user_session
  resolve_row-Change now browser raw d =
      elim (Option-cases (get_user_session_by_hash (hash_token raw) d)) [
        | inl e ↦ rw (e, resolve_row) (same d.sessions)
        | inr ((i, row), e) ↦ elim (Bool-cases (browser && not (is_browser row))) [
          | inl b ↦ rw (e, b, resolve_row) (same d.sessions)
          | inr b ↦ elim (Option-cases (context_for_row hash_token env_contexts before now d row)) [
            | inl c ↦ rw (e, b, c, resolve_row) (same d.sessions)
            | inr (context, c) ↦
                rw (e, b, c, resolve_row)
                  (written d.sessions i row (record row { last_used_at = some now })
                    (λ keyed.
                      get-of-mem i d.sessions row keyed
                        (find_row-mem (λ (x : UserSession). str_eq x.token_hash (hash_token raw))
                          d.sessions i row e).0)
                    (touched-Preserves row now))
          ]
        ]
      ]

  pub resolve-Change :
      (now : Time) (browser : Bool) (token : Option String) (d : AuthTables)
      → Change d.sessions (resolve hash_token env_contexts before now browser token d).1.sessions
  unfolding resolve
  resolve-Change now browser none d = same d.sessions
  resolve-Change now true (some raw) d = elim (Bool-cases (str_eq raw "")) [
    | inl e ↦ rw e (same d.sessions)
    | inr e ↦ rw e (resolve_row-Change now true raw d)
  ]
  resolve-Change now false (some raw) d = elim (Bool-cases (str_eq raw "")) [
    | inl e ↦ rw e (same d.sessions)
    | inr e ↦ elim (Option-cases (lookup raw env_contexts)) [
      | inl f ↦ rw (e, f) (resolve_row-Change now false raw d)
      | inr (c, f) ↦ rw (e, f) (same d.sessions)
    ]
  ]

get_or_create_user-sessions :
    (name : String) (d : AuthTables) → (get_or_create_user name d).1.sessions ≡ d.sessions
unfolding get_or_create_user
get_or_create_user-sessions name d = ground arith

-- The end of a login may add a session.
finish_login-Change :
    (tokens : String × String) (t : Table UserSession) (s : UserSession)
    (created resolved : AuthTables)
    → Change t resolved.sessions
    → created.sessions ≡ resolved.sessions
    → Change t (finish_login tokens s created resolved).1.sessions
unfolding finish_login create_user_session
finish_login-Change tokens t s created resolved c same_sessions =
    elim (Bool-cases (not (active_user s.user_id created))) [
      | inl e ↦ rw e c
      | inr e ↦ rw e (
          subst (λ u. Change t (add_row s u)) (sym same_sessions)
            (followed t resolved.sessions (add_row s resolved.sessions) c
              (added resolved.sessions s)))
    ]

module _ (hash_token : String → String) where
  login_as-Change :
      (t : Table UserSession) (expires_at : Time) (raw csrf credential : String)
      (context : AuthContext) (d : AuthTables)
      → Change t d.sessions
      → Change t (login_as hash_token expires_at raw csrf credential context d).1.sessions
  unfolding login_as
  login_as-Change t expires_at raw csrf credential context d c =
      elim (Bool-cases (str_eq context.source "browser-session")) [
        | inl b ↦ rw b c
        | inr b ↦ elim (Bool-cases (str_eq context.source "env-token")) [
          | inl v ↦
              rw (b, v)
                (finish_login-Change (raw, csrf) t
                  (browser_session (get_or_create_user ("env:" ++ˢ context.name) d).0 context
                    (hash_token raw)
                    (browser_metadata (hash_token csrf) (some (hash_token credential)) none)
                    expires_at)
                  (get_or_create_user ("env:" ++ˢ context.name) d).1 d c
                  (get_or_create_user-sessions ("env:" ++ˢ context.name) d))
          | inr v ↦ elim (Option-cases (get_user_session_by_hash (hash_token credential) d)) [
            | inl g ↦ rw (b, v, g) c
            | inr ((parent_id, parent), g) ↦
                rw (b, v, g)
                  (finish_login-Change (raw, csrf) t
                    (browser_session parent.user_id context (hash_token raw)
                      (browser_metadata (hash_token csrf) none (some parent_id)) expires_at)
                    d d c refl)
          ]
        ]
      ]

  pub login-Change :
      (env_contexts : Dict AuthContext) (before : String → String → Bool) (now later : Time)
      (seconds : ℕ) (raw csrf credential : String) (d : AuthTables)
      → Change d.sessions
          (login hash_token env_contexts before now later seconds raw csrf credential d).1.sessions
  unfolding login
  login-Change env_contexts before now later seconds raw csrf credential d =
      let r = resolve hash_token env_contexts before now false (some credential) d in
      let c = resolve-Change hash_token env_contexts before now false (some credential) d in
      elim (Option-cases r.0) [
        | inl e ↦ rw (e, login) c
        | inr (context, e) ↦
            rw (e, login)
              (login_as-Change d.sessions (later + seconds * 1000000) raw csrf credential context
                r.1 c)
      ]

  pub logout-Change :
      (now : Time) (token : String) (d : AuthTables)
      → Change d.sessions (logout hash_token now token d).sessions
  unfolding logout get_user_session_by_hash revoke_user_session
  logout-Change now token d = elim (Option-cases (get_user_session_by_hash (hash_token token) d)) [
    | inl e ↦ rw (e, logout) (same d.sessions)
    | inr ((i, row), e) ↦ elim (Option-cases (get i d.sessions)) [
      | inl f ↦ rw (e, logout, f) (same d.sessions)
      | inr (s, f) ↦
          rw (e, logout, f)
            (written d.sessions i s (record s { revoked_at = some now }) (λ _. f)
              (revoked-Preserves s now))
    ]
  ]
