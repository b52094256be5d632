-- ===== src/Access/System.antt =====
-- Users, memberships and sessions under any sequence of calls: what a revocation ends for good.
use mathlib.Core.Path.{subst}
use github_osint_secret_scan.Prelude.{
  ℕ, String, is_none, has_text, Bool, true, false, Option, none, some, List, [], not, arith, ◌≡◌,
  ◌⊎◌, ap, sym, ◌∙◌, some_injective, Bool-cases, Option-cases, inl, inr,
}
use github_osint_secret_scan.Prelude.Dict.{Dict}
use github_osint_secret_scan.Prelude.Table.{Table, get}
use github_osint_secret_scan.Prelude.Rows.{IsKeyed}
use github_osint_secret_scan.Prelude.Result.{ok, Result-cases, ok_injective}
use github_osint_secret_scan.Jobs.Model.{Time}
use github_osint_secret_scan.Access.Context.{AuthContext}
use github_osint_secret_scan.Access.Storage.{
  UserSession, AuthTables, create_user_session, get_user_by_username, set_user_active,
  grant_tenant_membership, create_user, list_user_tenant_memberships,
}
use github_osint_secret_scan.Access.Sessions.{
  resolve, context_for_row, is_browser, live_user, parent_of, context_for_parent, browser_context,
}
use github_osint_secret_scan.Access.Tokens.{
  create_db_session_token, session_grant, role_map, issued_session,
}
use github_osint_secret_scan.Access.Login.{
  login, logout, add_user, grant, set_active, issue_session, require_admin,
}
use github_osint_secret_scan.Access.Login.Changes.{
  Change, same, added, followed, Change-Preserves, resolve-Change, login-Change, logout-Change,
}

module _ (hash_token : String → String) (env_contexts : Dict AuthContext)
    (before : String → String → Bool) (valid_username fits : String → Bool) (seconds : ℕ) where
  -- One call of the service.
  pub data Step : AuthTables → AuthTables → Type 0 where
    adds :
        (c : AuthContext) (username : String) (email : Option String) {d d' : AuthTables}
        → add_user valid_username c username email d ≡ ok d'
        → Step d d'
    grants :
        (c : AuthContext) (username tenant role : String) (capabilities : List String)
        {d d' : AuthTables}
        → grant fits c username tenant role capabilities d ≡ ok d'
        → Step d d'
    activates :
        (c : AuthContext) (username : String) (active : Bool) {d d' : AuthTables}
        → set_active c username active d ≡ ok d'
        → Step d d'
    issues :
        (now : Time) (raw : String) (c : AuthContext) (username : String)
        (tenants : Option (List String)) (i : ℕ) {d d' : AuthTables}
        → issue_session hash_token before now raw c username tenants d ≡ ok (i, d')
        → Step d d'
    resolves :
        (now : Time) (browser : Bool) (token : Option String) {d d' : AuthTables}
        → (resolve hash_token env_contexts before now browser token d).1 ≡ d'
        → Step d d'
    logs_in :
        (now later : Time) (raw csrf credential : String) {d d' : AuthTables}
        → (login hash_token env_contexts before now later seconds raw csrf credential d).1 ≡ d'
        → Step d d'
    logs_out :
        (now : Time) (token : String) {d d' : AuthTables}
        → logout hash_token now token d ≡ d'
        → Step d d'

  pub data Steps (d : AuthTables) : AuthTables → Type 0 where
    here : Steps d d
    next : {e f : AuthTables} → Steps d e → Step e f → Steps d f

add_user-sessions :
    (valid_username : String → Bool) (c : AuthContext) (username : String) (email : Option String)
    (d d' : AuthTables)
    → add_user valid_username c username email d ≡ ok d'
    → (d'.sessions ≡ d.sessions) × (d'.memberships ≡ d.memberships)
unfolding add_user create_user
add_user-sessions valid_username c username email d d' h = ground (arith, h)

set_active-sessions :
    (c : AuthContext) (username : String) (active : Bool) (d d' : AuthTables)
    → set_active c username active d ≡ ok d'
    → (d'.sessions ≡ d.sessions) × (d'.memberships ≡ d.memberships)
unfolding set_active set_user_active
set_active-sessions c username active d d' h = ground (arith, h)

grant-sessions :
    (fits : String → Bool) (c : AuthContext) (username tenant role : String)
    (capabilities : List String) (d d' : AuthTables)
    → grant fits c username tenant role capabilities d ≡ ok d'
    → d'.sessions ≡ d.sessions
unfolding grant grant_tenant_membership
grant-sessions fits c username tenant role capabilities d d' h = ground (arith, h)

Change-eq : {t u : Table UserSession} → u ≡ t → Change t u
Change-eq {t} e = subst (Change t) (sym e) (same t)

create_db_session_token-Change :
    (hash_token : String → String) (before : String → String → Bool) (raw username : String)
    (name role : Option String) (tenants : Option (List String)) (expires : Option Time)
    (d d' : AuthTables) (i : ℕ)
    → create_db_session_token hash_token before raw username name role tenants expires d
      ≡ ok (i, d')
    → Change d.sessions d'.sessions
unfolding create_db_session_token create_user_session
create_db_session_token-Change hash_token before raw username name role tenants expires d d' i h =
    elim (Option-cases (get_user_by_username username d)) [
      | inl f ↦ cc (rw (f, create_db_session_token) at h)
      | inr ((user_id, u), f) ↦
          let grant =
            session_grant (role_map [] (list_user_tenant_memberships before user_id d)) role
              tenants in
          elim (Result-cases grant) [
            | inr (error, g) ↦ cc (rw (f, g, create_db_session_token) at h)
            | inl ((resolved, granted), g) ↦
                let made = ok_injective (rw (f, g, create_db_session_token) at h) in
                subst (Change d.sessions) (ap (λ (p : ℕ × AuthTables). p.1.sessions) made) (
                  added d.sessions
                    (issued_session user_id name (hash_token raw) resolved granted expires))
          ]
    ]

issue_session-Change :
    (hash_token : String → String) (before : String → String → Bool) (now : Time) (raw : String)
    (c : AuthContext) (username : String) (tenants : Option (List String)) (d d' : AuthTables)
    (i : ℕ)
    → issue_session hash_token before now raw c username tenants d ≡ ok (i, d')
    → Change d.sessions d'.sessions
unfolding issue_session
issue_session-Change hash_token before now raw c username tenants d d' i h =
    elim (Bool-cases (not (require_admin c))) [
      | inl e ↦ cc (rw (e, issue_session) at h)
      | inr e ↦
          create_db_session_token-Change hash_token before raw username none none tenants _ d d' i
            (rw (e, issue_session) at h)
    ]

module _ {hash_token : String → String} {env_contexts : Dict AuthContext}
    {before : String → String → Bool} {valid_username fits : String → Bool} {seconds : ℕ} where
  Step-Change :
      {d d' : AuthTables}
      → Step hash_token env_contexts before valid_username fits seconds d d'
      → Change d.sessions d'.sessions
  Step-Change {d} {d'} (adds c username email h) =
      Change-eq (add_user-sessions valid_username c username email d d' h).0
  Step-Change {d} {d'} (grants c username tenant role capabilities h) =
      Change-eq (grant-sessions fits c username tenant role capabilities d d' h)
  Step-Change {d} {d'} (activates c username active h) =
      Change-eq (set_active-sessions c username active d d' h).0
  Step-Change {d} {d'} (issues now raw c username tenants i h) =
      issue_session-Change hash_token before now raw c username tenants d d' i h
  Step-Change {d} (resolves now browser token e) =
      subst (λ (x : AuthTables). Change d.sessions x.sessions) e
        (resolve-Change hash_token env_contexts before now browser token d)
  Step-Change {d} (logs_in now later raw csrf credential e) =
      subst (λ (x : AuthTables). Change d.sessions x.sessions) e
        (login-Change hash_token env_contexts before now later seconds raw csrf credential d)
  Step-Change {d} (logs_out now token e) =
      subst (λ (x : AuthTables). Change d.sessions x.sessions) e
        (logout-Change hash_token now token d)

  Steps-Change :
      {d d' : AuthTables}
      → Steps hash_token env_contexts before valid_username fits seconds d d'
      → Change d.sessions d'.sessions
  Steps-Change {d} here = same d.sessions
  Steps-Change {d} (next {e = e} {f = f} r s) =
      followed d.sessions e.sessions f.sessions (Steps-Change r) (Step-Change s)

live_user-revoked :
    (now : Time) (d : AuthTables) (row : UserSession)
    → is_none row.revoked_at ≡ false
    → live_user now d row ≡ none
unfolding live_user
live_user-revoked now d row h = rw h

-- A session that is ended by another one: that one itself, or a browser session opened from it.
abbrev pub EndedBy : ℕ → ℕ → UserSession → Type 0
EndedBy i j row =
    (j ≡ i)
    ⊎ ((is_browser row ≡ true)
        × (has_text row.metadata.parent_env_hash ≡ false)
        × (row.metadata.parent_session_id ≡ some i))

module _ (hash_token : String → String) (env_contexts : Dict AuthContext)
    (before : String → String → Bool) (now : Time) where
  parent_of-revoked :
      (d : AuthTables) (row s : UserSession) (i : ℕ)
      → get i d.sessions ≡ some s
      → is_none s.revoked_at ≡ false
      → has_text row.metadata.parent_env_hash ≡ false
      → row.metadata.parent_session_id ≡ some i
      → parent_of hash_token env_contexts before now d row ≡ none
  unfolding parent_of context_for_parent
  parent_of-revoked d row s i at_i revoked no_env parent =
      rw (no_env, parent, at_i, context_for_parent, live_user-revoked now d s revoked)

  context_for_row-ended :
      (d : AuthTables) (i j : ℕ) (s row : UserSession)
      → get i d.sessions ≡ some s
      → is_none s.revoked_at ≡ false
      → get j d.sessions ≡ some row
      → EndedBy i j row
      → context_for_row hash_token env_contexts before now d row ≡ none
  unfolding context_for_row browser_context
  context_for_row-ended d i j s row at_i revoked at_j (inl e) =
      let row_same : row ≡ s =
        some_injective (sym at_j ∙ subst (λ k. get k d.sessions ≡ some s) (sym e) at_i) in
      rw (live_user-revoked now d row (rw row_same revoked), context_for_row)
  context_for_row-ended d i j s row at_i revoked at_j (inr (browser, no_env, parent)) =
      let orphan = parent_of-revoked d row s i at_i revoked no_env parent in
      elim (Option-cases (live_user now d row)) [
        | inl e ↦ rw (e, context_for_row)
        | inr (user, e) ↦ rw (e, context_for_row, browser, browser_context, orphan)
      ]

  -- Once a session is revoked, neither it nor a browser session that was opened from it resolves to
  -- a context again, at any time and after any sequence of calls of the service. The ids of
  -- sessions are unique.
  pub Steps-revoked :
      (valid_username fits : String → Bool) (seconds : ℕ) (d d' : AuthTables) (i j : ℕ)
      (s row : UserSession)
      → IsKeyed d.sessions
      → get i d.sessions ≡ some s
      → is_none s.revoked_at ≡ false
      → Steps hash_token env_contexts before valid_username fits seconds d d'
      → get j d'.sessions ≡ some row
      → EndedBy i j row
      → context_for_row hash_token env_contexts before now d' row ≡ none
  Steps-revoked valid_username fits seconds d d' i j s row keyed at_i revoked steps at_j ended =
      let (s', at_i', kept) = Change-Preserves (Steps-Change steps) keyed i s at_i in
      context_for_row-ended d' i j s' row at_i' (kept.revocation revoked) at_j ended
