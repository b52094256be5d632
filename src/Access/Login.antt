-- ===== src/Access/Login.antt =====
-- src/orgscan/services/auth_service.py: the browser login, its CSRF token, logout, and the
-- administration of users. Random tokens, the digest, the two clocks readings of a login and the
-- test of a username are arguments; a raised error carries its message.
pub mod Changes
use Prim.Native.String.{len, ◌++◌ as ◌++ˢ◌}
use github_osint_secret_scan.Prelude.{
  ℕ, ◌+◌, ◌*◌, String, str_eq, has_text, Bool, true, false, not, ◌&&◌, ◌||◌, Option, none, some,
  List, [], ◌∷◌, if◌then◌else◌, ltb, is_member, or_default,
}
use github_osint_secret_scan.Prelude.Dict.{Dict}
use github_osint_secret_scan.Prelude.Table.{get}
use github_osint_secret_scan.Prelude.Result.{Result, ok, raise}
use github_osint_secret_scan.Jobs.Model.{Time}
use github_osint_secret_scan.Access.Context.{AuthContext, allows_role, role_level, is_role}
use github_osint_secret_scan.Access.Storage.{
  User, UserSession, SessionMetadata, AuthTables, get_user_by_username, get_or_create_user,
  get_user_session_by_hash, create_user_session, create_user, revoke_user_session, set_user_active,
  grant_tenant_membership,
}
use github_osint_secret_scan.Access.Sessions.{resolve}
use github_osint_secret_scan.Access.Tokens.{create_db_session_token, unsupported}

abbrev pub browser_session : ℕ → AuthContext → String → SessionMetadata → Time → UserSession
browser_session user_id context token_hash metadata expires_at = record {
  user_id = user_id;
  session_name = some "Browser";
  token_hash = token_hash;
  role = context.role;
  tenant_scopes = context.tenants;
  expires_at = some expires_at;
  revoked_at = none;
  last_used_at = none;
  metadata = metadata;
}

-- Whether the row of a user exists and is active.
abbrev pub active_user : ℕ → AuthTables → Bool
active_user user_id d = elim (get user_id d.users) [ none ↦ false | some u ↦ u.is_active ]

-- The end of a login: `created` has the user of the session, and `resolved` is what stays if that
-- user is not active, since then nothing is committed.
unfoldable pub finish_login :
    String × String
    → UserSession
    → AuthTables
    → AuthTables
    → Result String (String × String) × AuthTables
unfolding get create_user_session
finish_login tokens session created resolved =
    if not (active_user session.user_id created)
    then (raise "Invalid or expired session token", resolved)
    else (ok tokens, (create_user_session session created).1)

-- The metadata of a browser session, whose parent is a token of the environment or a session.
abbrev pub browser_metadata : String → Option String → Option ℕ → SessionMetadata
browser_metadata csrf_hash parent_env_hash parent_session_id = record {
  kind = some "browser";
  csrf_hash = some csrf_hash;
  parent_env_hash = parent_env_hash;
  parent_session_id = parent_session_id;
}

module _ (hash_token : String → String) where
  -- The login of a resolved credential.
  unfoldable pub login_as :
      Time
      → String
      → String
      → String
      → AuthContext
      → AuthTables
      → Result String (String × String) × AuthTables
  unfolding get_or_create_user get_user_session_by_hash finish_login
  login_as expires_at raw_token csrf credential context d =
      if str_eq context.source "browser-session"
      then (raise "Invalid or expired session token", d)
      else if str_eq context.source "env-token"
      then (let (user_id, created) = get_or_create_user ("env:" ++ˢ context.name) d in
          finish_login (raw_token, csrf)
            (browser_session user_id context (hash_token raw_token)
              (browser_metadata (hash_token csrf) (some (hash_token credential)) none) expires_at)
            created d)
      else elim (get_user_session_by_hash (hash_token credential) d) [
        | none ↦ (raise "'NoneType' object has no attribute 'user'", d)
        | some (parent_id, parent) ↦
            finish_login (raw_token, csrf)
              (browser_session parent.user_id context (hash_token raw_token)
                (browser_metadata (hash_token csrf) none (some parent_id)) expires_at)
              d d
      ]

  unfoldable pub login :
      Dict AuthContext
      → (String → String → Bool)
      → Time
      → Time
      → ℕ
      → String
      → String
      → String
      → AuthTables
      → Result String (String × String) × AuthTables
  unfolding resolve login_as
  login env_contexts before now later browser_session_seconds raw_token csrf credential d =
      let (found, d') = resolve hash_token env_contexts before now false (some credential) d in
      elim found [
        | none ↦ (raise "Invalid or expired session token", d')
        | some context ↦
            login_as (later + browser_session_seconds * 1000000) raw_token csrf credential context
              d'
      ]

unfoldable pub valid_csrf : (String → String) → String → Option String → AuthTables → Bool
unfolding get_user_session_by_hash
valid_csrf hash_token browser_token supplied d =
    if not (has_text supplied)
    then false
    else elim (get_user_session_by_hash (hash_token browser_token) d) [
      | none ↦ false
      | some (i, row) ↦
          has_text row.metadata.csrf_hash
          && str_eq (hash_token (or_default supplied "")) (or_default row.metadata.csrf_hash "")
    ]

-- A session that is found is there, so its revocation does not raise.
unfoldable pub logout : (String → String) → Time → String → AuthTables → AuthTables
unfolding get_user_session_by_hash revoke_user_session
logout hash_token now browser_token d =
    elim (get_user_session_by_hash (hash_token browser_token) d) [
      | none ↦ d
      | some (i, row) ↦ elim (revoke_user_session now i d) [ ok d' ↦ d' | raise error ↦ d ]
    ]

unfoldable pub require_admin : AuthContext → Bool
unfolding allows_role
require_admin context = allows_role "admin" context && is_member "*" context.tenants

abbrev pub refusal : String
refusal = "Global administrator role is required for user administration"

-- `create_user` of the service.
unfoldable pub add_user :
    (String → Bool) → AuthContext → String → Option String → AuthTables → Result String AuthTables
unfolding require_admin get_user_by_username create_user
add_user valid_username context username email d =
    if not (require_admin context)
    then raise refusal
    else if not (valid_username username)
    then raise "Invalid username"
    else elim (get_user_by_username username d) [
      | some u ↦ raise "User already exists"
      | none ↦ ok (create_user username email d).1
    ]

unfoldable pub grant :
    (String → Bool)
    → AuthContext
    → String
    → String
    → String
    → List String
    → AuthTables
    → Result String AuthTables
unfolding require_admin get_user_by_username grant_tenant_membership role_level
grant fits context username tenant role capabilities d =
    if not (require_admin context)
    then raise refusal
    else if not (is_role role)
        || str_eq tenant ""
        || ltb 255 (len tenant)
        || unsupported capabilities
    then raise "Invalid tenant or role"
    else elim (get_user_by_username username d) [
      | none ↦ raise "User does not exist"
      | some (i, u) ↦ grant_tenant_membership fits i tenant role capabilities d
    ]

unfoldable pub set_active : AuthContext → String → Bool → AuthTables → Result String AuthTables
unfolding require_admin set_user_active
set_active context username active d =
    if not (require_admin context) then raise refusal else set_user_active username active d

-- A session of one day.
unfoldable pub issue_session :
    (String → String)
    → (String → String → Bool)
    → Time
    → String
    → AuthContext
    → String
    → Option (List String)
    → AuthTables
    → Result String (ℕ × AuthTables)
unfolding require_admin create_db_session_token
issue_session hash_token before now raw_token context username tenants d =
    if not (require_admin context)
    then raise refusal
    else create_db_session_token hash_token before raw_token username none none tenants
        (some (now + 24 * 3600 * 1000000)) d
