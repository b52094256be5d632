-- ===== src/Access/Middleware.antt =====
-- `AuthenticationMiddleware` of src/orgscan/api/authentication.py, up to the call of the
-- application. A request has the parts that the middleware reads; the body comes as the messages of
-- the server, `scope_path` is `scope["path"]`, while `url_path`, `scheme` and `netloc` are parts of
-- `request.url`, which the web framework builds from the Host header too; `form_token` is the field `csrf_token` that the web framework parses from it.
-- Python's `str.lower` and the part of a text before its first `;` are arguments.
pub mod Admission
use Prim.Native.String.{len, slice, ◌++◌ as ◌++ˢ◌}
use text.Mathlib.Text.{starts_with}
use github_osint_secret_scan.Prelude.{
  ℕ, ◌+◌, String, str_eq, is_member, is_empty, has_text, is_none, Bool, true, false, not, ◌&&◌,
  ◌||◌, Option, none, some, List, [], ◌∷◌, if◌then◌else◌, ltb, or_default,
}
use github_osint_secret_scan.Prelude.Dict.{Dict}
use github_osint_secret_scan.Jobs.Model.{Time}
use github_osint_secret_scan.Access.Context.{AuthContext, allows_role, local_context}
use github_osint_secret_scan.Access.Storage.{AuthTables, has_auth_users}
use github_osint_secret_scan.Access.Sessions.{resolve}
use github_osint_secret_scan.Access.Login.{valid_csrf}

pub data Message : Type 0 where
  disconnect : Message
  part : ℕ → Bool → Message

pub record Request : Type 0 where
  pub scope_type : String
  pub scope_path : String
  pub url_path : String
  pub method : String
  pub scheme : String
  pub netloc : String
  pub token_header : Option String
  pub authorization : Option String
  pub origin : Option String
  pub csrf_header : Option String
  pub content_type : Option String
  pub session_cookie : Option String
  pub csrf_cookie : Option String
  pub messages : List Message
  pub form_token : Option String

-- What the middleware answers, or hands on to the application.
pub data Response : Type 0 where
  passed unavailable login_page unauthorized wrong_role too_large disconnected bad_csrf : Response
  served : AuthContext → Option String → Response

unfoldable pub same_origin : Request → Bool
same_origin r = elim r.origin [
  | none ↦ true
  | some origin ↦ str_eq origin (r.scheme ++ˢ "://" ++ˢ r.netloc)
]

abbrev pub is_open : Request → Bool
is_open r =
    not (str_eq r.scope_type "http")
    || is_member r.scope_path ("/health" ∷ "/login" ∷ [])
    || starts_with r.scope_path "/static/"

-- request.method in {"GET","HEAD","OPTIONS"}
abbrev pub is_safe : Request → Bool
is_safe r = is_member r.method ("GET" ∷ "HEAD" ∷ "OPTIONS" ∷ [])

abbrev pub is_user_path : Request → Bool
is_user_path r = starts_with r.url_path "/users" || starts_with r.url_path "/dashboard/users"

unfoldable pub required_role : Request → String
required_role r =
    if is_user_path r
    then "admin"
    else if is_safe r || str_eq r.url_path "/logout"
    then "reader"
    else "analyst"

-- The end of the loop that reads the body: its end, or why there is none.
pub data Body : Type 0 where
  whole broken oversized : Body

-- The server sends a disconnect when there is nothing more to read.
unfoldable pub read_body : ℕ → List Message → Body
read_body total [] = broken
read_body total (disconnect ∷ messages) = broken
read_body total (part size more ∷ messages) =
    let rest = read_body (total + size) messages in
    if ltb 11000000 (total + size) then oversized else if not more then whole else rest

module _ (lower before_semicolon : String → String) where
  -- The credential in the headers.
  unfoldable pub credential : Request → Option String
  credential r =
      if has_text r.authorization && not (has_text r.token_header)
      then (let authorization = or_default r.authorization "" in
          if starts_with (lower authorization) "bearer "
          then some (slice authorization 7 (len authorization))
          else some "")
      else r.token_header

  unfoldable pub using_cookie : Request → Bool
  unfolding credential
  using_cookie r =
      not (has_text (credential r) || has_text r.authorization) && has_text r.session_cookie

  abbrev pub has_form : Request → Bool
  has_form r =
      is_member (before_semicolon (or_default r.content_type ""))
        ("application/x-www-form-urlencoded" ∷ "multipart/form-data" ∷ [])

  module _ (hash_token : String → String) (env_contexts : Dict AuthContext)
      (before : String → String → Bool) (api_auth_required : Bool) where
    unfoldable pub enabled : AuthTables → Bool
    unfolding has_auth_users
    enabled d = api_auth_required || not (is_empty env_contexts) || has_auth_users d

    -- The test that follows the collection of the token.
    unfoldable pub check_csrf : AuthTables → Request → Option String → Response → Response
    unfolding same_origin valid_csrf
    check_csrf d r supplied next =
        if not (same_origin r)
          || not (valid_csrf hash_token (or_default r.session_cookie "") supplied d)
        then bad_csrf
        else next

    -- `if using_cookie and request.method not in {…}`.
    unfoldable pub guard_csrf : AuthTables → Request → Response → Response
    unfolding check_csrf read_body using_cookie
    guard_csrf d r next =
        if using_cookie r && not (is_safe r)
        then (if not (has_text r.csrf_header) && has_form r
            then elim (read_body 0 r.messages) [
              | broken ↦ disconnected
              | oversized ↦ too_large
              | whole ↦ check_csrf d r r.form_token next
            ]
            else check_csrf d r r.csrf_header next)
        else next

    -- The CSRF token that the application sees.
    unfoldable pub shown_csrf : AuthTables → Request → Option String
    unfolding using_cookie valid_csrf
    shown_csrf d r =
        let csrf = if using_cookie r then r.csrf_cookie else none in
        if has_text csrf && not (valid_csrf hash_token (or_default r.session_cookie "") csrf d)
        then none
        else csrf

    unfoldable pub authorize : AuthTables → Request → AuthContext → Response
    unfolding required_role guard_csrf shown_csrf allows_role
    authorize d r context =
        if not (allows_role (required_role r) context)
        then wrong_role
        else guard_csrf d r (served context (shown_csrf d r))

    unfoldable pub refuse : Request → Response
    unfolding credential
    refuse r =
        if str_eq r.method "GET"
          && (str_eq r.url_path "/" || starts_with r.url_path "/dashboard")
          && not (has_text (credential r))
        then login_page
        else unauthorized

    -- The context that was resolved, or that of a local user.
    unfoldable pub admit : Bool → AuthTables → Request → Option AuthContext → Response
    unfolding refuse authorize credential
    admit is_enabled d r (some context) = authorize d r context
    admit is_enabled d r none =
        if is_enabled
          || has_text r.session_cookie
          || not (is_none (credential r))
          || not (is_none r.authorization)
        then refuse r
        else authorize d r local_context

    abbrev pub token_of : Request → Option String
    token_of r = if using_cookie r then r.session_cookie else credential r

    -- `available`: the database answers.
    unfoldable pub respond : Time → Bool → Request → AuthTables → Response × AuthTables
    unfolding resolve using_cookie credential enabled admit
    respond now available r d =
        if is_open r
        then (passed, d)
        else if not available
        then (unavailable, d)
        else let (context, d') =
            resolve hash_token env_contexts before now (using_cookie r) (token_of r) d in
          (admit (enabled d) d' r context, d')
