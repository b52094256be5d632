-- ===== src/Access/Middleware/Admission.antt =====
-- What a request has shown when the application is called with a context.
use Prim.Native.String.{◌++◌ as ◌++ˢ◌}
use github_osint_secret_scan.Prelude.{
  String, str_eq, eq_iff, has_text, is_none, Bool, true, false, not, ◌&&◌, ◌||◌, Option, none, some,
  or_default, arith, ◌≡◌, ◌≢◌, ◌≤◌, ◌⊎◌, refl, ap, sym, Bool-cases, inl, inr, leb→le,
}
use github_osint_secret_scan.Prelude.Dict.{Dict}
use github_osint_secret_scan.Jobs.Model.{Time}
use github_osint_secret_scan.Access.Context.{
  AuthContext, allows_role, level, role_level, local_context,
}
use github_osint_secret_scan.Access.Storage.{AuthTables}
use github_osint_secret_scan.Access.Sessions.{resolve}
use github_osint_secret_scan.Access.Login.{valid_csrf}
use github_osint_secret_scan.Access.Middleware.{
  Request, Response, served, same_origin, is_safe, is_user_path, required_role, read_body, Body,
  whole, broken, oversized, credential, using_cookie, has_form, enabled, is_open, check_csrf,
  guard_csrf, authorize, refuse, admit, token_of, respond,
}

Body-cases : (b : Body) → (b ≡ whole) ⊎ ((b ≡ broken) ⊎ (b ≡ oversized))
Body-cases whole = inl refl
Body-cases broken = inr (inl refl)
Body-cases oversized = inr (inr refl)

is_none-eq : {A : Type 0} (o : Option A) → is_none o ≡ true → o ≡ none
is_none-eq none h = refl
is_none-eq (some a) h = cc

served_injective : {c c' : AuthContext} {t t' : Option String} → served c t ≡ served c' t' → c ≡ c'
served_injective h = cc

same_origin-names :
    (r : Request)
    → same_origin r ≡ true
    → (origin : String) → r.origin ≡ some origin
    → origin ≡ r.scheme ++ˢ "://" ++ˢ r.netloc
unfolding same_origin
same_origin-names r h origin e =
    (eq_iff origin (r.scheme ++ˢ "://" ++ˢ r.netloc)).0 (rw (e, same_origin) at h)

module _ (lower before_semicolon hash_token : String → String) (env_contexts : Dict AuthContext)
    (before : String → String → Bool) (api_auth_required : Bool) where
  -- An origin that the request names is that of its URL, and the token is one of the session.
  abbrev pub Checked : AuthTables → Request → Option String → Type 0
  Checked d r supplied =
      ((origin : String) → r.origin ≡ some origin → origin ≡ r.scheme ++ˢ "://" ++ˢ r.netloc)
      × (valid_csrf hash_token (or_default r.session_cookie "") supplied d ≡ true)

  check_csrf-served :
      (d : AuthTables) (r : Request) (supplied : Option String) (next : Response) (c : AuthContext)
      (csrf : Option String)
      → check_csrf lower before_semicolon hash_token env_contexts before api_auth_required d r
          supplied next
        ≡ served c csrf
      → (next ≡ served c csrf) × Checked d r supplied
  unfolding check_csrf
  check_csrf-served d r supplied next c csrf h =
      elim (Bool-cases (
        not (same_origin r)
        || not (valid_csrf hash_token (or_default r.session_cookie "") supplied d))) [
          | inl e ↦ cc (rw (e, check_csrf) at h)
          | inr e ↦ (
            rw (e, check_csrf) at h,
            (same_origin-names r (ground (arith, e)), ground (arith, e)),
          )
        ]

  -- A change that a browser asks for comes with a token of its session, from its header or its form.
  abbrev pub Guarded : AuthTables → Request → Type 0
  Guarded d r =
      using_cookie lower before_semicolon r ≡ true
      → is_safe r ≡ false
      → Checked d r r.csrf_header ⊎ Checked d r r.form_token

  guard_csrf-served :
      (d : AuthTables) (r : Request) (next : Response) (c : AuthContext) (csrf : Option String)
      → guard_csrf lower before_semicolon hash_token env_contexts before api_auth_required d r next
        ≡ served c csrf
      → (next ≡ served c csrf) × Guarded d r
  unfolding guard_csrf
  guard_csrf-served d r next c csrf h =
      elim (Bool-cases (using_cookie lower before_semicolon r && not (is_safe r))) [
        | inr e ↦ (rw (e, guard_csrf) at h, λ cookie unsafe. cc (rw (cookie, unsafe) at e))
        | inl e ↦
            elim (Bool-cases (not (has_text r.csrf_header) && has_form lower before_semicolon r)) [
              | inr f ↦
                  let (same, checked) =
                    check_csrf-served d r r.csrf_header next c csrf (rw (e, f, guard_csrf) at h) in
                  (same, λ cookie unsafe. inl checked)
              | inl f ↦ elim (Body-cases (read_body 0 r.messages)) [
                | inl g ↦
                    let (same, checked) =
                      check_csrf-served d r r.form_token next c csrf
                        (rw (e, f, g, guard_csrf) at h) in
                    (same, λ cookie unsafe. inr checked)
                | inr (inl g) ↦ cc (rw (e, f, g, guard_csrf) at h)
                | inr (inr g) ↦ cc (rw (e, f, g, guard_csrf) at h)
              ]
            ]
      ]

  authorize-served :
      (d : AuthTables) (r : Request) (context c : AuthContext) (csrf : Option String)
      → authorize lower before_semicolon hash_token env_contexts before api_auth_required d r
          context
        ≡ served c csrf
      → (context ≡ c) × (allows_role (required_role r) context ≡ true) × Guarded d r
  unfolding authorize
  authorize-served d r context c csrf h =
      elim (Bool-cases (allows_role (required_role r) context)) [
        | inr e ↦ cc (rw (e, authorize) at h)
        | inl e ↦
            let (same, guarded) = guard_csrf-served d r _ c csrf (rw (e, authorize) at h) in
            (served_injective same, e, guarded)
      ]

  -- Who asks: the context of its token, or the local user, if no request needs a token and this one
  -- has none.
  abbrev pub Identified : Time → AuthTables → Request → AuthContext → Type 0
  Identified now d r c =
      ((resolve hash_token env_contexts before now (using_cookie lower before_semicolon r)
          (token_of lower before_semicolon hash_token env_contexts before api_auth_required r) d).0
        ≡ some c)
      ⊎ ((c ≡ local_context)
          × (enabled lower before_semicolon hash_token env_contexts before api_auth_required d
              ≡ false)
          × (has_text r.session_cookie ≡ false)
          × (credential lower before_semicolon r ≡ none)
          × (r.authorization ≡ none))

  -- The roles that a request needs.
  abbrev pub Entitled : Request → AuthContext → Type 0
  Entitled r c =
      (1 ≤ level c.role)
      × (is_safe r ≡ false → str_eq r.url_path "/logout" ≡ false → 2 ≤ level c.role)
      × (is_user_path r ≡ true → 3 ≤ level c.role)

  allows_role-Entitled :
      (r : Request) (c : AuthContext) → allows_role (required_role r) c ≡ true → Entitled r c
  unfolding allows_role required_role role_level
  allows_role-Entitled r c h = elim (Bool-cases (is_user_path r)) [
    | inl u ↦
        let high : 3 ≤ level c.role = leb→le 3 (level c.role) (rw u at h) in
        (omega (arith, high), λ _ _. omega (arith, high), λ _. high)
    | inr u ↦ elim (Bool-cases (is_safe r || str_eq r.url_path "/logout")) [
      | inl e ↦ (leb→le 1 (level c.role) (rw (u, e) at h), λ s l. cc (rw (s, l) at e), λ t. cc)
      | inr e ↦
          let middle : 2 ≤ level c.role = leb→le 2 (level c.role) (rw (u, e) at h) in
          (omega (arith, middle), λ _ _. middle, λ t. cc)
    ]
  ]

  refuse-served :
      (r : Request) (c : AuthContext) (csrf : Option String)
      → refuse lower before_semicolon hash_token env_contexts before api_auth_required r
        ≢ served c csrf
  unfolding refuse
  refuse-served r c csrf h = ground (arith, h)

  admit-served :
      (is_enabled : Bool) (d : AuthTables) (r : Request) (context : Option AuthContext)
      (c : AuthContext) (csrf : Option String)
      → admit lower before_semicolon hash_token env_contexts before api_auth_required is_enabled d r
          context
        ≡ served c csrf
      → ((context ≡ some c)
          ⊎ ((c ≡ local_context)
              × (is_enabled ≡ false)
              × (has_text r.session_cookie ≡ false)
              × (credential lower before_semicolon r ≡ none)
              × (r.authorization ≡ none)))
        × Entitled r c
        × Guarded d r
  unfolding admit refuse
  admit-served is_enabled d r (some context) c csrf h =
      let (same, role, guarded) = authorize-served d r context c csrf h in
      (inl (ap some same), rw (← same) (allows_role-Entitled r context role), guarded)
  admit-served is_enabled d r none c csrf h =
      elim (Bool-cases (
        is_enabled
        || has_text r.session_cookie
        || not (is_none (credential lower before_semicolon r))
        || not (is_none r.authorization))) [
          | inl e ↦ absurd (refuse-served r c csrf (rw (e, admit) at h))
          | inr e ↦
              let (same, role, guarded) =
                authorize-served d r local_context c csrf (rw (e, admit) at h) in
              (
                inr (
                  sym same,
                  ground (arith, e),
                  ground (arith, e),
                  is_none-eq _ (ground (arith, e)),
                  is_none-eq _ (ground (arith, e)),
                ),
                rw (← same) (allows_role-Entitled r local_context role),
                guarded,
              )
        ]

  -- If the application is called with a context, the request's token resolves to it, or it is the
  -- local one, which only a request without any token gets, and only while no token is required.
  -- The context's role is at least reader, at least analyst for a request that may change something
  -- (but a logout), and admin for the user administration, by the path of the request's URL. A
  -- change that is asked for with a session cookie comes with a CSRF token of that session, and if
  -- it names an origin, this is the scheme and the host of the request's URL.
  pub respond-IsAdmitted :
      (now : Time) (available : Bool) (r : Request) (d : AuthTables) (c : AuthContext)
      (csrf : Option String)
      → (respond lower before_semicolon hash_token env_contexts before api_auth_required now
          available r d).0
        ≡ served c csrf
      → Identified now d r c
        × Entitled r c
        × Guarded
            (respond lower before_semicolon hash_token env_contexts before api_auth_required now
              available r d).1
            r
  unfolding respond
  respond-IsAdmitted now available r d c csrf h = elim (Bool-cases (is_open r)) [
    | inl e ↦ cc (rw (e, respond) at h)
    | inr e ↦ elim (Bool-cases (not available)) [
      | inl f ↦ cc (rw (e, f, respond) at h)
      | inr f ↦
          let seen =
            resolve hash_token env_contexts before now (using_cookie lower before_semicolon r)
              (token_of lower before_semicolon hash_token env_contexts before api_auth_required r)
              d in
          let (who, entitled, guarded) =
            admit-served _ seen.1 r seen.0 c csrf (rw (e, f, respond) at h) in
          (who, entitled, rw (e, f, respond) guarded)
    ]
  ]
