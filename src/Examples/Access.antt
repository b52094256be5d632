-- ===== src/Examples/Access.antt =====
-- Access control at concrete tables: a user with one membership, a session and a browser session
-- that was opened from it.
use github_osint_secret_scan.Prelude.{
  String, is_member, Bool, true, false, none, some, [], ◌∷◌, arith, ◌≡◌, ◌≤◌, refl, inr,
  some_injective, keep,
}
use github_osint_secret_scan.Prelude.Table.{Table, get, fresh_id, add_row}
use github_osint_secret_scan.Prelude.Sort.{sort_by}
use github_osint_secret_scan.Prelude.Rows.{IsKeyed}
use github_osint_secret_scan.Prelude.Result.{ok}
use github_osint_secret_scan.Prelude.Dict.{lookup}
use github_osint_secret_scan.Access.Context.{AuthContext, level, is_role, role_level}
use github_osint_secret_scan.Access.Storage.{
  User, UserTenantMembership, SessionMetadata, UserSession, AuthTables, get_user_session_by_hash,
}
use github_osint_secret_scan.Access.Sessions.{is_browser, parent_of, context_for_row, resolve}
use github_osint_secret_scan.Access.Sessions.Scopes.{Covers}
use github_osint_secret_scan.Access.Sessions.Caps.{IsLive, IsWithin, context_for_row-IsBounded}
use github_osint_secret_scan.Access.Tokens.{create_db_session_token}
use github_osint_secret_scan.Access.Tokens.Issued.{create_db_session_token-resolve}
use github_osint_secret_scan.Access.System.{Steps, here, next, resolves, Steps-revoked}

abbrev no_parent : SessionMetadata
no_parent = record {
  kind = none;
  csrf_hash = none;
  parent_env_hash = none;
  parent_session_id = none;
}

abbrev from_first : SessionMetadata
from_first = record no_parent {
  kind = some "browser";
  csrf_hash = some "c";
  parent_session_id = some 1;
}

abbrev alice : User
alice = record { username = "alice"; email = none; is_active = true }

abbrev at_acme : UserTenantMembership
at_acme = record {
  user_id = 1;
  tenant_key = "acme";
  role = "analyst";
  capabilities = "secrets:reveal" ∷ [];
}

abbrev first_session : UserSession
first_session = record {
  user_id = 1;
  session_name = none;
  token_hash = "first";
  role = "analyst";
  tenant_scopes = "acme" ∷ [];
  expires_at = some 100;
  revoked_at = none;
  last_used_at = none;
  metadata = no_parent;
}

abbrev browser : UserSession
browser = record first_session { token_hash = "browser"; role = "admin"; metadata = from_first }

abbrev with_sessions : Table UserSession → AuthTables
with_sessions sessions = record {
  users = (1, alice) ∷ [];
  memberships = (1, at_acme) ∷ [];
  sessions = sessions;
}

abbrev pub tables : AuthTables
tables = with_sessions ((1, first_session) ∷ (2, browser) ∷ [])

-- A digest that keeps its text, and an order in which no text stands before another.
abbrev pub digest : String → String
digest s = s

abbrev pub unordered : String → String → Bool
unordered a b = false

abbrev pub from_browser : AuthContext
from_browser = record {
  name = "alice";
  role = "analyst";
  tenants = "acme" ∷ [];
  authenticated = true;
  source = "browser-session";
  user_id = some 1;
  capabilities = "secrets:reveal" ∷ [];
}

browser_resolves : context_for_row digest [] unordered 50 tables browser ≡ some from_browser
unfolding context_for_row sort_by
browser_resolves = refl

context_for_row-IsBounded_example :
    IsLive 50 tables browser
    × (level from_browser.role ≤ level browser.role)
    × (is_browser browser ≡ true
        → (p : AuthContext) × (parent_of digest [] unordered 50 tables browser ≡ some p)
          × IsWithin p from_browser)
    × (is_browser browser ≡ false
        → (s : String) → is_member s from_browser.tenants ≡ true
        → ((m : UserTenantMembership) × Covers tables browser.user_id s m
            × (level from_browser.role ≤ level m.role))
          × (is_member "secrets:reveal" from_browser.capabilities ≡ true
              → (m : UserTenantMembership) × Covers tables browser.user_id s m
                × (is_member "secrets:reveal" m.capabilities ≡ true)))
context_for_row-IsBounded_example =
    context_for_row-IsBounded digest [] unordered 50 tables browser from_browser browser_resolves

abbrev issued : UserSession
issued = record first_session { token_hash = "new"; expires_at = some 90 }

abbrev grown_tables : AuthTables
grown_tables = with_sessions ((1, first_session) ∷ (2, browser) ∷ (3, issued) ∷ [])

analyst_role : is_role "analyst" ≡ true
unfolding role_level
analyst_role = refl

issued_new :
    create_db_session_token digest unordered "new" "alice" none none
      (some ("acme" ∷ []))
      (some 90)
      tables
    ≡ ok (3, grown_tables)
unfolding create_db_session_token sort_by keep fresh_id add_row
issued_new = refl

no_such_token : get_user_session_by_hash "new" tables ≡ none
unfolding get_user_session_by_hash
no_such_token = refl

third_session : get 3 grown_tables.sessions ≡ some issued
unfolding get
third_session = refl

alice_there : get 1 grown_tables.users ≡ some alice
unfolding get
alice_there = refl

no_env_token : lookup {V = AuthContext} "new" [] ≡ none
unfolding lookup
no_env_token = refl

create_db_session_token-resolve_example :
    (c : AuthContext) × ((resolve digest [] unordered 50 false (some "new") grown_tables).0
      ≡ some c)
    × (c.tenants ≡ issued.tenant_scopes)
    × (c.role ≡ issued.role)
    × (c.user_id ≡ some issued.user_id)
create_db_session_token-resolve_example =
    create_db_session_token-resolve digest [] unordered 50 "new" "alice" none none
      (some ("acme" ∷ [])) (some 90) tables grown_tables 3 issued alice (analyst_role, tt) refl
      no_env_token no_such_token issued_new third_session alice_there refl
      (λ t e. omega (arith, some_injective e)) refl

abbrev revoked : UserSession
revoked = record first_session { revoked_at = some 40 }

abbrev revoked_tables : AuthTables
revoked_tables = with_sessions ((1, revoked) ∷ (2, browser) ∷ [])

first_revoked : get 1 revoked_tables.sessions ≡ some revoked
unfolding get
first_revoked = refl

browser_there : get 2 revoked_tables.sessions ≡ some browser
unfolding get
browser_there = refl

tables_keyed : IsKeyed revoked_tables.sessions
unfolding get
tables_keyed = (refl, (refl, tt))

-- The token of a stranger is tried meanwhile.
stranger : Steps digest [] unordered (λ s. true) (λ s. true) 3600 revoked_tables revoked_tables
unfolding resolve
stranger = next here (resolves 45 false (some "stranger") refl)

Steps-revoked_example : context_for_row digest [] unordered 50 revoked_tables browser ≡ none
Steps-revoked_example =
    Steps-revoked digest [] unordered 50 (λ s. true) (λ s. true) 3600 revoked_tables revoked_tables
      1 2 revoked browser tables_keyed first_revoked refl stranger browser_there
      (inr (refl, refl, refl))
