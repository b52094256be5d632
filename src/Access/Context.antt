-- ===== src/Access/Context.antt =====
-- src/orgscan/security_context.py: roles, and what a context allows.
use github_osint_secret_scan.Prelude.{
  ℕ, String, str_eq, is_member, Bool, true, false, ◌&&◌, ◌||◌, Option, none, some, List, [], ◌∷◌,
  if◌then◌else◌, leb, or_default,
}

-- ROLE_LEVELS.get(role)
unfoldable pub role_level : String → Option ℕ
role_level role =
    if str_eq role "reader"
    then some 1
    else if str_eq role "analyst"
    then some 2
    else if str_eq role "admin"
    then some 3
    else none

-- ROLE_LEVELS.get(role, 0)
abbrev pub level : String → ℕ
level role = or_default (role_level role) 0

-- role in ROLE_LEVELS
abbrev pub is_role : String → Bool
is_role role = elim (role_level role) [ none ↦ false | some n ↦ true ]

pub record AuthContext : Type 0 where
  pub name : String
  pub role : String
  pub tenants : List String
  pub authenticated : Bool
  pub source : String
  pub user_id : Option ℕ
  pub capabilities : List String

unfoldable pub allows_role : String → AuthContext → Bool
unfolding role_level
allows_role required_role c = elim (role_level required_role) [
  | none ↦ false
  | some n ↦ leb n (level c.role)
]

unfoldable pub allows_tenant : Option String → AuthContext → Bool
allows_tenant tenant_key c =
    is_member "*" c.tenants || elim tenant_key [ none ↦ false | some k ↦ is_member k c.tenants ]

unfoldable pub allows_secret_reveal : AuthContext → Bool
allows_secret_reveal c =
    c.authenticated
    && (str_eq c.role "admin"
        || str_eq c.role "analyst" && is_member "secrets:reveal" c.capabilities)

-- LOCAL_CONTEXT
abbrev pub local_context : AuthContext
local_context = record {
  name = "local";
  role = "admin";
  tenants = "*" ∷ [];
  authenticated = false;
  source = "local";
  user_id = none;
  capabilities = [];
}
