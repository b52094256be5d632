-- ===== src/Access/Storage.antt =====
-- Users, tenant memberships and sessions: their rows (src/orgscan/models.py) and the operations of
-- `Storage` on them (src/orgscan/repositories.py). A session's metadata has the keys that the
-- program reads; an absent key is `none`.
use github_osint_secret_scan.Prelude.{
  ℕ, String, str_eq, Bool, true, false, not, ◌&&◌, ◌||◌, Option, none, some, List, [], ◌∷◌,
  if◌then◌else◌, ◌==◌, ltb, keep, map,
}
use github_osint_secret_scan.Prelude.Table.{Table, get, set_row, add_row, fresh_id}
use github_osint_secret_scan.Prelude.Sort.{sort_by}
use github_osint_secret_scan.Prelude.Result.{Result, ok, raise}
use github_osint_secret_scan.Jobs.Model.{Time}
use github_osint_secret_scan.Access.Context.{is_role}

pub record User : Type 0 where
  pub username : String
  pub email : Option String
  pub is_active : Bool

pub record UserTenantMembership : Type 0 where
  pub user_id : ℕ
  pub tenant_key : String
  pub role : String
  pub capabilities : List String

pub record SessionMetadata : Type 0 where
  pub kind : Option String
  pub csrf_hash : Option String
  pub parent_env_hash : Option String
  pub parent_session_id : Option ℕ

pub record UserSession : Type 0 where
  pub user_id : ℕ
  pub session_name : Option String
  pub token_hash : String
  pub role : String
  pub tenant_scopes : List String
  pub expires_at : Option Time
  pub revoked_at : Option Time
  pub last_used_at : Option Time
  pub metadata : SessionMetadata

pub record AuthTables : Type 0 where
  pub users : Table User
  pub memberships : Table UserTenantMembership
  pub sessions : Table UserSession

-- The first row that a test accepts, with its key.
unfoldable pub find_row {ℓ} : {A : Type ℓ} → (A → Bool) → Table A → Option (ℕ × A)
find_row p [] = none
find_row p ((i, a) ∷ t) = if p a then some (i, a) else find_row p t

unfoldable pub create_user : String → Option String → AuthTables → ℕ × AuthTables
create_user username email d = (
  fresh_id d.users,
  record d {
    users = add_row (record { username = username; email = email; is_active = true }) d.users;
  },
)

unfoldable pub has_auth_users : AuthTables → Bool
has_auth_users d = elim d.users [ [] ↦ false | u ∷ us ↦ true ]

unfoldable pub get_user_by_username : String → AuthTables → Option (ℕ × User)
unfolding find_row
get_user_by_username username d = find_row (λ u. str_eq u.username username) d.users

unfoldable pub set_user_active : String → Bool → AuthTables → Result String AuthTables
unfolding get_user_by_username
set_user_active username active d = elim (get_user_by_username username d) [
  | none ↦ raise "User does not exist"
  | some (i, u) ↦ ok (record d { users = set_row i (record u { is_active = active }) d.users })
]

-- Called without keywords, so an existing user is returned as it stands.
unfoldable pub get_or_create_user : String → AuthTables → ℕ × AuthTables
unfolding get_user_by_username create_user
get_or_create_user username d = elim (get_user_by_username username d) [
  | some (i, u) ↦ (i, d)
  | none ↦ create_user username none d
]

abbrev pub is_membership : ℕ → String → UserTenantMembership → Bool
is_membership user_id tenant_key m = m.user_id == user_id && str_eq m.tenant_key tenant_key

-- `fits tenant_key` is `tenant_key.strip() and len(tenant_key) <= 255`.
unfoldable pub grant_tenant_membership :
    (String → Bool) → ℕ → String → String → List String → AuthTables → Result String AuthTables
unfolding find_row
grant_tenant_membership fits user_id tenant_key role capabilities d =
    if not (is_role role) || not (fits tenant_key)
    then raise "Invalid tenant or role"
    else elim (find_row (is_membership user_id tenant_key) d.memberships) [
      | some (i, m) ↦ ok (record d {
        memberships =
            set_row i (record m { role = role; capabilities = capabilities }) d.memberships;
      })
      | none ↦ ok (record d {
        memberships =
            add_row
              (record {
                user_id = user_id;
                tenant_key = tenant_key;
                role = role;
                capabilities = capabilities;
              })
              d.memberships;
      })
    ]

-- ORDER BY tenant_key, id: `before` is the database's order of texts.
abbrev sorts_before :
    (String → String → Bool) → ℕ × UserTenantMembership → ℕ × UserTenantMembership → Bool
sorts_before before (i, m) (j, n) =
    before m.tenant_key n.tenant_key || str_eq m.tenant_key n.tenant_key && ltb i j

abbrev pub row_of {ℓ} : {A : Type ℓ} → ℕ × A → A
row_of (i, a) = a

abbrev pub of_user : ℕ → ℕ × UserTenantMembership → Bool
of_user user_id (i, m) = m.user_id == user_id

unfoldable pub list_user_tenant_memberships :
    (String → String → Bool) → ℕ → AuthTables → List UserTenantMembership
list_user_tenant_memberships before user_id d =
    map row_of (sort_by (sorts_before before) (keep (of_user user_id) d.memberships))

unfoldable pub create_user_session : UserSession → AuthTables → ℕ × AuthTables
create_user_session row d = (fresh_id d.sessions, record d { sessions = add_row row d.sessions })

unfoldable pub get_user_session_by_hash : String → AuthTables → Option (ℕ × UserSession)
unfolding find_row
get_user_session_by_hash token_hash d = find_row (λ s. str_eq s.token_hash token_hash) d.sessions

unfoldable pub revoke_user_session : Time → ℕ → AuthTables → Result String AuthTables
revoke_user_session now i d = elim (get i d.sessions) [
  | none ↦ raise "User session does not exist"
  | some s ↦ ok (record d { sessions = set_row i (record s { revoked_at = some now }) d.sessions })
]

unfoldable pub touch_user_session : Time → ℕ → UserSession → AuthTables → AuthTables
touch_user_session now i s d = record d {
  sessions = set_row i (record s { last_used_at = some now }) d.sessions;
}
