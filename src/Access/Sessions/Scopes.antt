-- ===== src/Access/Sessions/Scopes.antt =====
-- The rows behind the scopes of a session: what `intersect`, `capped_role` and the two dictionaries
-- of memberships keep.
use mathlib.Core.List.{Memᴰ}
use mathlib.Core.Path.{subst}
use github_osint_secret_scan.Prelude.{
  ℕ, String, str_eq, eq_iff, is_member, is_empty, Bool, true, false, some, List, [], ◌∷◌,
  if◌then◌else◌, ltb, keep, map, arith, ◌≡◌, ◌≢◌, ◌≤◌, ◌⊎◌, inl, inr, refl, sym, ◌∙◌,
  some_injective, All, Bool-cases, Option-cases, ==_iff, ltb→lt,
}
use github_osint_secret_scan.Prelude.Dict.{Dict, lookup, insert, lookup-insert}
use github_osint_secret_scan.Prelude.Rows.{All-keep}
use github_osint_secret_scan.Prelude.Sort.{All-sort_by}
use github_osint_secret_scan.Access.Context.{AuthContext, level, is_role}
use github_osint_secret_scan.Access.Storage.{
  UserTenantMembership, AuthTables, list_user_tenant_memberships, row_of, of_user,
}
use github_osint_secret_scan.Access.Sessions.{
  intersect, lower_role, capped_role, roles_from, grants_from, scoped, key_of, reveals, with_scopes,
}

mem-keep_both :
    (p : String → Bool) (ss : List String) (s : String)
    → is_member s (keep p ss) ≡ true
    → (p s ≡ true) × (is_member s ss ≡ true)
unfolding keep
mem-keep_both p [] s h = cc
mem-keep_both p (t ∷ ss) s h = elim (Bool-cases (p t)) [
  | inl e ↦ elim (Bool-cases (str_eq t s)) [
    | inl same ↦ (rw (← (eq_iff t s).0 same) e, rw same)
    | inr other ↦ ground (arith, mem-keep_both p ss s, e, other)
  ]
  | inr e ↦ ground (arith, mem-keep_both p ss s, e)
]

pub intersect-mem :
    (saved current : List String) (s : String)
    → is_member s (intersect saved current) ≡ true
    → ((is_member s current ≡ true) ⊎ (is_member "*" current ≡ true))
      × ((is_member s saved ≡ true) ⊎ (is_member "*" saved ≡ true))
unfolding intersect
intersect-mem saved current s h = elim (Bool-cases (is_member "*" saved)) [
  | inl e ↦ (inl (ground (arith, e)), inr e)
  | inr e ↦ elim (Bool-cases (is_member "*" current)) [
    | inl f ↦ (inr f, inl (ground (arith, e, f)))
    | inr f ↦
        let both = mem-keep_both (λ t. is_member t current) saved s (ground (arith, e, f)) in
        (inl both.0, inl both.1)
  ]
]

All-weaken_le :
    {n k : ℕ} (roles : List String)
    → k ≤ n
    → All (λ r. n ≤ level r) roles
    → All (λ r. k ≤ level r) roles
All-weaken_le [] h a = tt
All-weaken_le (r ∷ roles) h a = (omega (arith, a.0), All-weaken_le roles h a.1)

lower_role-le :
    (role r : String)
    → (level (lower_role role r) ≤ level role) × (level (lower_role role r) ≤ level r)
unfolding lower_role
lower_role-le role r = elim (Bool-cases (ltb (level r) (level role))) [
  | inl e ↦ rw e (omega (arith, ltb→lt (level r) (level role) e), omega arith)
  | inr e ↦ rw e (omega arith, ground arith)
]

-- The first of the least levels is at most each of them.
pub capped_role-le :
    (role : String) (roles : List String)
    → (level (capped_role role roles) ≤ level role)
      × All (λ r. level (capped_role role roles) ≤ level r) roles
unfolding capped_role
capped_role-le role [] = (omega arith, tt)
capped_role-le role (r ∷ roles) =
    let rest = capped_role-le (lower_role role r) roles in
    let (below, beside) = lower_role-le role r in
    (omega (arith, rest.0, below), (omega (arith, rest.0, beside), rest.1))

module _ {ℓ} {V : Type ℓ} where
  insert_origin :
      (k s : String) (v r : V) (d : Dict V)
      → lookup s (insert k v d) ≡ some r
      → (lookup s d ≡ some r) ⊎ ((k ≡ s) × (v ≡ r))
  insert_origin k s v r d h =
      let h' : (if str_eq k s then some v else lookup s d) ≡ some r =
        sym (lookup-insert k s v d) ∙ h in
      elim (Bool-cases (str_eq k s)) [
        | inl e ↦ inr ((eq_iff k s).0 e, ground (arith, h', e))
        | inr e ↦ inl (ground (arith, h', e))
      ]

  lookup-nil : (k : String) {r : V} → lookup k [] ≢ some r
  unfolding lookup
  lookup-nil k h = cc

  lookup-of-key :
      (s : String) (d : Dict V)
      → is_member s (map key_of d) ≡ true
      → (r : V) × (lookup s d ≡ some r)
  unfolding lookup
  lookup-of-key s [] h = cc
  lookup-of-key s ((k, v) ∷ d) h = elim (Bool-cases (str_eq k s)) [
    | inl e ↦ (v, rw e)
    | inr e ↦
        let (r, found) = lookup-of-key s d (ground (arith, h, e)) in (r, ground (arith, found, e))
  ]

  -- The entry that a scope is looked up at: its own, or that of "*".
  abbrev Entry : V → Dict V → String → Type ℓ
  Entry default d s =
      (k : String) × ((k ≡ s) ⊎ (k ≡ "*")) × (lookup k d ≡ some (scoped default d s))

  scoped-Entry :
      (default : V) (d : Dict V) (s : String)
      → (is_member s (map key_of d) ≡ true) ⊎ (is_member "*" (map key_of d) ≡ true)
      → Entry default d s
  unfolding scoped
  scoped-Entry default d s h = elim (Option-cases (lookup s d)) [
    | inr (v, e) ↦ (s, inl refl, ground (arith, e))
    | inl e ↦ elim h [
      | inl own ↦ let (r, found) = lookup-of-key s d own in cc
      | inr star ↦
          let (r, found) = lookup-of-key "*" d star in ("*", inr refl, ground (arith, e, found))
    ]
  ]

granted-Entry :
    (d : Dict (List String)) (s : String)
    → is_member "secrets:reveal" (scoped [] d s) ≡ true
    → Entry [] d s
unfolding scoped
granted-Entry d s h = elim (Option-cases (lookup s d)) [
  | inr (v, e) ↦ (s, inl refl, ground (arith, e))
  | inl e ↦ elim (Option-cases (lookup "*" d)) [
    | inr (v, f) ↦ ("*", inr refl, ground (arith, e, f))
    | inl f ↦ cc (rw (e, f) at h)
  ]
]

roles_from_origin {ℓ} :
    (P : UserTenantMembership → Type ℓ) (rows : List UserTenantMembership) (d : Dict String)
    (s r : String)
    → All P rows
    → lookup s (roles_from d rows) ≡ some r
    → (lookup s d ≡ some r) ⊎ ((m : UserTenantMembership) × P m × (m.tenant_key ≡ s) × (m.role ≡ r))
unfolding roles_from
roles_from_origin P [] d s r a h = inl h
roles_from_origin P (m ∷ rows) d s r a h = elim (roles_from_origin P rows _ s r a.1 h) [
  | inr found ↦ inr found
  | inl old ↦ elim (Bool-cases (is_role m.role)) [
    | inr e ↦ inl (rw e at old)
    | inl e ↦ elim (insert_origin m.tenant_key s m.role r d (rw e at old)) [
      | inl before ↦ inl before
      | inr (same, role) ↦ inr (m, a.0, same, role)
    ]
  ]
]

grants_from_origin {ℓ} :
    (P : UserTenantMembership → Type ℓ) (rows : List UserTenantMembership) (d : Dict (List String))
    (s : String) (r : List String)
    → All P rows
    → lookup s (grants_from d rows) ≡ some r
    → (lookup s d ≡ some r)
      ⊎ ((m : UserTenantMembership) × P m × (m.tenant_key ≡ s) × (m.capabilities ≡ r))
unfolding grants_from
grants_from_origin P [] d s r a h = inl h
grants_from_origin P (m ∷ rows) d s r a h = elim (grants_from_origin P rows _ s r a.1 h) [
  | inr found ↦ inr found
  | inl old ↦ elim (insert_origin m.tenant_key s m.capabilities r d old) [
    | inl before ↦ inl before
    | inr (same, granted) ↦ inr (m, a.0, same, granted)
  ]
]

-- A row of the user's in the table of memberships.
abbrev pub Held : AuthTables → ℕ → UserTenantMembership → Type 0
Held d user_id m = (i : ℕ) × Memᴰ (i, m) d.memberships × (m.user_id ≡ user_id)

pub All-map_row {ℓ} :
    {A : Type 0} (P : A → Type ℓ) (rows : List (ℕ × A))
    → All (λ r. P (row_of r)) rows
    → All P (map row_of rows)
All-map_row P [] a = tt
All-map_row P ((i, m) ∷ rows) a = (a.0, All-map_row P rows a.1)

list_user_tenant_memberships-Held :
    (before : String → String → Bool) (user_id : ℕ) (d : AuthTables)
    → All (Held d user_id) (list_user_tenant_memberships before user_id d)
unfolding list_user_tenant_memberships
list_user_tenant_memberships-Held before user_id d = All-map_row (Held d user_id) _ (
    All-sort_by _ (λ r. Held d user_id (row_of r)) _
      (All-keep (λ r. Held d user_id (row_of r)) (of_user user_id) d.memberships
        (λ (i, m) e at_i. (i, at_i, (==_iff m.user_id user_id).0 e))))

pub with_scopes-some :
    (scopes : List String) (made c : AuthContext)
    → with_scopes scopes made ≡ some c
    → (made ≡ c) × (is_empty scopes ≡ false)
with_scopes-some [] made c h = cc
with_scopes-some (s ∷ scopes) made c h = (some_injective h, refl)

pub All-map_mem {ℓ} :
    (Q : String → Type ℓ) (f : String → String) (ss : List String) (s : String)
    → All Q (map f ss)
    → is_member s ss ≡ true
    → Q (f s)
All-map_mem Q f [] s a h = cc
All-map_mem Q f (t ∷ ss) s a h = elim (Bool-cases (str_eq t s)) [
  | inl e ↦ subst (λ u. Q (f u)) ((eq_iff t s).0 e) a.0
  | inr e ↦ All-map_mem Q f ss s a.1 (ground (arith, h, e))
]

pub is_empty-map :
    (f : String → String) (ss : List String) → is_empty ss ≡ false → is_empty (map f ss) ≡ false
is_empty-map f [] h = cc
is_empty-map f (s ∷ ss) h = refl

pub reveals-mem :
    (grants : Dict (List String)) (ss : List String) (s : String)
    → reveals grants ss ≡ true
    → is_member s ss ≡ true
    → is_member "secrets:reveal" (scoped [] grants s) ≡ true
unfolding reveals
reveals-mem grants [] s h m = cc
reveals-mem grants (t ∷ ss) s h m = elim (Bool-cases (str_eq t s)) [
  | inl e ↦ rw (← (eq_iff t s).0 e) (ground (arith, h))
  | inr e ↦ reveals-mem grants ss s (ground (arith, h)) (ground (arith, m, e))
]

-- A membership that covers a scope: for the scope itself, or for every tenant.
abbrev pub Covers : AuthTables → ℕ → String → UserTenantMembership → Type 0
Covers d user_id s m = Held d user_id m × ((m.tenant_key ≡ s) ⊎ (m.tenant_key ≡ "*"))

Covers-of :
    (d : AuthTables) (user_id : ℕ) (k s : String) (m : UserTenantMembership)
    → ((k ≡ s) ⊎ (k ≡ "*"))
    → Held d user_id m
    → m.tenant_key ≡ k
    → Covers d user_id s m
Covers-of d user_id k s m (inl e) held same = (held, inl (same ∙ e))
Covers-of d user_id k s m (inr e) held same = (held, inr (same ∙ e))

module _ (before : String → String → Bool) (d : AuthTables) (user_id : ℕ) where
  -- The role that a scope is given is that of a membership that covers it.
  pub scope-role :
      (saved : List String) (s : String)
      → let rows = list_user_tenant_memberships before user_id d in
        is_member s (intersect saved (map key_of (roles_from [] rows))) ≡ true
        → (m : UserTenantMembership) × Covers d user_id s m
          × (m.role ≡ scoped "reader" (roles_from [] rows) s)
  scope-role saved s h =
      let rows = list_user_tenant_memberships before user_id d in
      let (k, near, found) =
        scoped-Entry "reader" (roles_from [] rows) s (intersect-mem saved _ s h).0 in
      elim (roles_from_origin (Held d user_id) rows [] k _
        (list_user_tenant_memberships-Held before user_id d) found) [
          | inl none_there ↦ absurd (lookup-nil k none_there)
          | inr (m, held, same, role) ↦ (m, Covers-of d user_id k s m near held same, role)
        ]

  -- Where the session may reveal secrets, each of its scopes is covered by a membership that
  -- grants it.
  pub scope-grant :
      (s : String)
      → is_member "secrets:reveal"
          (scoped [] (grants_from [] (list_user_tenant_memberships before user_id d)) s)
        ≡ true
      → (m : UserTenantMembership) × Covers d user_id s m
        × (is_member "secrets:reveal" m.capabilities ≡ true)
  scope-grant s granted =
      let rows = list_user_tenant_memberships before user_id d in
      let (k, near, found) = granted-Entry (grants_from [] rows) s granted in
      elim (grants_from_origin (Held d user_id) rows [] k _
        (list_user_tenant_memberships-Held before user_id d) found) [
          | inl none_there ↦ absurd (lookup-nil k none_there)
          | inr (m, held, same, capabilities) ↦
              (m, Covers-of d user_id k s m near held same, rw capabilities granted)
        ]
