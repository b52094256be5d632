-- ===== src/Access/Tokens/Grants.antt =====
-- What a grant has passed, and the lemmas on its dictionary of memberships.
use mathlib.Core.Path.{subst}
use mathlib.Core.List.{Memᴰ, ◌++◌}
use github_osint_secret_scan.Prelude.{
  ℕ, String, is_member, is_empty, Bool, true, false, Option, none, some, List, [], ◌∷◌, keep, map,
  or_default, arith, ◌≡◌, ◌≤◌, refl, ap, sym, ◌∙◌, some_injective, All, Bool-cases, Option-cases,
  inl, inr,
}
use github_osint_secret_scan.Prelude.Dict.{Dict, insert}
use github_osint_secret_scan.Prelude.Table.{Table}
use github_osint_secret_scan.Prelude.Result.{ok, ok_injective}
use github_osint_secret_scan.Access.Context.{level, is_role}
use github_osint_secret_scan.Access.Storage.{UserTenantMembership, find_row, row_of}
use github_osint_secret_scan.Access.Sessions.{
  intersect, capped_role, lower_role, scoped, key_of, roles_from,
}
use github_osint_secret_scan.Access.Sessions.Scopes.{capped_role-le}
use github_osint_secret_scan.Access.Tokens.{
  role_map, unassigned, role_cap, wanted_role, grant_error, session_grant,
}

module _ {A : Type 0} where
  pub find_row-mem :
      (p : A → Bool) (t : Table A) (i : ℕ) (a : A)
      → find_row p t ≡ some (i, a)
      → Memᴰ (i, a) t × (p a ≡ true)
  unfolding find_row
  find_row-mem p [] i a h = cc
  find_row-mem p ((j, b) ∷ t) i a h = elim (Bool-cases (p b)) [
    | inl e ↦
        let same : (j, b) ≡ (i, a) = some_injective (rw e at h) in
        (Memᴰ.head (sym same), ap (λ (r : ℕ × A). p (row_of r)) (sym same) ∙ e)
    | inr e ↦ let (m, pa) = find_row-mem p t i a (rw e at h) in (Memᴰ.tail m, pa)
  ]

  pub find_row-append :
      (p : A → Bool) (t : Table A) (i : ℕ) (a : A)
      → find_row p t ≡ none
      → p a ≡ true
      → find_row p (t ++ (i, a) ∷ []) ≡ some (i, a)
  unfolding find_row
  find_row-append p [] i a h pa = rw pa
  find_row-append p ((j, b) ∷ t) i a h pa = ground (arith, find_row-append p t i a, h, pa)

-- A role that is at most each of the others is the least.
pub capped_role_least :
    (role : String) (roles : List String)
    → All (λ r. level role ≤ level r) roles
    → capped_role role roles ≡ role
unfolding capped_role lower_role
capped_role_least role [] a = refl
capped_role_least role (r ∷ roles) a =
    let same : lower_role role r ≡ role = ground (arith, a.0) in
    rw same (capped_role_least role roles a.1)

-- With valid roles only, the dictionary of a session's resolution is that of its creation.
pub roles_from-eq :
    (d : Dict String) (rows : List UserTenantMembership)
    → All (λ m. is_role m.role ≡ true) rows
    → roles_from d rows ≡ role_map d rows
unfolding roles_from role_map
roles_from-eq d [] a = refl
roles_from-eq d (m ∷ rows) a = rw a.0 (roles_from-eq (insert m.tenant_key m.role d) rows a.1)

keep-All : (p : String → Bool) (ss : List String) → All (λ s. p s ≡ true) ss → keep p ss ≡ ss
unfolding keep
keep-All p [] a = refl
keep-All p (s ∷ ss) a = rw (a.0, keep-All p ss a.1)

assigned-All :
    (memberships : Dict String) (ss : List String)
    → is_member "*" (map key_of memberships) ≡ false
    → unassigned memberships ss ≡ false
    → All (λ s. is_member s (map key_of memberships) ≡ true) ss
assigned-All memberships [] e u = tt
assigned-All memberships (s ∷ ss) e u =
    (ground (arith, e, u), assigned-All memberships ss e (ground (arith, e, u)))

pub intersect_assigned :
    (memberships : Dict String) (ss : List String)
    → is_member "*" ss ≡ false
    → unassigned memberships ss ≡ false
    → intersect ss (map key_of memberships) ≡ ss
unfolding intersect
intersect_assigned memberships ss h u = elim (Bool-cases (is_member "*" (map key_of memberships))) [
  | inl e ↦ rw (h, e)
  | inr e ↦ rw (h, e) (keep-All _ ss (assigned-All memberships ss e u))
]

-- The cap is at most the role of each tenant that it was taken over.
pub role_cap-le :
    (memberships : Dict String) (ss : List String)
    → All (λ r. level (role_cap memberships ss) ≤ level r) (map (scoped "reader" memberships) ss)
unfolding role_cap
role_cap-le memberships [] = tt
role_cap-le memberships (s ∷ ss) =
    capped_role-le (scoped "reader" memberships s) (map (scoped "reader" memberships) ss)

-- The tests that a grant has passed.
pub record IsGranted (memberships : Dict String) (tenants : List String) (role : String)
    : Type 0 where
  pub some_tenant : is_empty tenants ≡ false
  pub assigned : unassigned memberships tenants ≡ false
  pub capped : level role ≤ level (role_cap memberships tenants)
  pub valid : is_role role ≡ true

grant_error-IsGranted :
    (memberships : Dict String) (tenants : List String) (role : String)
    → grant_error memberships tenants role ≡ none
    → IsGranted memberships tenants role
unfolding grant_error
grant_error-IsGranted memberships tenants role h = record {
  some_tenant = ground (arith, h);
  assigned = ground (arith, h);
  capped = ground (arith, h);
  valid = ground (arith, h);
}

pub session_grant-IsGranted :
    (memberships : Dict String) (role : Option String) (tenants : Option (List String))
    (resolved : List String) (granted : String)
    → session_grant memberships role tenants ≡ ok (resolved, granted)
    → IsGranted memberships resolved granted
unfolding session_grant
session_grant-IsGranted memberships role tenants resolved granted h =
    let asked = or_default tenants (map key_of memberships) in
    let given = wanted_role role (role_cap memberships asked) in
    elim (Option-cases (grant_error memberships asked given)) [
      | inr (error, e) ↦ cc (rw (e, session_grant) at h)
      | inl e ↦
          let same : (asked, given) ≡ (resolved, granted) =
            ok_injective (rw (e, session_grant) at h) in
          subst (λ (g : List String × String). IsGranted memberships g.0 g.1) same
            (grant_error-IsGranted memberships asked given e)
    ]

All-map {ℓ} :
    (Q : String → Type ℓ) (f : String → String) (ss : List String)
    → All (λ s. Q (f s)) ss
    → All Q (map f ss)
All-map Q f [] a = tt
All-map Q f (s ∷ ss) a = (a.0, All-map Q f ss a.1)

pub All-le_trans :
    {n k : ℕ} (roles : List String)
    → k ≤ n
    → All (λ r. n ≤ level r) roles
    → All (λ r. k ≤ level r) roles
All-le_trans [] h a = tt
All-le_trans (r ∷ roles) h a = (omega (arith, h, a.0), All-le_trans roles h a.1)
