-- ===== src/Examples/Domains.antt =====
-- An organization whose domain is resolved twice.
use github_osint_secret_scan.Prelude.{◌≡◌, refl, true, none, some, [], ◌∷◌, keep}
use github_osint_secret_scan.Prelude.Result.{ok}
use github_osint_secret_scan.Prelude.Select.{same_text, find_row, any_row}
use github_osint_secret_scan.Prelude.Table.{get, fresh_id, add_row}
use github_osint_secret_scan.Domains.{
  Organization, Assets, create_domain, normalize_name, denied, owner_tenant, identity_of,
  prepare_domain, clashes,
}
use github_osint_secret_scan.Domains.Lookup.{
  resolve_domain, find_domain, check_unowned, lookup_owner, owner_filter, one_row,
}
use github_osint_secret_scan.Domains.Organizations.{create_organization}
use github_osint_secret_scan.Domains.Owned.{IsOwned}
use github_osint_secret_scan.Domains.Owned.System.{Reachable, Step, reachable-IsOwned}

abbrev acme : Organization
acme = record { name = "acme"; tenant_key = some "t" }

abbrev start : Assets
start = record { organizations = []; domains = []; identities = [] }

abbrev with_acme : Assets
with_acme = (create_organization acme start).1

abbrev resolved : Assets
resolved = record with_acme {
  domains =
      (
        1,
        record {
          name = "a.io";
          organization_id = some 1;
          tenant_key = some "t";
          identity_id = some 1;
        },
      )
      ∷ [];
  identities = (1, "a.io") ∷ [];
}

resolved_first :
    resolve_domain some none none [] "a.io" (some (some 1)) none none with_acme
    ≡ ok ((1, true), resolved)
unfolding resolve_domain create_organization create_domain find_domain check_unowned lookup_owner
    normalize_name owner_filter denied owner_tenant identity_of prepare_domain clashes one_row keep
    same_text find_row any_row get add_row fresh_id
resolved_first = refl

reachable-IsOwned_example : IsOwned resolved
unfolding get create_organization
reachable-IsOwned_example = reachable-IsOwned some (
    Reachable.next (Reachable.next Reachable.empty (Step.creates_organization acme start)) (
      Step.resolves none none [] "a.io" (some (some 1)) none none (1, true) tt (λ k n h. cc h)
        resolved_first))
