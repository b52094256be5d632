-- ===== src/Scans/Correlation/Same.antt =====
-- Matches of one secret in one repository are one finding.
use github_osint_secret_scan.Prelude.{
  ℕ, String, is_none, true, Option, none, some, ◌≡◌, ◌↔◌, sym, ◌∙◌, or_default, if◌then◌else◌,
}
use github_osint_secret_scan.Prelude.Dict.{lookup}
use github_osint_secret_scan.Scans.Correlation.{
  ScanMatch, Identity, of_secret, has_secret_digest, finding_identity,
}

-- The digest of the secret that a match carries.
abbrev pub secret_of : ScanMatch → String
secret_of m = or_default (lookup "secret_digest" m.metadata) ""

module _ {D : Type 0} (resolved : String → String) (digest : Identity → D)
    (collision_free : (a b : Identity) → digest a ≡ digest b → a ≡ b) where
  identity-secret :
      (organization repository : Option ℕ) (scanner : String) (m : ScanMatch)
      → has_secret_digest m ≡ true
      → finding_identity resolved digest organization repository scanner m
        ≡ digest (
            of_secret organization repository
              (secret_of m)
              (if is_none repository then some (resolved m.path) else none))
  unfolding finding_identity
  identity-secret organization repository scanner m h = rw h

  -- If the digest has no collisions, two matches that carry the digests of secrets, in repositories,
  -- get one identity exactly if they name the same secret, repository and organization, whichever
  -- scanners found them, at whatever paths and lines.
  pub finding_identity-secret :
      (org org' : Option ℕ) (repository repository' : ℕ) (scanner scanner' : String)
      (m m' : ScanMatch)
      → has_secret_digest m ≡ true
      → has_secret_digest m' ≡ true
      → (finding_identity resolved digest org (some repository) scanner m
          ≡ finding_identity resolved digest org' (some repository') scanner' m')
        ↔ ((secret_of m ≡ secret_of m') × (repository ≡ repository') × (org ≡ org'))
  finding_identity-secret org org' repository repository' scanner scanner' m m' h h' =
      let first = identity-secret org (some repository) scanner m h in
      let second = identity-secret org' (some repository') scanner' m' h' in
      (
        λ e. let same = collision_free _ _ (sym first ∙ e ∙ second) in (cc same, cc same, cc same),
        λ (secret, place, owner). cc (first, second, secret, place, owner),
      )
