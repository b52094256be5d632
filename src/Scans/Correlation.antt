-- ===== src/Scans/Correlation.antt =====
-- src/orgscan/services/correlation.py: which matches are one finding, and which are one observation.
-- A digest is taken of a dictionary, here of a value with its entries; the digest and the
-- resolution of a path are arguments; a digest is any value. Metadata keeps its text entries.
pub mod Same
use Prim.Native.Char.{code}
use Prim.Native.String.{[] as []ˢ, ◌∷◌ as ◌∷ˢ◌}
use github_osint_secret_scan.Prelude.{
  ℕ, ◌+◌, String, str_eq, has_text, is_none, Bool, true, false, not, ◌&&◌, ◌||◌, Option, none, some,
  List, [], ◌∷◌, if◌then◌else◌, leb, ◌==◌, or_default,
}
use github_osint_secret_scan.Prelude.Dict.{Dict, lookup}

-- `ScanMatch` of src/orgscan/scanners/base.py, with the fields that the runner reads.
pub record ScanMatch : Type 0 where
  pub path : String
  pub line_start : ℕ
  pub line_end : ℕ
  pub category : String
  pub title : String
  pub description : String
  pub severity : String
  pub confidence : String
  pub indicator : String
  pub snippet : String
  pub remediation_hint : Option String
  pub raw_payload : Dict String
  pub metadata : Dict String

-- The dictionaries that `finding_identity` digests.
pub data Identity : Type 0 where
  of_secret : Option ℕ → Option ℕ → String → Option String → Identity
  of_match :
      Option ℕ
      → Option ℕ
      → String
      → String
      → String
      → String
      → Option String
      → Option ℕ
      → String
      → Option String
      → Identity

-- The dictionary that `evidence_identity` digests.
pub record Observed : Type 0 where
  pub finding : ℕ
  pub scanner : String
  pub detector : String
  pub path : String
  pub commit : Option String
  pub ref : Option String
  pub change_type : Option String

abbrev is_hex : ℕ → Bool
is_hex c = leb 48 c && leb c 57 || leb 97 c && leb c 102

-- The length of a text of hexadecimal digits.
unfoldable pub hex_length : String → Option ℕ
hex_length []ˢ = some 0
hex_length (c ∷ˢ s) = elim (hex_length s) [
  | none ↦ none
  | some n ↦ if is_hex (code c) then some (n + 1) else none
]

-- re.fullmatch("[0-9a-f]{64}", value)
unfoldable pub is_digest : String → Bool
unfolding hex_length
is_digest value = elim (hex_length value) [ none ↦ false | some n ↦ n == 64 ]

-- next((metadata[key] for key in keys if metadata.get(key)), default)
unfoldable pub first_text : Dict String → String → List String → String
unfolding lookup
first_text metadata default [] = default
first_text metadata default (k ∷ keys) =
    let rest = first_text metadata default keys in
    if has_text (lookup k metadata) then or_default (lookup k metadata) default else rest

unfoldable pub detector_id : ScanMatch → String
unfolding first_text
detector_id m =
    first_text m.metadata m.title
      ("rule_id" ∷ "rule" ∷ "pattern" ∷ "check_id" ∷ "detector" ∷ "type" ∷ [])

-- The match is of a secret whose digest is known.
unfoldable pub has_secret_digest : ScanMatch → Bool
unfolding is_digest lookup
has_secret_digest m =
    str_eq m.category "secret"
    && elim (lookup "secret_digest" m.metadata) [ none ↦ false | some v ↦ is_digest v ]

module _ {D : Type 0} (resolved : String → String) (digest : Identity → D) where
  unfoldable pub finding_identity : Option ℕ → Option ℕ → String → ScanMatch → D
  unfolding has_secret_digest detector_id
  finding_identity organization_id repository_id scanner m =
      if has_secret_digest m
      then digest (
          of_secret organization_id repository_id
            (or_default (lookup "secret_digest" m.metadata) "")
            (if is_none repository_id then some (resolved m.path) else none))
      else (let identity = lookup "observation_digest" m.metadata in
          digest (
            of_match organization_id repository_id m.category scanner (detector_id m) m.path
              identity (if has_text identity then none else some m.line_start) m.title
              (if has_text identity then none else some m.indicator)))

-- `a or b`
abbrev or_else : Option String → Option String → Option String
or_else a b = if has_text a then a else b

unfoldable pub evidence_identity : (Observed → String) → ℕ → String → ScanMatch → String
unfolding detector_id lookup
evidence_identity digest finding_id scanner m = digest (record {
  finding = finding_id;
  scanner = scanner;
  detector = detector_id m;
  path = m.path;
  commit = or_else (lookup "commit_sha" m.metadata) (lookup "commit" m.raw_payload);
  ref = lookup "ref_name" m.metadata;
  change_type = lookup "change_type" m.metadata;
})
