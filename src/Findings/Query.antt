-- ===== src/Findings/Query.antt =====
-- The lists of findings: `Storage.list_findings` of src/orgscan/repositories.py, and the high-signal
-- window of src/orgscan/services/finding_service.py. A row has the columns that the filters read.
-- `visible` is the tenant scope of a row, which src/orgscan/storage/visibility.py decides.
pub mod Filters
pub mod Contents
pub mod Listing
use github_osint_secret_scan.Prelude.{
  is_member, ℕ, zero, suc, ◌*◌, max, String, str_eq, Bool, true, false, not, ◌&&◌, ◌||◌, Option,
  none, some, List, [], ◌∷◌, ltb, leb, ◌==◌, if◌then◌else◌, keep, take, or_default,
}
use github_osint_secret_scan.Prelude.Sort.{sort_by}
use github_osint_secret_scan.Prelude.Result.{Result, ok, raise, then_do}

pub record Row : Type 0 where
  pub id : ℕ
  pub status : String
  pub lifecycle_state : String
  pub category : String
  pub severity : String
  pub confidence : String
  pub source_tool : String
  pub triage_state : String
  pub organization_id : Option ℕ
  pub domain_id : Option ℕ
  pub repository_id : Option ℕ
  pub account_id : Option ℕ
  pub scan_job_id : Option ℕ
  pub risk_score : Option ℕ
  pub detected_at : ℕ

pub record FindingQuery : Type 0 where
  pub limit : Option ℕ
  pub status : Option String
  pub category : Option String
  pub severity : Option String
  pub confidence : Option String
  pub source_tool : Option String
  pub lifecycle_state : Option String
  pub triage_state : Option String
  pub organization_id : Option ℕ
  pub domain_id : Option ℕ
  pub repository_id : Option ℕ
  pub account_id : Option ℕ
  pub scan_job_id : Option ℕ
  pub risk_score_min : Option ℕ
  pub risk_score_max : Option ℕ
  pub detected_after : Option ℕ
  pub detected_before : Option ℕ

-- `if wanted: query.where(column == wanted)`
abbrev pub text_filter : Option String → String → Bool
text_filter none column = true
text_filter (some wanted) column = str_eq wanted "" || str_eq column wanted

-- `if wanted is not None: query.where(column == wanted)`; a NULL column matches nothing.
abbrev pub id_filter : Option ℕ → Option ℕ → Bool
id_filter none column = true
id_filter (some wanted) none = false
id_filter (some wanted) (some n) = n == wanted

abbrev pub at_least : Option ℕ → Option ℕ → Bool
at_least none column = true
at_least (some bound) none = false
at_least (some bound) (some n) = leb bound n

abbrev pub at_most : Option ℕ → Option ℕ → Bool
at_most none column = true
at_most (some bound) none = false
at_most (some bound) (some n) = leb n bound

-- CONFIDENCE_ORDER
abbrev confidence_order : List String
confidence_order = "unverified" ∷ "heuristic" ∷ "likely" ∷ "verified" ∷ []

pub data QueryError : Type 0 where
  unsupported_confidence : QueryError

-- CONFIDENCE_ORDER[CONFIDENCE_ORDER.index(min_confidence):]
unfoldable pub confidences_from : String → List String → Result QueryError (List String)
confidences_from least [] = raise unsupported_confidence
confidences_from least (c ∷ cs) =
    let rest = confidences_from least cs in if str_eq c least then ok (c ∷ cs) else rest

abbrev pub allowed_confidences : String → Result QueryError (List String)
allowed_confidences least = confidences_from least confidence_order

-- The WHERE clauses of the query.
unfoldable pub matches : (ℕ → Bool) → FindingQuery → Row → Bool
matches visible q row =
    visible row.id
    && text_filter q.status row.status
    && text_filter q.lifecycle_state row.lifecycle_state
    && text_filter q.category row.category
    && text_filter q.severity row.severity
    && text_filter q.confidence row.confidence
    && text_filter q.source_tool row.source_tool
    && text_filter q.triage_state row.triage_state
    && id_filter q.organization_id row.organization_id
    && id_filter q.domain_id row.domain_id
    && id_filter q.repository_id row.repository_id
    && id_filter q.account_id row.account_id
    && id_filter q.scan_job_id row.scan_job_id
    && at_least q.risk_score_min row.risk_score
    && at_most q.risk_score_max row.risk_score
    && at_least q.detected_after (some row.detected_at)
    && at_most q.detected_before (some row.detected_at)

-- ORDER BY detected_at DESC, id DESC
unfoldable pub newer : Row → Row → Bool
newer a b = ltb b.detected_at a.detected_at || a.detected_at == b.detected_at && ltb b.id a.id

abbrev pub limited : Option ℕ → List Row → List Row
limited none rows = rows
limited (some n) rows = take n rows

-- `high_signal` is the list of confidences that `high_signal_only` allows, if it is asked for.
abbrev pub is_high_signal : List String → Row → Bool
is_high_signal allowed row =
    is_member row.confidence allowed && not (str_eq row.status "suppressed")

abbrev pub signal_filter : Option (List String) → Row → Bool
signal_filter none row = true
signal_filter (some allowed) row = is_high_signal allowed row

unfoldable pub list_findings :
    (ℕ → Bool) → Option (List String) → FindingQuery → List Row → List Row
list_findings visible high_signal q rows =
    limited q.limit
      (sort_by newer (keep (λ row. matches visible q row && signal_filter high_signal row) rows))

-- `high_signal_findings`
unfoldable pub high_signal_findings : List String → ℕ → List Row → List Row
high_signal_findings allowed limit rows = take limit (keep (is_high_signal allowed) rows)

-- `FindingService.list_findings`, for the confidence that `high_signal_only` asks for, if it is set.
unfoldable pub service_list :
    Option String → ℕ → FindingQuery → List Row → Result QueryError (List Row)
service_list none limit q rows =
    ok (list_findings (λ i. true) none (record q { limit = some limit }) rows)
service_list (some least) limit q rows = then_do (allowed_confidences least) (λ allowed. ok (
    high_signal_findings allowed limit
      (list_findings (λ i. true) none (record q { limit = some (max (limit * 4) limit) }) rows)))
