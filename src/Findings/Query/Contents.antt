-- ===== src/Findings/Query/Contents.antt =====
-- Which findings `Storage.list_findings` of src/orgscan/repositories.py lists, and in which order.
use github_osint_secret_scan.Prelude.{
  ℕ, ◌≤◌, String, str_eq, eq_iff, ◌≡◌, ◌≢◌, ◌↔◌, inl, inr, refl, arith, Bool, true, ◌&&◌, Option,
  none, some, List, some_injective, is_member, ==_iff, Bool-cases,
}
use github_osint_secret_scan.Findings.Query.{
  Row, FindingQuery, text_filter, id_filter, at_least, at_most, matches, signal_filter,
}

-- A text that is asked for, and is not empty, is that of the column.
abbrev pub HasText : Option String → String → Type 0
HasText wanted column = (w : String) → wanted ≡ some w → w ≢ "" → column ≡ w

abbrev pub HasId : Option ℕ → Option ℕ → Type 0
HasId wanted column = (n : ℕ) → wanted ≡ some n → column ≡ some n

abbrev pub Above : Option ℕ → Option ℕ → Type 0
Above bound column = (b : ℕ) → bound ≡ some b → (n : ℕ) × (column ≡ some n) × (b ≤ n)

abbrev pub Below : Option ℕ → Option ℕ → Type 0
Below bound column = (b : ℕ) → bound ≡ some b → (n : ℕ) × (column ≡ some n) × (n ≤ b)

-- What a row needs to be listed: it is visible, and agrees with each filter that is set.
pub record Passes (visible : ℕ → Bool) (q : FindingQuery) (r : Row) : Type 0 where
  pub seen : visible r.id ≡ true
  pub status : HasText q.status r.status
  pub lifecycle_state : HasText q.lifecycle_state r.lifecycle_state
  pub category : HasText q.category r.category
  pub severity : HasText q.severity r.severity
  pub confidence : HasText q.confidence r.confidence
  pub source_tool : HasText q.source_tool r.source_tool
  pub triage_state : HasText q.triage_state r.triage_state
  pub organization_id : HasId q.organization_id r.organization_id
  pub domain_id : HasId q.domain_id r.domain_id
  pub repository_id : HasId q.repository_id r.repository_id
  pub account_id : HasId q.account_id r.account_id
  pub scan_job_id : HasId q.scan_job_id r.scan_job_id
  pub risk_score_min : Above q.risk_score_min r.risk_score
  pub risk_score_max : Below q.risk_score_max r.risk_score
  pub detected_after : (b : ℕ) → q.detected_after ≡ some b → b ≤ r.detected_at
  pub detected_before : (b : ℕ) → q.detected_before ≡ some b → r.detected_at ≤ b

-- If a high signal is asked for, the row has an allowed confidence and is not suppressed.
abbrev pub HasSignal : Option (List String) → Row → Type 0
HasSignal high_signal r =
    (allowed : List String)
    → high_signal ≡ some allowed
    → (is_member r.confidence allowed ≡ true) × (r.status ≢ "suppressed")

text_filter_iff : (w : Option String) (c : String) → (text_filter w c ≡ true) ↔ HasText w c
text_filter_iff none c = (λ _ w e. cc e, λ _. refl)
text_filter_iff (some w) c = (
  λ h v e full. ground (arith, h, eq_iff w "", eq_iff c w, some_injective e, full),
  λ h. elim (Bool-cases (str_eq w "")) [
    | inl e ↦ ground (arith, e)
    | inr e ↦
        let same = h w refl (λ blank. cc (e, (eq_iff w "").1 blank)) in
        ground (arith, (eq_iff c w).1 same)
  ],
)

id_filter_iff : (w c : Option ℕ) → (id_filter w c ≡ true) ↔ HasId w c
id_filter_iff none c = (λ _ n e. cc e, λ _. refl)
id_filter_iff (some w) none = (λ h n e. cc h, λ h. cc (h w refl))
id_filter_iff (some w) (some c) =
    (λ h n e. ground (arith, h, e), λ h. (==_iff c w).1 (some_injective (h w refl)))

at_least_iff : (w c : Option ℕ) → (at_least w c ≡ true) ↔ Above w c
at_least_iff none c = (λ _ n e. cc e, λ _. refl)
at_least_iff (some w) none = (λ h n e. cc h, λ h. cc ((h w refl).1))
at_least_iff (some w) (some c) = (
  λ h n e. (c, refl, ground (arith, h, e)),
  λ h. let (n, same, le) = h w refl in ground (arith, same, le),
)

at_most_iff : (w c : Option ℕ) → (at_most w c ≡ true) ↔ Below w c
at_most_iff none c = (λ _ n e. cc e, λ _. refl)
at_most_iff (some w) none = (λ h n e. cc h, λ h. cc ((h w refl).1))
at_most_iff (some w) (some c) = (
  λ h n e. (c, refl, ground (arith, h, e)),
  λ h. let (n, same, le) = h w refl in ground (arith, same, le),
)

pub signal_filter_iff :
    (s : Option (List String)) (r : Row) → (signal_filter s r ≡ true) ↔ HasSignal s r
signal_filter_iff none r = (λ _ a e. cc e, λ _. refl)
signal_filter_iff (some allowed) r = (
  λ h a e.
      rw (← some_injective e)
        (ground (arith, h), λ gone. ground (arith, h, (eq_iff r.status "suppressed").1 gone)),
  λ h. elim (Bool-cases (str_eq r.status "suppressed")) [
    | inl gone ↦ absurd ((h allowed refl).1 ((eq_iff r.status "suppressed").0 gone))
    | inr kept ↦ ground (arith, kept, (h allowed refl).0)
  ],
)

and_nine :
    (x b1 b2 b3 b4 b5 b6 b7 b8 b9 : Bool)
    → (x && b1 && b2 && b3 && b4 && b5 && b6 && b7 && b8 && b9) ≡ true
    → (x ≡ true)
      × (b1 ≡ true)
      × (b2 ≡ true)
      × (b3 ≡ true)
      × (b4 ≡ true)
      × (b5 ≡ true)
      × (b6 ≡ true)
      × (b7 ≡ true)
      × (b8 ≡ true)
      × (b9 ≡ true)
and_nine x b1 b2 b3 b4 b5 b6 b7 b8 b9 h = (
  ground (arith, h),
  ground (arith, h),
  ground (arith, h),
  ground (arith, h),
  ground (arith, h),
  ground (arith, h),
  ground (arith, h),
  ground (arith, h),
  ground (arith, h),
  ground (arith, h),
)

abbrev Texts : (ℕ → Bool) → FindingQuery → Row → Type 0
Texts visible q r =
    (visible r.id ≡ true)
    × (text_filter q.status r.status ≡ true)
    × (text_filter q.lifecycle_state r.lifecycle_state ≡ true)
    × (text_filter q.category r.category ≡ true)
    × (text_filter q.severity r.severity ≡ true)
    × (text_filter q.confidence r.confidence ≡ true)
    × (text_filter q.source_tool r.source_tool ≡ true)
    × (text_filter q.triage_state r.triage_state ≡ true)

filters_of_query :
    (visible : ℕ → Bool) (q : FindingQuery) (r : Row)
    → (visible r.id
        && text_filter q.status r.status
        && text_filter q.lifecycle_state r.lifecycle_state
        && text_filter q.category r.category
        && text_filter q.severity r.severity
        && text_filter q.confidence r.confidence
        && text_filter q.source_tool r.source_tool
        && text_filter q.triage_state r.triage_state)
      ≡ true
    → Texts visible q r
filters_of_query visible q r h =
    let (seen, a, b, c, d, e, f, g, _, _) =
      and_nine (visible r.id) (text_filter q.status r.status)
        (text_filter q.lifecycle_state r.lifecycle_state) (text_filter q.category r.category)
        (text_filter q.severity r.severity) (text_filter q.confidence r.confidence)
        (text_filter q.source_tool r.source_tool) (text_filter q.triage_state r.triage_state) true
        true (rw h refl) in
    (seen, a, b, c, d, e, f, g)

pub matches-Passes :
    (visible : ℕ → Bool) (q : FindingQuery) (r : Row)
    → matches visible q r ≡ true
    → Passes visible q r
unfolding matches
matches-Passes visible q r h =
    let (first, organization, domain, repository, account, job, least, most, after, before) =
      and_nine
        (visible r.id
          && text_filter q.status r.status
          && text_filter q.lifecycle_state r.lifecycle_state
          && text_filter q.category r.category
          && text_filter q.severity r.severity
          && text_filter q.confidence r.confidence
          && text_filter q.source_tool r.source_tool
          && text_filter q.triage_state r.triage_state)
        (id_filter q.organization_id r.organization_id) (id_filter q.domain_id r.domain_id)
        (id_filter q.repository_id r.repository_id) (id_filter q.account_id r.account_id)
        (id_filter q.scan_job_id r.scan_job_id) (at_least q.risk_score_min r.risk_score)
        (at_most q.risk_score_max r.risk_score) (at_least q.detected_after (some r.detected_at))
        (at_most q.detected_before (some r.detected_at)) h in
    let texts : Texts visible q r = filters_of_query visible q r first in
    record {
      seen = texts.0;
      status = (text_filter_iff q.status r.status).0 texts.1;
      lifecycle_state = (text_filter_iff q.lifecycle_state r.lifecycle_state).0 texts.2;
      category = (text_filter_iff q.category r.category).0 texts.3;
      severity = (text_filter_iff q.severity r.severity).0 texts.4;
      confidence = (text_filter_iff q.confidence r.confidence).0 texts.5;
      source_tool = (text_filter_iff q.source_tool r.source_tool).0 texts.6;
      triage_state = (text_filter_iff q.triage_state r.triage_state).0 texts.7;
      organization_id = (id_filter_iff q.organization_id r.organization_id).0 organization;
      domain_id = (id_filter_iff q.domain_id r.domain_id).0 domain;
      repository_id = (id_filter_iff q.repository_id r.repository_id).0 repository;
      account_id = (id_filter_iff q.account_id r.account_id).0 account;
      scan_job_id = (id_filter_iff q.scan_job_id r.scan_job_id).0 job;
      risk_score_min = (at_least_iff q.risk_score_min r.risk_score).0 least;
      risk_score_max = (at_most_iff q.risk_score_max r.risk_score).0 most;
      detected_after = λ b e.
          let (n, same, le) = (at_least_iff q.detected_after (some r.detected_at)).0 after b e in
          ground (arith, same, le);
      detected_before = λ b e.
          let (n, same, le) = (at_most_iff q.detected_before (some r.detected_at)).0 before b e in
          ground (arith, same, le);
    }

pub Passes-matches :
    (visible : ℕ → Bool) (q : FindingQuery) (r : Row)
    → Passes visible q r
    → matches visible q r ≡ true
unfolding matches
Passes-matches visible q r p =
    rw
      (
        p.seen,
        (text_filter_iff q.status r.status).1 p.status,
        (text_filter_iff q.lifecycle_state r.lifecycle_state).1 p.lifecycle_state,
        (text_filter_iff q.category r.category).1 p.category,
        (text_filter_iff q.severity r.severity).1 p.severity,
        (text_filter_iff q.confidence r.confidence).1 p.confidence,
        (text_filter_iff q.source_tool r.source_tool).1 p.source_tool,
        (text_filter_iff q.triage_state r.triage_state).1 p.triage_state,
        (id_filter_iff q.organization_id r.organization_id).1 p.organization_id,
        (id_filter_iff q.domain_id r.domain_id).1 p.domain_id,
        (id_filter_iff q.repository_id r.repository_id).1 p.repository_id,
        (id_filter_iff q.account_id r.account_id).1 p.account_id,
        (id_filter_iff q.scan_job_id r.scan_job_id).1 p.scan_job_id,
        (at_least_iff q.risk_score_min r.risk_score).1 p.risk_score_min,
        (at_most_iff q.risk_score_max r.risk_score).1 p.risk_score_max,
        (at_least_iff q.detected_after (some r.detected_at)).1
            (λ b e. (r.detected_at, refl, p.detected_after b e)),
        (at_most_iff q.detected_before (some r.detected_at)).1
            (λ b e. (r.detected_at, refl, p.detected_before b e)),
      )
      refl
