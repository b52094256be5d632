-- ===== src/Examples/Visibility.antt =====
-- A request of a browser, and two tenants of which one is in the scope.
use mathlib.Core.List.{Memᴰ}
use github_osint_secret_scan.Prelude.{
  ℕ, String, true, false, Option, none, some, [], ◌∷◌, arith, ◌≡◌, refl,
}
use github_osint_secret_scan.Prelude.Table.{set_row}
use github_osint_secret_scan.Prelude.Sort.{sort_by}
use github_osint_secret_scan.Access.Middleware.{Request, served, respond, part}
use github_osint_secret_scan.Access.Middleware.Admission.{
  Identified, Entitled, Guarded, respond-IsAdmitted,
}
use github_osint_secret_scan.Access.Visibility.{
  Finding, ScanJob, Assets, Scope, sees_repository, finding_scope, visible_job,
}
use github_osint_secret_scan.Access.Visibility.Grounds.{InScope, Ground}
use github_osint_secret_scan.Access.Visibility.Jobs.{IsWider, visible_job-IsSound, visible_job_mono}
use github_osint_secret_scan.Examples.Access.{digest, unordered, tables, from_browser}

-- A form that is posted with its token.
abbrev posted : Request
posted = record {
  scope_type = "http";
  scope_path = "/findings";
  url_path = "/findings";
  method = "POST";
  scheme = "https";
  netloc = "scan";
  token_header = none;
  authorization = none;
  origin = some "https://scan";
  csrf_header = none;
  content_type = some "multipart/form-data";
  session_cookie = some "browser";
  csrf_cookie = some "c";
  messages = part 100 true ∷ part 20 false ∷ [];
  form_token = some "c";
}

posted_served :
    (respond digest digest digest [] unordered true 50 true posted tables).0
    ≡ served from_browser (some "c")
unfolding respond sort_by set_row
posted_served = refl

respond-IsAdmitted_example :
    Identified digest digest digest [] unordered true 50 tables posted from_browser
    × Entitled digest digest digest [] unordered true posted from_browser
    × Guarded digest digest digest [] unordered true
        (respond digest digest digest [] unordered true 50 true posted tables).1
        posted
respond-IsAdmitted_example =
    respond-IsAdmitted digest digest digest [] unordered true 50 true posted tables from_browser
      (some "c") posted_served

abbrev acme_finding : Finding
acme_finding = record {
  organization_id = some 1;
  repository_id = some 1;
  domain_id = none;
  account_id = none;
  scan_job_id = some 1;
}

abbrev acme_job : ScanJob
acme_job = record {
  target_type = "repository";
  target_id = "1";
  plan_organization_id = some 1;
  plan_repository_id = none;
}

abbrev assets : Assets
assets = record {
  organizations =
      (1, record { tenant_key = some "acme" }) ∷ (2, record { tenant_key = some "other" }) ∷ [];
  repositories = (1, record { organization_id = some 1 }) ∷ [];
  domains = [];
  accounts = [];
  recon_assets = [];
  findings = (1, acme_finding) ∷ [];
  scan_jobs = (1, acme_job) ∷ [];
}

abbrev acme : Scope
acme = some "acme" ∷ []

abbrev acme_and_other : Scope
acme_and_other = some "acme" ∷ some "other" ∷ []

abbrev show_one : ℕ → String
show_one i = "1"

job_visible : visible_job show_one acme assets 1 acme_job ≡ true
unfolding visible_job
job_visible = refl

visible_job-IsSound_example :
    Ground show_one acme assets 1 acme_job
    × ((k : ℕ) (f : Finding)
        → Memᴰ (k, f) assets.findings
        → f.scan_job_id ≡ some 1
        → (finding_scope show_one acme assets f ≡ true)
          × ((o : ℕ) → f.organization_id ≡ some o → InScope show_one acme assets o))
    × ((o : ℕ) → acme_job.plan_organization_id ≡ some o → InScope show_one acme assets o)
    × ((r : ℕ)
        → acme_job.plan_repository_id ≡ some r
        → sees_repository show_one acme assets (some r) ≡ true)
visible_job-IsSound_example = visible_job-IsSound show_one acme assets 1 acme_job job_visible

wider : IsWider acme acme_and_other
wider = record { has_keys = λ k h. ground (arith, h); has_unset = λ h. h }

visible_job_mono_example :
    ((f : Finding)
      → finding_scope show_one acme assets f ≡ true
      → finding_scope show_one acme_and_other assets f ≡ true)
    × ((i : ℕ) (j : ScanJob)
        → visible_job show_one acme assets i j ≡ true
        → visible_job show_one acme_and_other assets i j ≡ true)
visible_job_mono_example = visible_job_mono show_one acme acme_and_other assets wider

abbrev no_digits : String → Option ℕ
no_digits s = none
