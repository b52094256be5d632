-- ===== src/Jobs/Cadence.antt =====
-- `next_run_from_cadence` of src/orgscan/scheduler.py.
use github_osint_secret_scan.Prelude.{◌+◌, String, str_eq, if◌then◌else◌}
use github_osint_secret_scan.Jobs.Model.{Time, seconds}

unfoldable pub next_run_from_cadence : String → Time → Time
next_run_from_cadence cadence now =
    if str_eq cadence "hourly"
    then now + seconds 3600
    else if str_eq cadence "weekly"
    then now + seconds 604800
    else if str_eq cadence "manual"
    then now
    else now + seconds 86400
