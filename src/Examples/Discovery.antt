-- ===== src/Examples/Discovery.antt =====
-- A discovery whose provider fails.
use github_osint_secret_scan.Prelude.{some}
use github_osint_secret_scan.Jobs.Policy.{transient}
use github_osint_secret_scan.Discovery.{outcome, execute_domain_plan}
use github_osint_secret_scan.Discovery.Ends.{IsEnded, execute_domain_plan-IsEnded}

execute_domain_plan-IsEnded_example :
    IsEnded 1000 2000 (execute_domain_plan 1000 2000 (outcome (some transient)))
execute_domain_plan-IsEnded_example =
    execute_domain_plan-IsEnded 1000 2000 (outcome (some transient))
