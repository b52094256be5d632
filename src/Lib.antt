-- ===== src/Lib.antt =====
-- The durable parts of orgscan (src/orgscan), a scanner of an organization's repositories for
-- secrets: its job queue, its findings, its rate limit and its scan plans.
--
-- Jobs models the queue. A schedule that is due gets a durable task under a fresh key
-- (Jobs/Enqueue: `_reserve_due`, src/orgscan/queueing.py); a worker claims a task under a lease,
-- runs the scan, and commits a result, a retry, a failure or a cancellation (Jobs/Worker:
-- `_process_one_db_task`, `_execute_db_queue_task`, `run_db_schedule_batch`, `_run_db_worker`,
-- with `cancellation_scope` of src/orgscan/cancellation.py). Jobs/Storage has the operations of
-- `Storage` (src/orgscan/repositories.py) that they use, as functions on two tables; Jobs/Policy
-- the classification of failures and the retry bounds (src/orgscan/services/job_policy.py);
-- Jobs/Recovery the quarantine of expired leases (src/orgscan/services/job_recovery.py);
-- Jobs/Cancel the cancellation of a run (src/orgscan/services/assessments/jobs.py); Jobs/Cadence
-- the next run of a schedule (src/orgscan/scheduler.py); Jobs/Rq the handler of the RQ backend and
-- the conditional updates of its outbox (src/orgscan/queueing.py), and Jobs/Status what the queue
-- reports (src/orgscan/queueing.py, src/orgscan/repositories.py). Jobs/Invariant states what every
-- transaction keeps, and Jobs/Invariant/System interleaves the processes as steps on one database.
--
-- Findings models src/orgscan/lifecycle.py (Findings/Lifecycle) and the writes of findings in
-- src/orgscan/repositories.py: triage and suppression (Findings/Storage), observations
-- (Findings/Observe). Findings/History replays the rows of history, and Findings/System takes the
-- operations in any order; Findings/Query models the lists of findings (`list_findings`, and
-- src/orgscan/services/finding_service.py).
--
-- RateLimit models src/orgscan/rate_limit.py, and RateLimit/Spacing the processes that share a row.
-- Scans as they are requested (src/orgscan/services/scan_plan.py) and the decision what to scan
-- (src/orgscan/services/incremental.py) stand in Plan.antt and what it has below it.
-- Limits models bounded reads: src/orgscan/http_limits.py and src/orgscan/archive_limits.py.
-- Discovery models the rows of a domain discovery (src/orgscan/services/scan_service.py).
-- Access models who may do what. Access/Context has roles and contexts
-- (src/orgscan/security_context.py), Access/Storage the rows of users, memberships and sessions
-- (src/orgscan/repositories.py), Access/Sessions the resolution of a token, Access/Login the login,
-- the logout and the administration of users (src/orgscan/services/auth_service.py), Access/Tokens
-- the tokens of the environment and new sessions (src/orgscan/auth.py), Access/Middleware the
-- decision about a request (src/orgscan/api/authentication.py), and Access/Visibility what a tenant
-- scope sees and may write (src/orgscan/storage/visibility.py, src/orgscan/storage/authorization.py).
-- Access/System takes the calls of the service in any order.
-- Scans models the execution of a scan (src/orgscan/runner.py): Scans/Correlation the identities of
-- matches (src/orgscan/services/correlation.py), Scans/Evidence the rows of observations
-- (src/orgscan/repositories.py), Scans/Persist what the matches leave, in the findings of Findings
-- too, and Scans/Runner the two transactions around the scanner, with the marks of Discovery.
-- Domains models who owns a domain (src/orgscan/storage/domain_identity.py): its flush and creation
-- in Domains.antt, Domains/Lookup the search for one, and Domains/Organizations the tenant of an
-- organization (src/orgscan/repositories.py, src/orgscan/storage/safety.py).
-- Prelude has tables, dictionaries, sorting and tests that all of them share; Examples has concrete
-- inputs.
--
-- Numbers are natural numbers; a time counts microseconds, a risk score hundredths. A clock, a
-- fresh key, a digest, the IDNA codec, the scan, the scanner registry and the parsing of dates and floats are
-- arguments. The loop of `classify_failure` has one round of fuel more than there are exceptions,
-- which is enough since no exception is visited twice; the loop of a batch runs on the rounds that
-- its limit leaves, the worker's loop on a number of rounds that is given, and the loop of
-- `read_response` on two rounds more than its limit, since each round but the last adds a byte.
--
-- Not modelled: the RQ library and the loop of its publications, the redaction of stored texts, the
-- scanners, network access, the API, the command line and the web interface.
mod Prelude
mod Examples
pub mod Jobs
pub mod Findings
pub mod RateLimit
pub mod Plan
pub mod Limits
pub mod Discovery
pub mod Access
pub mod Scans
pub mod Domains
