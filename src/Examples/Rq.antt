-- ===== src/Examples/Rq.antt =====
-- An RQ job that is delivered twice, and the end of its publication.
use github_osint_secret_scan.Prelude.{ℕ, ◌≢◌, ◌⊎◌, ◌≡◌, refl, true, false, some, [], ◌∷◌}
use github_osint_secret_scan.Prelude.Table.{get, update_where}
use github_osint_secret_scan.Jobs.Model.{rq, queued, QueueTask, ScheduledScan, Database}
use github_osint_secret_scan.Jobs.Worker.{Scan, ok}
use github_osint_secret_scan.Jobs.Rq.{rq_claimable, rq_claim, end_publication}
use github_osint_secret_scan.Jobs.Rq.Handler.{rq_claim-exclusive, published, end_publication-Ended}
use github_osint_secret_scan.Examples.Queue.{
  settings, classify, schedule, queued_task, running_task,
}

abbrev waiting : QueueTask
waiting = record queued_task { backend = rq }

abbrev started : QueueTask
started = record running_task { backend = rq; lease_owner = some "k" }

abbrev held : ScheduledScan
held = record schedule { queue_execution_key = some "k" }

abbrev with_task : QueueTask → Database
with_task t = record { tasks = (1, t) ∷ []; schedules = (7, held) ∷ [] }

abbrev no_scan : Scan
no_scan i d = (d, ok [])

rq_claim-exclusive_example :
    (rq_claim classify settings no_scan 7
      (some 1)
      6000000
      "k2"
      1
      (rq_claim classify settings no_scan 7 (some 1) 5000000 "k" 1 (with_task waiting)).0).1
    ≡ false
unfolding rq_claim rq_claimable update_where get
rq_claim-exclusive_example =
    rq_claim-exclusive classify settings no_scan 7 (some 1) 5000000 "k" "k2" 1 6000000
      (with_task waiting) refl

end_publication-Ended_example :
    ((started.status ≡ queued)
      × (started.lease_owner ≡ some "publish-1")
      × (get 1 (end_publication "publish-1" true 1 (with_task started)).tasks
          ≡ some (published true started))
      × ((j : ℕ)
          → 1 ≢ j
          → get j (end_publication "publish-1" true 1 (with_task started)).tasks
            ≡ get j (with_task started).tasks)
      × ((end_publication "publish-1" true 1 (with_task started)).schedules
          ≡ (with_task started).schedules))
    ⊎ ((started.status ≡ queued → started.lease_owner ≢ some "publish-1")
        × (end_publication "publish-1" true 1 (with_task started) ≡ with_task started))
unfolding get
end_publication-Ended_example =
    end_publication-Ended "publish-1" true 1 (with_task started) started refl
