-- ===== src/Tests/Queues.antt =====
-- The queue of jobs.
use token_loom.Prelude.{◌≡◌, refl, false, none, some, List, [], ◌∷◌, codes}
use token_loom.Records.{Job, queued, completed}
use token_loom.Jobs.Queue.{claim_job}
use token_loom.Jobs.Queue.Claims.{IsClaim, claim_job-IsClaim}
use token_loom.Tests.Samples.{job_of}

abbrev waiting : Job
waiting = job_of (codes "a") queued 40 5 false none

abbrev jobs : List Job
jobs =
    waiting
    ∷ job_of (codes "b") completed 100 1 false (some 3)
    ∷ job_of (codes "c") queued 100 7 false none
    ∷ job_of (codes "d") queued 100 9 false none
    ∷ []

claims_c : (claim_job 20 jobs).job_id ≡ some (codes "c")
unfolding claim_job token_loom.Jobs.Queue.claim_found token_loom.Jobs.Queue.next_queued
    token_loom.Jobs.Queue.is_queued token_loom.Jobs.Queue.first_of_two
claims_c = refl

claim_job-IsClaim_example : (j : Job) × IsClaim 20 jobs (claim_job 20 jobs) (codes "c") j
claim_job-IsClaim_example = claim_job-IsClaim 20 jobs claims_c
