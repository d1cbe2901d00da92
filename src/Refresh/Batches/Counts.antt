-- ===== src/Refresh/Batches/Counts.antt =====
-- How a batch of a refresh or health job of app/worker.py ends.
use token_loom.Prelude.{some, ℕ, ◌+◌, ◌≤◌, ◌<◌, ◌≡◌, ◌⊎◌, false, List, length, arith}
use token_loom.Jobs.Queue.{is_active}
use token_loom.Records.{Account, Job, queued}
use token_loom.Refresh.Batches.{finish_batch}

-- Behind a batch that is no larger than the batch size, the job is queued again, and then the batch
-- was full, accounts of its total are still to do and nobody asked to cancel it, or it has ended at
-- that instant.
finish_batch-outcome :
    (now batch_size success failures : ℕ) (accounts : List Account) (j : Job)
    → length accounts ≤ batch_size
    → let j' = finish_batch now batch_size accounts success failures j in
      ((j'.status ≡ queued)
        × (j'.processed < j.total)
        × (j'.processed ≡ j.processed + batch_size)
        × (j.cancel_requested ≡ false))
      ⊎ ((is_active j'.status ≡ false) × (j'.finished_at ≡ some now))
unfolding finish_batch is_active
finish_batch-outcome now batch_size success failures accounts j k = ground arith
