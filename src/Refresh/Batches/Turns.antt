-- ===== src/Refresh/Batches/Turns.antt =====
-- How often a job of accounts of app/worker.py is put back into the queue.
use token_loom.Prelude.{ℕ, suc, ◌+◌, ◌*◌, ◌≤◌, ◌<◌, ◌≡◌, refl, ◌∙◌, true, List, length, arith}
use token_loom.Records.{Account, Job}
use token_loom.Jobs.Queue.{is_queued}
use token_loom.Refresh.Batches.{finish_batch}

-- the numbers that a claim, a heartbeat, a recovery and a cancellation leave alone
abbrev pub SameCounts : Job → Job → Type 0
SameCounts j k = (k.total ≡ j.total) × (k.processed ≡ j.processed)

-- The job is queued again behind each of so many batches, whatever is written between them that
-- leaves its numbers alone.
pub data Requeued (size : ℕ) (j : Job) : ℕ → Job → Type 0 where
  none_yet : Requeued size j 0 j
  once_more :
      {n : ℕ} {k : Job}
      → Requeued size j n k
      → (k' : Job) → SameCounts k k'
      → (now : ℕ) (accounts : List Account) (success failures : ℕ)
      → is_queued (finish_batch now size accounts success failures k').status ≡ true
      → Requeued size j (suc n) (finish_batch now size accounts success failures k')

finish_batch-queued :
    (now size : ℕ) (accounts : List Account) (success failures : ℕ) (j : Job)
    → is_queued (finish_batch now size accounts success failures j).status ≡ true
    → (size ≤ length accounts)
      × (j.processed + length accounts < j.total)
      × ((finish_batch now size accounts success failures j).processed
          ≡ j.processed + length accounts)
      × ((finish_batch now size accounts success failures j).total ≡ j.total)
unfolding finish_batch is_queued
finish_batch-queued now size accounts success failures j q = ground (arith, q)

times_suc : (n size : ℕ) → suc n * size ≡ size + n * size
times_suc n size = omega arith

Requeued-counts :
    (size : ℕ) (j : Job) {n : ℕ} {k : Job}
    → Requeued size j n k
    → (n * size + j.processed ≤ k.processed) × (k.total ≡ j.total)
Requeued-counts size j none_yet = (omega arith, refl)
Requeued-counts size j (once_more {n} {k} r k' same now accounts success failures q) =
    let (full, left, done, whole) = finish_batch-queued now size accounts success failures k' q in
    let (before, total) = Requeued-counts size j r in
    (omega (arith, full, done, before, same.1, times_suc n size), whole ∙ same.0 ∙ total)

-- A job that is queued again behind each of n batches, n positive, had more accounts to do when it
-- began than n batches of the size take: with a positive size it is queued again less often than
-- there were accounts left of its total.
pub Requeued-lt :
    (size : ℕ) (j : Job) {n : ℕ} {k : Job}
    → Requeued size j (suc n) k
    → suc n * size + j.processed < j.total
Requeued-lt size j (once_more {n} {k} r k' same now accounts success failures q) =
    let (full, left, done, whole) = finish_batch-queued now size accounts success failures k' q in
    let (before, total) = Requeued-counts size j r in
    omega (arith, full, left, before, same.0, same.1, total, times_suc n size)
