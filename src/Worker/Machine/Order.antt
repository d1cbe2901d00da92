-- ===== src/Worker/Machine/Order.antt =====
-- What holds of the table of jobs between any two events of app/worker.py and app/main.py.
use token_loom.Prelude.{
  ℕ, ◌≡◌, ◌≢◌, refl, sym, ap, ◌∙◌, true, false, Option, none, some, List, [], ◌∷◌, All, Text,
  text_eq, text_eq_iff, text_eq_refl, arith, inl, inr, Bool-cases, Option-cases, subst,
}
use token_loom.Records.{Job}
use token_loom.Jobs.Queue.{
  is_queued, is_running, find_job, update_job, recover_job, start_claimed, cancel_claimed,
}
use token_loom.Worker.Lifecycle.{IsConsistent, Step, claim, Step-IsConsistent}
use token_loom.Worker.Lifecycle as Lifecycle
use token_loom.Worker.Machine.{World, holder}
use token_loom.Worker.Machine.Rows.{
  IsDistinct, KeepsId, find_job-id, All-find_job, update_job-All_absent, update_job-All,
}

-- The times of the job agree with its status, and it runs exactly where the worker holds it.
pub record InOrder (held : Option Text) (j : Job) : Type 0 where
  pub consistent : IsConsistent j
  pub held_if_running : is_running j.status ≡ true → held ≡ some j.id
  pub running_if_held : held ≡ some j.id → is_running j.status ≡ true

pub record IsOrderly (w : World) : Type 0 where
  pub distinct : IsDistinct w.tables.jobs
  pub in_order : All (InOrder (holder w.phase)) w.tables.jobs

-- a job that the worker does not hold stays in order when the worker's hands change to others
other-InOrder :
    (held held' : Option Text) (id : Text) (k : Job)
    → ((t : Text) → text_eq t id ≡ false → held ≡ some t → held' ≡ some t)
    → ((t : Text) → text_eq t id ≡ false → held' ≡ some t → held ≡ some t)
    → InOrder held k
    → text_eq k.id id ≡ false
    → InOrder held' k
other-InOrder held held' id k there back h ne = record {
  consistent = h.consistent;
  held_if_running = λ r. there k.id ne (h.held_if_running r);
  running_if_held = λ e. h.running_if_held (back k.id ne e);
}

-- from a table whose worker holds that job, or holds none, to the other
pub drop-InOrder :
    (id : Text) (k : Job) → InOrder (some id) k → text_eq k.id id ≡ false → InOrder none k
drop-InOrder id k h ne =
    other-InOrder (some id) none id k
      (λ t n e. ground (arith, n, e, text_eq_refl id, text_eq_iff t id)) (λ t n e. cc) h ne

pub take-InOrder :
    (id : Text) (k : Job) → InOrder none k → text_eq k.id id ≡ false → InOrder (some id) k
take-InOrder id k h ne =
    other-InOrder none (some id) id k (λ t n e. cc)
      (λ t n e. ground (arith, n, e, text_eq_refl id, text_eq_iff t id)) h ne

-- A write that ends the turn of the held job: it runs no more.
pub record EndsTurn (f : Job → Job) : Type 0 where
  pub keeps_id : KeepsId f
  pub stops : (j : Job) → is_running (f j).status ≡ false
  pub steps : (j : Job) → is_running j.status ≡ true → Step j (f j)

pub release-InOrder :
    (id : Text) (f : Job → Job) (jobs : List Job)
    → EndsTurn f
    → IsDistinct jobs
    → All (InOrder (some id)) jobs
    → All (InOrder none) (update_job id f jobs)
release-InOrder id f jobs ends d h = elim (Option-cases (find_job id jobs)) [
  | inl absent ↦
      update_job-All_absent (InOrder (some id)) (InOrder none) id f jobs absent (drop-InOrder id) h
  | inr (j, found) ↦
      let row = All-find_job (InOrder (some id)) id jobs {j = j} h found in
      let runs =
        row.running_if_held (ap (λ (t : Text). some t) (sym (find_job-id id jobs {j = j} found))) in
      update_job-All (InOrder (some id)) (InOrder none) id f jobs j d found
        (record {
          consistent = Step-IsConsistent (ends.steps j runs) row.consistent;
          held_if_running = λ r. ground (arith, r, ends.stops j);
          running_if_held = λ e. cc;
        })
        (drop-InOrder id) h
]

pub update_job_self : (id : Text) (jobs : List Job) → update_job id (λ j. j) jobs ≡ jobs
unfolding update_job
update_job_self id [] = refl
update_job_self id (j ∷ jobs) = ground (arith, update_job_self id jobs)

-- the held job is not in the table
pub absent-InOrder :
    (id : Text) (jobs : List Job)
    → find_job id jobs ≡ none
    → All (InOrder (some id)) jobs
    → All (InOrder none) jobs
absent-InOrder id jobs absent h = subst (All (InOrder none)) (update_job_self id jobs) (
    update_job-All_absent (InOrder (some id)) (InOrder none) id (λ j. j) jobs absent
      (drop-InOrder id) h)

-- A write that leaves the status as it is, or as good as it is.
pub record KeepsStatus (f : Job → Job) : Type 0 where
  pub keeps_id : KeepsId f
  pub same : (j : Job) → is_running (f j).status ≡ is_running j.status
  pub steps : (j : Job) → Step j (f j)

keep-InOrder :
    (held : Option Text) (f : Job → Job) (j : Job)
    → KeepsStatus f
    → InOrder held j
    → InOrder held (f j)
keep-InOrder held f j k h = record {
  consistent = Step-IsConsistent (k.steps j) h.consistent;
  held_if_running = λ r. rw (k.keeps_id j) (h.held_if_running (sym (k.same j) ∙ r));
  running_if_held = λ e. k.same j ∙ h.running_if_held (rw (k.keeps_id j) at e);
}

pub keep-All :
    (held : Option Text) (id : Text) (f : Job → Job) (jobs : List Job)
    → KeepsStatus f
    → All (InOrder held) jobs
    → All (InOrder held) (update_job id f jobs)
unfolding update_job
keep-All held id f [] k h = tt
keep-All held id f (j ∷ jobs) k h = elim (Bool-cases (text_eq j.id id)) [
  | inl t ↦ rw t (keep-InOrder held f j k h.0, keep-All held id f jobs k h.1)
  | inr t ↦ rw t (h.0, keep-All held id f jobs k h.1)
]

pub recover-InOrder :
    (now : ℕ) (held : Option Text) (j : Job) → InOrder held j → InOrder none (recover_job now j)
recover-InOrder now held j h = record {
  consistent = Step-IsConsistent (Lifecycle.recover now j) h.consistent;
  held_if_running = λ r. unfold recover_job is_running in ground (arith, r);
  running_if_held = λ e. cc;
}

-- a job that has just been added waits
pub new-InOrder :
    (held : Option Text) (j : Job)
    → IsConsistent j
    → is_running j.status ≡ false
    → held ≢ some j.id
    → InOrder held j
new-InOrder held j c r ne = record {
  consistent = c;
  held_if_running = λ e. ground (arith, e, r);
  running_if_held = λ e. absurd (ne e);
}

-- the job that is claimed, or cancelled where that was asked
pub started-InOrder :
    (now : ℕ) (j : Job)
    → is_queued j.status ≡ true
    → j.cancel_requested ≡ false
    → InOrder none j
    → InOrder (some j.id) (start_claimed now j)
unfolding start_claimed is_running
started-InOrder now j q c h = record {
  consistent = Step-IsConsistent (Lifecycle.claim now j q c) h.consistent;
  held_if_running = λ r. refl;
  running_if_held = λ e. refl;
}

pub cancelled-InOrder :
    (now : ℕ) (j : Job)
    → is_queued j.status ≡ true
    → j.cancel_requested ≡ true
    → InOrder none j
    → InOrder none (cancel_claimed now j)
unfolding cancel_claimed is_running
cancelled-InOrder now j q c h = record {
  consistent = Step-IsConsistent (Lifecycle.claim_cancelled now j q c) h.consistent;
  held_if_running = λ r. cc;
  running_if_held = λ e. cc;
}
