-- ===== src/Worker/Machine/Spools/Runs.antt =====
-- No event of app/worker.py or app/main.py takes the file of an import that waits or runs.
use token_loom.Prelude.{◌≡◌, false, not, filter, All, Text}
use token_loom.Jobs.Queue.{is_import, recover_job, recover_stale_jobs}
use token_loom.Worker.Maintenance.{is_expired_job}
use token_loom.Worker.Machine.{
  World, Event, work, beat as beat_event, restart, schedule, tidy_up, order, upload, cancel, delete,
  execute, Run, start, then_do, tidy,
}
use token_loom.Worker.Machine.Rows.{map-All, filter-All}
use token_loom.Worker.Machine.Order.{IsOrderly}
use token_loom.Worker.Machine.Runs.{Run-IsOrderly}
use token_loom.Worker.Machine.Spools.{HasFile, IsPlacing, kept-HasFile}
use token_loom.Worker.Machine.Spools.Turns.{ReadsOwn, IsSpooled, advance-IsSpooled}
use token_loom.Worker.Machine.Spools.Events.{
  IsShelved, recover_job-KeepsFile, beat_phase-HasFile, cancelled-HasFile, scheduled-HasFile,
  ordered-HasFile, uploaded-HasFile, tidied-HasFile,
}

module _ (path_of : Text → Text) where
  -- What an event has to do with files: a path of an id resolves to its file and is what an upload
  -- stores, the files in the folder have those paths, and an order is no import.
  abbrev pub IsPlaced : Event → Type 0
  IsPlaced (work o limits now summary) = IsPlacing path_of o
  IsPlaced (tidy_up s now wall file_of) = IsShelved path_of file_of
  IsPlaced (order id now kind scope ids) = is_import kind ≡ false
  IsPlaced (upload id now path name u) = path ≡ path_of id
  IsPlaced _ = Unit

  abbrev pub AllPlaced : {s w : World} → Run s w → Type 0
  AllPlaced start = Unit
  AllPlaced (then_do r e f) = AllPlaced r × IsPlaced e

  spooled :
      (w : World)
      → All (HasFile path_of w.tables.files) w.tables.jobs
      → ReadsOwn path_of w.phase
      → IsSpooled path_of w
  spooled w h own = record { files = h; reads = own }

  execute-IsSpooled :
      (e : Event) (w : World)
      → IsPlaced e
      → IsOrderly w
      → IsSpooled path_of w
      → IsSpooled path_of (execute e w)
  unfolding execute
  execute-IsSpooled (work o limits now summary) w p h own =
      advance-IsSpooled path_of o p limits now summary w.phase w.tables (h.distinct, h.in_order)
        own.files own.reads
  execute-IsSpooled (beat_event now) w p h own =
      spooled _ (beat_phase-HasFile path_of now w.phase w.tables.files w.tables.jobs own.files)
        own.reads
  execute-IsSpooled (restart now) w p h own =
      unfold recover_stale_jobs in
      spooled _
        (map-All (HasFile path_of w.tables.files) (HasFile path_of w.tables.files) (recover_job now)
          w.tables.jobs
          (λ j. kept-HasFile path_of (recover_job now) w.tables.files j (recover_job-KeepsFile now))
          own.files)
        tt
  execute-IsSpooled (schedule id now) w p h own =
      spooled _
        (scheduled-HasFile path_of id now w.tables.accounts.rows w.tables.files w.tables.jobs
          own.files)
        own.reads
  execute-IsSpooled (tidy_up s now wall file_of) w p h own =
      unfold tidy in
      spooled _
        (tidied-HasFile path_of s now wall file_of w.tables.files
          (filter (λ j. not (is_expired_job s now j)) w.tables.jobs) p
          (filter-All (HasFile path_of w.tables.files) (λ j. not (is_expired_job s now j))
            w.tables.jobs own.files))
        own.reads
  execute-IsSpooled (order id now kind scope ids) w p h own =
      spooled _
        (ordered-HasFile path_of id now kind scope w.tables.accounts.rows ids w.tables.files
          w.tables.jobs p own.files)
        own.reads
  execute-IsSpooled (upload id now path name u) w p h own =
      spooled _
        (uploaded-HasFile path_of id now path name u w.tables.files w.tables.jobs p own.files)
        own.reads
  execute-IsSpooled (cancel id) w p h own =
      spooled _ (cancelled-HasFile path_of id w.tables.files w.tables.jobs own.files) own.reads
  execute-IsSpooled (delete ids) w p h own = spooled _ own.files own.reads

  -- From a table in order where every import that waits or runs has its file, every sequence of such
  -- events, with fresh ids for what is added, leads to one: each of these imports still has its file.
  pub Run-IsSpooled :
      {s w : World}
      → IsOrderly s
      → IsSpooled path_of s
      → (r : Run s w) → AllPlaced r
      → IsSpooled path_of w
  Run-IsSpooled h own start p = own
  Run-IsSpooled h own (then_do {t} r e f) p =
      execute-IsSpooled e t p.1 (Run-IsOrderly h r) (Run-IsSpooled h own r p.0)
