-- ===== src/Views/Counts.antt =====
-- What the numbers of `dashboard_counts` of app/services.py say.
use token_loom.Prelude.{ℕ, ◌+◌, ◌≤◌, ◌≡◌, refl, List, [], ◌∷◌, length, length-filter, arith}
use token_loom.Records.{Account, Job, due}
use token_loom.Refresh.Batches.{scope_snapshot}
use token_loom.Views.{
  is_healthy, is_invalid, needs_attention, is_unknown, is_expiring, count_of, dashboard_counts,
}

by_status :
    (rows : List Account)
    → count_of (λ a. is_healthy a.status) rows
        + count_of (λ a. is_invalid a.status) rows
        + count_of (λ a. needs_attention a.status) rows
        + count_of (λ a. is_unknown a.status) rows
      ≡ length rows
unfolding count_of is_healthy is_invalid needs_attention is_unknown
by_status [] = omega arith
by_status (a ∷ rows) = ground (arith, by_status rows)

pub record IsSound (now : ℕ) (rows : List Account) (jobs : List Job) : Type 0 where
  pub parted :
      (dashboard_counts now rows jobs).healthy
        + (dashboard_counts now rows jobs).invalid
        + (dashboard_counts now rows jobs).attention
        + (dashboard_counts now rows jobs).unknown
      ≡ (dashboard_counts now rows jobs).total
  pub expiring : (dashboard_counts now rows jobs).expiring ≤ (dashboard_counts now rows jobs).total
  pub overdue : (dashboard_counts now rows jobs).overdue ≡ (scope_snapshot now due [] rows).0

-- Of the numbers shown, the healthy, the invalid, those that need attention and the unknown make up
-- all accounts, those that expire soon are no more, and the overdue are as many as a refresh of the
-- due accounts would have in its total.
pub dashboard_counts-IsSound :
    (now : ℕ) (rows : List Account) (jobs : List Job) → IsSound now rows jobs
unfolding dashboard_counts scope_snapshot
dashboard_counts-IsSound now rows jobs = record {
  parted = by_status rows;
  expiring = length-filter (is_expiring now) rows;
  overdue = refl;
}
