-- ===== src/Api/Orders/Totals.antt =====
-- A job of `create_job` of app/main.py against what the worker will find of it.
use token_loom.Prelude.{
  ℕ, ◌≤◌, ◌<◌, ◌≡◌, refl, sym, ap, ◌∙◌, subst, Bool, true, false, ◌&&◌, Option, none, some, List,
  [], ◌∷◌, filter, ltb, ◌==◌, if◌then◌else◌, length, Text, ok, >>=-eq-ok, arith, inl, inr,
  Bool-cases, if_true, if_false,
}
use token_loom.Prelude.Ints.{ℤ}
use token_loom.Prelude.Paging.{IsGrowing, behind}
use token_loom.Records.{Account, Job, JobKind, JobScope, selected, everything, due, file, queued}
use token_loom.Refresh.Batches.{scope_test, below_max, in_scope, largest_id, scope_snapshot}
use token_loom.Refresh.Batches.Walk.{id_of}
use token_loom.Api.Orders.{
  Order, kind_of, scope_of, chosen_ids, stored_ids, new_job, queue_order, scoped_order,
  kinded_order, create_job,
}

below_max-le : (m id : ℕ) → id ≤ m → below_max (if m == 0 then none else some m) id ≡ true
unfolding below_max
below_max-le m id h = ground (arith, h)

-- Ids above zero and a largest id that no found row exceeds take nothing away.
filter-below :
    (test : Account → Bool) (m low : ℕ) (rows : List Account)
    → IsGrowing id_of low rows
    → largest_id (filter test rows) ≤ m
    → filter (λ a. ltb 0 a.id && (below_max (if m == 0 then none else some m) a.id && test a)) rows
      ≡ filter test rows
unfolding largest_id
filter-below test m low [] g h = refl
filter-below test m low (a ∷ rows) g h =
    let found =
      λ (x : Account). ltb 0 x.id && (below_max (if m == 0 then none else some m) x.id && test x) in
    elim (Bool-cases (test a)) [
      | inl t ↦
          let same : filter test (a ∷ rows) ≡ a ∷ filter test rows = if_true _ _ t in
          let bound = subst (λ (found : List Account). largest_id found ≤ m) same h in
          let pass : found a ≡ true =
            ground (arith, t, below_max-le m a.id (omega (arith, bound)), g.0) in
          let ih = filter-below test m a.id rows g.1 (omega (arith, bound)) in
          if_true _ _ pass ∙ ap (λ (rest : List Account). a ∷ rest) ih ∙ sym same
      | inr t ↦
          let same : filter test (a ∷ rows) ≡ filter test rows = if_false _ _ t in
          let bound = subst (λ (found : List Account). largest_id found ≤ m) same h in
          let block : found a ≡ false = ground (arith, t) in
          if_false _ _ block ∙ filter-below test m a.id rows g.1 bound ∙ sym same
    ]

-- What the row of a new job promises.
pub record IsOrdered (now : ℕ) (rows : List Account) (j : Job) : Type 0 where
  pub counted : length (behind id_of (in_scope now j) j.cursor_id rows) ≡ j.total
  pub nonempty : 0 < j.total
  pub waits : j.status ≡ queued
  pub wanted : j.cancel_requested ≡ false

scope_test-stored :
    (now : ℕ) (scope : JobScope) (ids : List ℤ) (a : Account)
    → scope_test now scope (stored_ids scope ids) a ≡ scope_test now scope (some ids) a
unfolding scope_test
scope_test-stored now selected ids a = refl
scope_test-stored now everything ids a = refl
scope_test-stored now due ids a = refl
scope_test-stored now file ids a = refl

queue_order-IsOrdered :
    (id : Text) (now : ℕ) (kind : JobKind) (scope : JobScope) (rows : List Account) (ids : List ℤ)
    {j : Job}
    → IsGrowing id_of 0 rows
    → queue_order id now kind scope rows ids ≡ ok j
    → IsOrdered now rows j
unfolding queue_order scope_snapshot new_job in_scope behind
queue_order-IsOrdered id now kind scope rows ids {j} g h =
    let test = scope_test now scope (some ids) in
    let found = filter test rows in
    elim (Bool-cases (length found == 0)) [
      | inl e ↦ ground (arith, e, h)
      | inr e ↦
          let same : new_job id now kind scope ids (length found) (largest_id found) ≡ j =
            ground (arith, e, h) in
          subst (IsOrdered now rows) same (record {
            counted = ap length (
                ap
                  (λ (t : Account → Bool).
                    filter
                      (λ a.
                        ltb 0 a.id
                        && (below_max
                              (if largest_id found == 0 then none else some (largest_id found)) a.id
                            && t a))
                      rows)
                  (λ i a. scope_test-stored now scope ids a i)
                ∙ filter-below test (largest_id found) 0 rows g (omega arith));
            nonempty = ground (arith, e);
            waits = refl;
            wanted = refl;
          })
    ]

module _ {J : Type 0} (is_bool : J → Bool) (int_of : J → Option ℤ) where
  scoped_order-IsOrdered :
      (id : Text) (now : ℕ) (kind : JobKind) (scope : Option JobScope) (order : Order J)
      (rows : List Account) {j : Job}
      → IsGrowing id_of 0 rows
      → scoped_order is_bool int_of id now kind scope order rows ≡ ok j
      → IsOrdered now rows j
  unfolding scoped_order
  scoped_order-IsOrdered id now kind none order rows g h = cc
  scoped_order-IsOrdered id now kind (some scope) order rows g h =
      let (ids, chosen, queue) =
        >>=-eq-ok (chosen_ids is_bool int_of kind scope order) (queue_order id now kind scope rows)
          h in
      queue_order-IsOrdered id now kind scope rows ids g queue

  kinded_order-IsOrdered :
      (id : Text) (now : ℕ) (kind : Option JobKind) (order : Order J) (rows : List Account)
      {j : Job}
      → IsGrowing id_of 0 rows
      → kinded_order is_bool int_of id now kind order rows ≡ ok j
      → IsOrdered now rows j
  unfolding kinded_order
  kinded_order-IsOrdered id now none order rows g h = cc
  kinded_order-IsOrdered id now (some kind) order rows g h =
      scoped_order-IsOrdered id now kind (scope_of order.scope) order rows g h

  -- On a table by growing positive id, the job that is queued has as its total exactly the number of
  -- accounts that the worker would find in its scope at that instant; there is at least one, and
  -- the job waits, not cancelled.
  pub create_job-IsOrdered :
      (id : Text) (now : ℕ) (order : Order J) (rows : List Account) {j : Job}
      → IsGrowing id_of 0 rows
      → create_job is_bool int_of id now order rows ≡ ok j
      → IsOrdered now rows j
  unfolding create_job
  create_job-IsOrdered id now order rows g h =
      kinded_order-IsOrdered id now (kind_of order.kind) order rows g h
