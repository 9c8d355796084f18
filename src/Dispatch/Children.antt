-- ===== src/Dispatch/Children.antt =====
-- `runProcessChildrenWithConcurrency` of
-- src/temporal/workflows/nfe/process-nfe-email-dispatch-sales.workflow.ts. Which of
-- the running children `Promise.race` settles with is a parameter, and what their promises settle with
-- is given by Parent; a race of none never settles.
pub mod Total
use automation_server_net.Base.{
  ℕ, zero, suc, ◌+◌, Bool, true, false, Option, none, some, List, [], ◌∷◌, ◌++◌, ltb, ◌==◌,
  if◌then◌else◌, length,
}
use automation_server_net.Nfe.Rows.{SaleToProcess}
use automation_server_net.Temporal.{Outcome, done, thrown}
use automation_server_net.Dispatch.Processing.{ChildResult}

-- what the promise of a child settles with
pub data Settled : Type 0 where
  completed : ChildResult → Settled
  failed : (sale_id : ℕ) → Settled

pub record Children : Type 0 where
  pub pending_sales : List SaleToProcess
  -- the `Map` of the running children by sale id
  pub active_children : List SaleToProcess
  pub results : List ChildResult
  pub failed_sale_ids : List ℕ
  pub child_workflow_failures : ℕ

-- `Map.set` and `Map.delete`
abbrev pub map_set : SaleToProcess → List SaleToProcess → List SaleToProcess
map_set s [] = s ∷ []
map_set s (t ∷ ts) = let rest = map_set s ts in if t.sale_id == s.sale_id then s ∷ ts else t ∷ rest

abbrev pub map_delete : ℕ → List SaleToProcess → List SaleToProcess
map_delete id [] = []
map_delete id (t ∷ ts) = let rest = map_delete id ts in if t.sale_id == id then ts else t ∷ rest

-- the inner `while`: what stays pending, and what runs
unfoldable pub launch :
    (max : ℕ) → List SaleToProcess → List SaleToProcess → List SaleToProcess × List SaleToProcess
launch max [] active = ([], active)
launch max (s ∷ ss) active =
    let more = launch max ss (map_set s active) in
    if ltb (length active) max then more else (s ∷ ss, active)

unfoldable pub settle_child : Settled → Children → Children
settle_child (completed r) c = record c {
  active_children = map_delete r.sale_id c.active_children;
  results = c.results ++ (r ∷ []);
}
settle_child (failed id) c = record c {
  active_children = map_delete id c.active_children;
  child_workflow_failures = c.child_workflow_failures + 1;
  failed_sale_ids = c.failed_sale_ids ++ (id ∷ []);
}

abbrev pub nth : ℕ → SaleToProcess → List SaleToProcess → SaleToProcess
nth zero s ss = s
nth (suc i) s [] = s
nth (suc i) s (t ∷ ts) = nth i t ts

-- the promises of the children: what that of a sale is fulfilled with, or that it is rejected, and which
-- of the running ones settles first
pub record Race : Type 0 where
  pub settles : SaleToProcess → Outcome Settled
  pub winner : List SaleToProcess → ℕ

abbrev pub both_empty : List SaleToProcess → List SaleToProcess → Bool
both_empty [] [] = true
both_empty [] (s ∷ ss) = false
both_empty (s ∷ ss) active = false

module _ (race : Race) (max : ℕ) where
  abbrev pub launched : List SaleToProcess × List SaleToProcess → Children → Children
  launched (waiting, active) c = record c { pending_sales = waiting; active_children = active }

  -- the inner loop of a round
  unfoldable pub start_children : Children → Children
  start_children c = launched (launch max c.pending_sales c.active_children) c

  -- `await Promise.race`, which throws where the promise that wins is rejected
  abbrev pub settled_with :
      Outcome Settled
      → Children
      → (next : Children → Option (Outcome Children)) → Option (Outcome Children)
  settled_with (done r) c next = next (settle_child r c)
  settled_with (thrown e) c next = some (thrown e)

  -- the rest of a round, where children run
  unfoldable pub await_child :
      SaleToProcess
      → List SaleToProcess
      → Children
      → (next : Children → Option (Outcome Children)) → Option (Outcome Children)
  await_child s ss c next = settled_with (race.settles (nth (race.winner (s ∷ ss)) s ss)) c next

  -- whether the outer loop ends
  abbrev pub is_finished : Children → Bool
  is_finished c = both_empty c.pending_sales c.active_children

  -- the rest of a round, and what comes after it; nothing if no child runs that a race could settle
  -- with
  abbrev pub proceed :
      List SaleToProcess
      → Children
      → (next : Children → Option (Outcome Children)) → Option (Outcome Children)
  proceed [] c next = none
  proceed (s ∷ ss) c next = await_child s ss c next

  -- the outer `while`, at most `fuel` times; nothing if it is not over by then
  unfoldable pub run_children : (fuel : ℕ) → Children → Option (Outcome Children)
  run_children zero c = if is_finished c then some (done c) else none
  run_children (suc fuel) c =
      let started = start_children c in
      let more = proceed started.active_children started (λ d. run_children fuel d) in
      if is_finished c then some (done c) else more

-- the state before the loop
abbrev pub waiting_sales : List SaleToProcess → Children
waiting_sales sales = record {
  pending_sales = sales;
  active_children = [];
  results = [];
  failed_sale_ids = [];
  child_workflow_failures = 0;
}
