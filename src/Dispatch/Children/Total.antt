-- ===== src/Dispatch/Children/Total.antt =====
-- The loop over the children ends after as many rounds as there are sales, and has then settled each
-- sale once.
use automation_server_net.Base.{
  ℕ, zero, suc, ◌+◌, ◌≤◌, ◌<◌, ◌≡◌, refl, true, false, Option, some, List, [], ◌∷◌, ◌++◌, ltb, ◌==◌,
  if◌then◌else◌, length, length-append, arith, inl, inr, Bool-cases, subst, sym,
}
use automation_server_net.Nfe.Rows.{SaleToProcess}
use automation_server_net.Temporal.{Outcome, done, thrown}
use automation_server_net.Dispatch.Processing.{ChildResult}
use automation_server_net.Dispatch.Children.{
  Settled, completed, failed, Children, map_set, map_delete, launch, settle_child, nth, Race,
  start_children, await_child, proceed, launched, both_empty, is_finished, run_children,
  settled_with, waiting_sales,
}

abbrev pub count : ℕ → List ℕ → ℕ
count k [] = 0
count k (n ∷ ns) = (if n == k then 1 else 0) + count k ns

count-append : (k : ℕ) (xs ys : List ℕ) → count k (xs ++ ys) ≡ count k xs + count k ys
count-append k [] ys = omega arith
count-append k (x ∷ xs) ys = omega (arith, count-append k xs ys)

abbrev pub sale_ids : List SaleToProcess → List ℕ
sale_ids [] = []
sale_ids (s ∷ ss) = s.sale_id ∷ sale_ids ss

abbrev pub result_ids : List ChildResult → List ℕ
result_ids [] = []
result_ids (r ∷ rs) = r.sale_id ∷ result_ids rs

result_ids-append :
    (rs : List ChildResult) (r : ChildResult)
    → result_ids (rs ++ (r ∷ [])) ≡ result_ids rs ++ (r.sale_id ∷ [])
result_ids-append [] r = refl
result_ids-append (q ∷ rs) r = rw (result_ids-append rs r)

map_set-absent :
    (k : ℕ) (s : SaleToProcess) (active : List SaleToProcess)
    → count s.sale_id (sale_ids active) ≡ 0
    → (count k (sale_ids (map_set s active))
        ≡ (if s.sale_id == k then 1 else 0) + count k (sale_ids active))
      × (length (map_set s active) ≡ length active + 1)
map_set-absent k s [] e = (omega arith, omega arith)
map_set-absent k s (t ∷ ts) e = elim (Bool-cases (t.sale_id == s.sale_id)) [
  | inl y ↦ absurd (ground (arith, e, y))
  | inr y ↦ rw y (
      let (same, longer) = map_set-absent k s ts (ground (arith, e, y)) in
      (omega (arith, same), omega (arith, longer)))
]

map_delete-present :
    (k id : ℕ) (active : List SaleToProcess)
    → 0 < count id (sale_ids active)
    → (count k (sale_ids (map_delete id active)) + (if id == k then 1 else 0)
        ≡ count k (sale_ids active))
      × (length (map_delete id active) + 1 ≡ length active)
map_delete-present k id [] h = absurd (omega arith)
map_delete-present k id (t ∷ ts) h = elim (Bool-cases (t.sale_id == id)) [
  | inl y ↦ rw y (ground (arith, y), omega arith)
  | inr y ↦ rw y (
      let (same, shorter) = map_delete-present k id ts (ground (arith, h, y)) in
      (omega (arith, same), omega (arith, shorter)))
]

nth-present :
    (i : ℕ) (s : SaleToProcess) (ss : List SaleToProcess)
    → 0 < count (nth i s ss).sale_id (sale_ids (s ∷ ss))
nth-present zero s ss = ground arith
nth-present (suc i) s [] = ground arith
nth-present (suc i) s (t ∷ ts) = omega (arith, nth-present i t ts)

settled-present :
    (i : ℕ) (s : SaleToProcess) (ss : List SaleToProcess) (id : ℕ)
    → id ≡ (nth i s ss).sale_id
    → 0 < count id (sale_ids (s ∷ ss))
settled-present i s ss id e =
    subst (λ k. 0 < count k (sale_ids (s ∷ ss))) (sym e) (nth-present i s ss)

-- What the inner loop makes of what waits and what runs.
record Launches (max : ℕ) (waiting active : List SaleToProcess)
    (r : List SaleToProcess × List SaleToProcess) : Type 0 where
  same :
      (k : ℕ)
      → count k (sale_ids r.0) + count k (sale_ids r.1)
        ≡ count k (sale_ids waiting) + count k (sale_ids active)
  as_many : length r.0 + length r.1 ≡ length waiting + length active
  bounded : length r.1 ≤ max
  runs : 0 < length waiting + length active → 0 < length r.1

absent_before :
    (s : SaleToProcess) (ss active : List SaleToProcess)
    → ((k : ℕ) → count k (sale_ids (s ∷ ss)) + count k (sale_ids active) ≤ 1)
    → count s.sale_id (sale_ids active) ≡ 0
absent_before s ss active once = ground (arith, once s.sale_id)

one_launched :
    (max : ℕ) (s : SaleToProcess) (ss active : List SaleToProcess)
    → ltb (length active) max ≡ true
    → 0 < max
    → ((k : ℕ) → count k (sale_ids (s ∷ ss)) + count k (sale_ids active) ≤ 1)
    → length active ≤ max
    → (0 < max
        → ((k : ℕ) → count k (sale_ids ss) + count k (sale_ids (map_set s active)) ≤ 1)
        → length (map_set s active) ≤ max
        → Launches max ss (map_set s active) (launch max ss (map_set s active)))
    → Launches max (s ∷ ss) active (launch max ss (map_set s active))
one_launched max s ss active free positive once h next =
    let absent = absent_before s ss active once in
    let (same0, longer) = map_set-absent 0 s active absent in
    let l =
      next positive (λ k. omega (arith, (map_set-absent k s active absent).0, once k))
        (ground (arith, longer, free)) in
    record {
      same = λ k. omega (arith, l.same k, (map_set-absent k s active absent).0);
      as_many = omega (arith, l.as_many, longer);
      bounded = l.bounded;
      runs = λ some_left. l.runs (omega (arith, longer));
    }

launch-Launches :
    (max : ℕ) (waiting active : List SaleToProcess)
    → 0 < max
    → ((k : ℕ) → count k (sale_ids waiting) + count k (sale_ids active) ≤ 1)
    → length active ≤ max
    → Launches max waiting active (launch max waiting active)
unfolding launch
launch-Launches max [] active positive once h = record {
  same = λ k. refl;
  as_many = refl;
  bounded = h;
  runs = λ some_left. omega arith;
}
launch-Launches max (s ∷ ss) active positive once h = elim (Bool-cases (ltb (length active) max)) [
  | inr full ↦ rw full (record {
    same = λ k. refl;
    as_many = refl;
    bounded = h;
    runs = λ some_left. ground (arith, full);
  })
  | inl free ↦ rw free (
      one_launched max s ss active free positive once h (launch-Launches max ss (map_set s active)))
]

abbrev pub settled_id : Settled → ℕ
settled_id (completed r) = r.sale_id
settled_id (failed id) = id

-- A promise that is fulfilled under its own sale.
abbrev pub IsOwn : SaleToProcess → Outcome Settled → Type 0
IsOwn s (done r) = settled_id r ≡ s.sale_id
IsOwn s (thrown e) = ⊥

-- How much has been settled, and what is left of it, between two states.
record Settles (c d : Children) : Type 0 where
  each :
      (k : ℕ)
      → count k (result_ids d.results) + count k d.failed_sale_ids
        ≡ (count k (result_ids c.results) + count k c.failed_sale_ids)
          + (count k (sale_ids c.pending_sales) + count k (sale_ids c.active_children))
  counted :
      d.child_workflow_failures + length c.failed_sale_ids
      ≡ c.child_workflow_failures + length d.failed_sale_ids
  all :
      length d.results + length d.failed_sale_ids
      ≡ (length c.results + length c.failed_sale_ids)
        + (length c.pending_sales + length c.active_children)

-- one child settled
record SettlesOne (c d : Children) : Type 0 where
  each :
      (k : ℕ)
      → (count k (result_ids d.results) + count k d.failed_sale_ids)
          + count k (sale_ids d.active_children)
        ≡ (count k (result_ids c.results) + count k c.failed_sale_ids)
          + count k (sale_ids c.active_children)
  fewer : (k : ℕ) → count k (sale_ids d.active_children) ≤ count k (sale_ids c.active_children)
  counted :
      d.child_workflow_failures + length c.failed_sale_ids
      ≡ c.child_workflow_failures + length d.failed_sale_ids
  all :
      length d.results + length d.failed_sale_ids
      ≡ (length c.results + length c.failed_sale_ids) + 1
  shorter : length d.active_children + 1 ≡ length c.active_children
  waiting : (k : ℕ) → count k (sale_ids d.pending_sales) ≡ count k (sale_ids c.pending_sales)
  as_many : length d.pending_sales ≡ length c.pending_sales

settle_child-SettlesOne :
    (r : Settled) (c : Children)
    → 0 < count (settled_id r) (sale_ids c.active_children)
    → SettlesOne c (settle_child r c)
unfolding settle_child
settle_child-SettlesOne (completed r) c h =
    let (same, shorter) = map_delete-present 0 r.sale_id c.active_children h in
    record {
      each = λ k. rw (result_ids-append c.results r) (
          rw (count-append k (result_ids c.results) (r.sale_id ∷ []))
            (omega (arith, (map_delete-present k r.sale_id c.active_children h).0)));
      fewer = λ k. omega (arith, (map_delete-present k r.sale_id c.active_children h).0);
      counted = refl;
      all = rw (length-append c.results (r ∷ [])) (omega arith);
      shorter = shorter;
      waiting = λ k. refl;
      as_many = refl;
    }
settle_child-SettlesOne (failed id) c h =
    let (same, shorter) = map_delete-present 0 id c.active_children h in
    record {
      each = λ k.
          rw (count-append k c.failed_sale_ids (id ∷ []))
            (omega (arith, (map_delete-present k id c.active_children h).0));
      fewer = λ k. omega (arith, (map_delete-present k id c.active_children h).0);
      counted = rw (length-append c.failed_sale_ids (id ∷ [])) (omega arith);
      all = rw (length-append c.failed_sale_ids (id ∷ [])) (omega arith);
      shorter = shorter;
      waiting = λ k. refl;
      as_many = refl;
    }

finished_empty :
    (p a : List SaleToProcess) (k : ℕ)
    → both_empty p a ≡ true
    → (count k (sale_ids p) + count k (sale_ids a) ≡ 0) × (length p + length a ≡ 0)
finished_empty [] [] k e = (refl, refl)
finished_empty [] (s ∷ ss) k e = ground (arith, e)
finished_empty (s ∷ ss) a k e = ground (arith, e)

unfinished_positive : (p a : List SaleToProcess) → both_empty p a ≡ false → 0 < length p + length a
unfinished_positive [] [] e = ground (arith, e)
unfinished_positive [] (s ∷ ss) e = omega arith
unfinished_positive (s ∷ ss) a e = omega arith

nothing_left : (p a : List SaleToProcess) → length p + length a ≤ 0 → both_empty p a ≡ true
nothing_left [] [] h = refl
nothing_left [] (s ∷ ss) h = absurd (omega arith)
nothing_left (s ∷ ss) a h = absurd (omega arith)

Settles-finished :
    (c : Children) → both_empty c.pending_sales c.active_children ≡ true → Settles c c
Settles-finished c e = record {
  each = λ k. omega (arith, (finished_empty c.pending_sales c.active_children k e).0);
  counted = refl;
  all = omega (arith, (finished_empty c.pending_sales c.active_children 0 e).1);
}

-- no sale twice, and no more children than may run
record Within (max : ℕ) (c : Children) : Type 0 where
  once : (k : ℕ) → count k (sale_ids c.pending_sales) + count k (sale_ids c.active_children) ≤ 1
  bounded : length c.active_children ≤ max

left : Children → ℕ
left c = length c.pending_sales + length c.active_children

module _ (race : Race) (max : ℕ) (positive : 0 < max)
    (faithful : (s : SaleToProcess) → IsOwn s (race.settles s)) where
  one_round :
      (fuel : ℕ) (c : Children) (r : List SaleToProcess × List SaleToProcess)
      → Launches max c.pending_sales c.active_children r
      → Within max c
      → 0 < left c
      → left c ≤ suc fuel
      → (next : Children → Option (Outcome Children))
      → ((b : Children)
          → Within max b
          → left b ≤ fuel
          → (d : Children) × (next b ≡ some (done d)) × Settles b d)
      → (d : Children) × (proceed race max r.1 (launched race max r c) next ≡ some (done d))
        × Settles c d
  unfolding left await_child
  one_round fuel c (p, []) l w going h next ends = absurd (omega (arith, l.runs going))
  one_round fuel c (p, s ∷ ss) l w going h next ends = settled (race.settles child) (faithful child)
    where
      child : SaleToProcess
      child = nth (race.winner (s ∷ ss)) s ss

      mid : Children
      mid = launched race max (p, s ∷ ss) c

      settled :
          (o : Outcome Settled)
          → IsOwn child o
          → (d : Children) × (settled_with race max o mid next ≡ some (done d)) × Settles c d
      settled (thrown e) own = elim own [ ]
      settled (done r) own =
          let one =
            settle_child-SettlesOne r mid
              (settled-present (race.winner (s ∷ ss)) s ss (settled_id r) own) in
          let (d, returned, more) =
            ends (settle_child r mid)
              (record {
                once = λ k. omega (arith, one.waiting k, one.fewer k, l.same k, w.once k);
                bounded = omega (arith, one.shorter, l.bounded);
              })
              (omega (arith, one.as_many, one.shorter, l.as_many)) in
          (
            d,
            returned,
            record {
              each = λ k. omega (arith, more.each k, one.each k, one.waiting k, l.same k);
              counted = omega (arith, more.counted, one.counted);
              all = omega (arith, more.all, one.all, one.as_many, one.shorter, l.as_many);
            },
          )

  unfinished :
      (fuel : ℕ) (c : Children)
      → Within max c
      → left c ≤ suc fuel
      → is_finished race max c ≡ false
      → (next : Children → Option (Outcome Children))
      → ((b : Children)
          → Within max b
          → left b ≤ fuel
          → (d : Children) × (next b ≡ some (done d)) × Settles b d)
      → (d : Children) × (proceed race max
            (start_children race max c).active_children
            (start_children race max c)
            next
          ≡ some (done d))
        × Settles c d
  unfolding start_children left
  unfinished fuel c w h going next ends =
      one_round fuel c (launch max c.pending_sales c.active_children)
        (launch-Launches max c.pending_sales c.active_children positive w.once w.bounded) w
        (unfinished_positive c.pending_sales c.active_children going) h next ends

  run_children_lem :
      (fuel : ℕ) (c : Children)
      → Within max c
      → left c ≤ fuel
      → (d : Children) × (run_children race max fuel c ≡ some (done d)) × Settles c d
  unfolding run_children left
  run_children_lem zero c w h =
      let over = nothing_left c.pending_sales c.active_children h in
      rw over (c, refl, Settles-finished c over)
  run_children_lem (suc fuel) c w h = elim (Bool-cases (is_finished race max c)) [
    | inl over ↦ rw over (c, refl, Settles-finished c over)
    | inr going ↦
        rw going
          (unfinished fuel c w h going (λ b. run_children race max fuel b) (run_children_lem fuel))
  ]

-- Where no sale waits or runs twice and no more children run than may, the inner loop starts children so
-- that no more run than may, and only moves sales from those that wait to those that run.
pub start_children_bounded :
    (race : Race) (max : ℕ) (c : Children)
    → 0 < max
    → ((k : ℕ) → count k (sale_ids c.pending_sales) + count k (sale_ids c.active_children) ≤ 1)
    → length c.active_children ≤ max
    → let started = start_children race max c in
      (length started.active_children ≤ max)
      × (length started.pending_sales + length started.active_children
          ≡ length c.pending_sales + length c.active_children)
      × ((k : ℕ)
          → count k (sale_ids started.pending_sales) + count k (sale_ids started.active_children)
            ≡ count k (sale_ids c.pending_sales) + count k (sale_ids c.active_children))
unfolding start_children
start_children_bounded race max c positive once room =
    let l = launch-Launches max c.pending_sales c.active_children positive once room in
    (l.bounded, l.as_many, l.same)

-- With room for at least one child, where each child settles under its own sale and no sale id is listed
-- twice, the loop ends, and each sale is settled as often as it is listed.
pub run_children_total :
    (race : Race) (max : ℕ) (sales : List SaleToProcess)
    → 0 < max
    → ((s : SaleToProcess) → IsOwn s (race.settles s))
    → ((k : ℕ) → count k (sale_ids sales) ≤ 1)
    → (d : Children) × (run_children race max (length sales) (waiting_sales sales) ≡ some (done d))
      × ((k : ℕ)
          → count k (result_ids d.results) + count k d.failed_sale_ids ≡ count k (sale_ids sales))
      × (d.child_workflow_failures ≡ length d.failed_sale_ids)
      × (length d.results + length d.failed_sale_ids ≡ length sales)
unfolding left
run_children_total race max sales positive faithful once =
    let (d, returned, s) =
      run_children_lem race max positive faithful (length sales) (waiting_sales sales)
        (record { once = λ k. omega (arith, once k); bounded = omega arith }) (omega arith) in
    (d, returned, λ k. omega (arith, s.each k), omega (arith, s.counted), omega (arith, s.all))
