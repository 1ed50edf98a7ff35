-- ===== src/Pipeline/Order.antt =====
-- The order that `topological_sort` returns.
use cuartel.Common.{
  ℕ, zero, suc, ◌+◌, ◌≤◌, ◌≡◌, refl, sym, ap, ◌∙◌, subst, Bool, true, false, ◌||◌, Option, some,
  List, [], ◌∷◌, ◌++◌, str_eq, eq_iff, eq_refl, length, arith, Bool-cases, inl, inr,
}
use cuartel.Pipeline.Defs.{StageId, contains}
use cuartel.Pipeline.Topo.{targets, sort_loop}
use cuartel.Pipeline.Degrees.{
  degree, needs, reached, times, append-nil, append_assoc, contains-append, needs-next,
}
use cuartel.Pipeline.Settled.{NoDup, Settled, positive, true_is_no_false}
use cuartel.Pipeline.Relaxed.{Within, Relaxed, Within, relax-Relaxed}

-- Nothing is needed that is not in the list before: each stage stands behind all its dependencies.
abbrev pub Ordered : List (StageId × StageId) → List StageId → List StageId → Type 0
Ordered es before [] = Unit
Ordered es before (x ∷ xs) = (needs es before x ≡ 0) × Ordered es (before ++ x ∷ []) xs

Ordered-last :
    (es : List (StageId × StageId)) (before xs : List StageId) (x : StageId)
    → Ordered es before xs
    → needs es (before ++ xs) x ≡ 0
    → Ordered es before (xs ++ x ∷ [])
Ordered-last es before [] x h z = (ap (λ b. needs es b x) (sym (append-nil before)) ∙ z, tt)
Ordered-last es before (y ∷ xs) x (a, h) z = (
  a,
  Ordered-last es (before ++ y ∷ []) xs x h
      (ap (λ b. needs es b x) (append_assoc before (y ∷ []) xs) ∙ z),
)

-- The loop returns an order of some of the ids, without repetition, in which each stage stands
-- behind its dependencies, and which has all ids with no dependency outside it.
pub record Sorts (es : List (StageId × StageId)) (ids : List StageId) (o : Option (List StageId))
    : Type 0 where
  pub order : List StageId
  pub returned : o ≡ some order
  pub distinct : NoDup order
  pub ordered : Ordered es [] order
  pub within : Within ids order
  pub reaches :
      (x : StageId) → contains ids x ≡ true → needs es order x ≡ 0 → contains order x ≡ true

or_true : (b : Bool) → (b || true) ≡ true
or_true true = refl
or_true false = refl

present_middle :
    (order : List StageId) (id : StageId) (queue : List StageId) (q : StageId)
    → q ≡ id
    → contains (order ++ id ∷ queue) q ≡ true
present_middle order id queue q e =
    contains-append order (id ∷ queue) q ∙ rw e (rw (eq_refl id) (or_true (contains order id)))

fresh_head :
    (order : List StageId) (id : StageId) (queue : List StageId)
    → NoDup (order ++ id ∷ queue)
    → contains order id ≡ false
fresh_head [] id queue n = refl
fresh_head (q ∷ order) id queue (a, n) = elim (Bool-cases (str_eq q id)) [
  | inr other ↦ rw other (fresh_head order id queue n)
  | inl same ↦
      absurd (true_is_no_false (sym (present_middle order id queue q ((eq_iff q id).0 same)) ∙ a))
]

Settled-middle :
    (m : List (StageId × ℕ)) (order : List StageId) (id : StageId) (queue : List StageId)
    → Settled m (order ++ id ∷ queue)
    → degree m id ≡ 0
Settled-middle m [] id queue (z, s) = z
Settled-middle m (q ∷ order) id queue (z, s) = Settled-middle m order id queue s

pub sort_loop-Sorts :
    (fuel : ℕ) (es : List (StageId × StageId)) (dependents : List (StageId × List StageId))
    (m : List (StageId × ℕ)) (queue order ids : List StageId)
    → ((x : StageId) → Within ids (reached es x))
    → Within ids (order ++ queue)
    → ((x : StageId) → contains ids x ≡ true → degree m x ≡ 0 → contains (order ++ queue) x ≡ true)
    → ((x : StageId) → targets dependents x ≡ reached es x)
    → ((x : StageId) → degree m x ≡ needs es order x)
    → Settled m (order ++ queue)
    → NoDup (order ++ queue)
    → Ordered es [] order
    → positive m + length queue ≤ fuel
    → Sorts es ids (sort_loop fuel dependents m queue order)
unfolding sort_loop
sort_loop-Sorts fuel es dependents m [] order ids i w c t g s n o f = record {
  order = order;
  returned = refl;
  distinct = subst NoDup (append-nil order) n;
  ordered = o;
  within = subst (Within ids) (append-nil order) w;
  reaches = λ x member z. ap (λ l. contains l x) (sym (append-nil order)) ∙ c x member (g x ∙ z);
}
sort_loop-Sorts zero es dependents m (id ∷ queue) order ids i w c t g s n o f = absurd (omega arith)
sort_loop-Sorts (suc fuel) es dependents m (id ∷ queue) order ids i w c t g s n o f =
    let order' = order ++ id ∷ [] in
    let fresh : contains order id ≡ false = fresh_head order id queue n in
    let r : Relaxed m queue (targets dependents id) order' (needs es order') =
      relax-Relaxed m queue (targets dependents id) order' (needs es order')
        (λ x.
          g x
          ∙ needs-next es order id x fresh
          ∙ ap (λ ys. needs es order' x + times ys x) (sym (t id)))
        (subst (Settled m) (sym (append_assoc order (id ∷ []) queue)) s)
        (subst NoDup (sym (append_assoc order (id ∷ []) queue)) n) in
    let settled_head : degree m id ≡ 0 = Settled-middle m order id queue s in
    let next =
      sort_loop-Sorts fuel es dependents r.numbers r.waiting order' ids i
        (r.within ids (subst (Within ids) (sym (append_assoc order (id ∷ []) queue)) w)
          (subst (Within ids) (sym (t id)) (i id)))
        (λ x member z.
          r.reaches x
            (λ before.
              ap (λ l. contains l x) (append_assoc order (id ∷ []) queue) ∙ c x member before)
            (sym (r.degrees x) ∙ z))
        t r.degrees r.settled r.distinct (Ordered-last es [] order id o (sym (g id) ∙ settled_head))
        (omega (arith, r.measure)) in
    record {
      order = next.order;
      returned = rw (r.returned, sort_loop) next.returned;
      distinct = next.distinct;
      ordered = next.ordered;
      within = next.within;
      reaches = next.reaches;
    }
