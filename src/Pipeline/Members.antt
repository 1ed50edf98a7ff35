-- ===== src/Pipeline/Members.antt =====
-- The maps of `topological_sort` have the ids of all stages, and no others.
use cuartel.Common.{
  ℕ, suc, ◌≡◌, ◌⊎◌, All, refl, ◌∙◌, subst, true, some, List, [], ◌∷◌, ◌++◌, map, str_eq, eq_iff,
  eq_refl, length, arith, Bool-cases, Option-cases, inl, inr, ◌==◌,
}
use cuartel.Common.Dict.{lookup, Distinct, insert, adjust, lookup-insert, lookup-adjust}
use cuartel.Pipeline.Defs.{StageId, PipelineStage, contains}
use cuartel.Pipeline.Topo.{
  Graph, or_zero, add_edge, add_edges, edges_of, add_stages, sort_loop, sources, empty_graph,
}
use cuartel.Pipeline.Degrees.{degree, all_edges, reached, add_stages_lem}
use cuartel.Pipeline.Relaxed.{Within}
use cuartel.Pipeline.Order.{Sorts, sort_loop-Sorts}
use cuartel.Pipeline.Sources.{Distinct-add_stages, sources-Settled, sources-NoDup, fuel_enough}

-- The ids of some stages.
abbrev pub ids_of : List PipelineStage → List StageId
ids_of stages = map (λ s. s.id) stages

abbrev Members : List StageId → List PipelineStage → Type 0
Members ids ss = All (λ s. contains ids s.id ≡ true) ss

Members-cons :
    (i : StageId) (ids : List StageId) (ss : List PipelineStage)
    → Members ids ss
    → Members (i ∷ ids) ss
Members-cons i ids [] h = tt
Members-cons i ids (s ∷ ss) (a, h) = (ground (arith, a), Members-cons i ids ss h)

all-Members : (ss : List PipelineStage) → Members (ids_of ss) ss
all-Members [] = tt
all-Members (s ∷ ss) = (rw (eq_refl s.id) refl, Members-cons s.id (ids_of ss) ss (all-Members ss))

-- The edges lead to some of the ids.
abbrev Targets : List StageId → List (StageId × StageId) → Type 0
Targets ids es = All (λ e. contains ids e.1 ≡ true) es

Targets-append :
    (ids : List StageId) (es fs : List (StageId × StageId))
    → Targets ids es
    → Targets ids fs
    → Targets ids (es ++ fs)
Targets-append ids [] fs h k = k
Targets-append ids (e ∷ es) fs (a, h) k = (a, Targets-append ids es fs h k)

Targets-deps :
    (ids deps : List StageId) (id : StageId)
    → contains ids id ≡ true
    → Targets ids (map (λ dep. (dep, id)) deps)
Targets-deps ids [] id h = tt
Targets-deps ids (d ∷ deps) id h = (h, Targets-deps ids deps id h)

Targets-all_edges :
    (ids : List StageId) (ss : List PipelineStage) → Members ids ss → Targets ids (all_edges ss)
Targets-all_edges ids [] h = tt
Targets-all_edges ids (s ∷ ss) (a, h) =
    Targets-append ids (edges_of s) (all_edges ss) (Targets-deps ids s.depends_on s.id a)
      (Targets-all_edges ids ss h)

reached-Within :
    (ids : List StageId) (es : List (StageId × StageId)) (x : StageId)
    → Targets ids es
    → Within ids (reached es x)
reached-Within ids [] x h = tt
reached-Within ids ((d, t) ∷ es) x (a, h) = elim (Bool-cases (str_eq d x)) [
  | inl same ↦ rw same (a, reached-Within ids es x h)
  | inr other ↦ rw other (reached-Within ids es x h)
]

-- The keys of a map are some of the ids.
abbrev Keys : List StageId → List (StageId × ℕ) → Type 0
Keys ids m = All (λ e. contains ids e.0 ≡ true) m

Keys-insert :
    (ids : List StageId) (k : StageId) (n : ℕ) (m : List (StageId × ℕ))
    → contains ids k ≡ true
    → Keys ids m
    → Keys ids (insert k n m)
unfolding insert
Keys-insert ids k n [] c h = (c, tt)
Keys-insert ids k n ((j, w) ∷ m) c h = ground (arith, Keys-insert ids k n m c h.1)

Keys-adjust :
    (ids : List StageId) (f : ℕ → ℕ) (k : StageId) (m : List (StageId × ℕ))
    → Keys ids m
    → Keys ids (adjust f k m)
unfolding adjust
Keys-adjust ids f k [] h = tt
Keys-adjust ids f k ((j, w) ∷ m) h = ground (arith, Keys-adjust ids f k m h.1)

Keys-or_zero :
    (ids : List StageId) (k : StageId) (m : List (StageId × ℕ))
    → contains ids k ≡ true
    → Keys ids m
    → Keys ids (or_zero k m)
unfolding or_zero
Keys-or_zero ids k m c h = elim (Option-cases (lookup k m)) [
  | inr (n, e) ↦ rw (e, or_zero) h
  | inl e ↦ rw (e, or_zero) (Keys-insert ids k 0 m c h)
]

Keys-add_edges :
    (ids : List StageId) (es : List (StageId × StageId)) (g : Graph)
    → Targets ids es
    → Keys ids g.in_degree
    → Keys ids (add_edges g es).in_degree
unfolding add_edges add_edge
Keys-add_edges ids [] g t h = h
Keys-add_edges ids ((d, id) ∷ es) g (c, t) h =
    Keys-add_edges ids es (add_edge g (d, id)) t
      (Keys-adjust ids suc id (or_zero id g.in_degree) (Keys-or_zero ids id g.in_degree c h))

Keys-add_stages :
    (ids : List StageId) (ss : List PipelineStage) (g : Graph)
    → Members ids ss
    → Keys ids g.in_degree
    → Keys ids (add_stages g ss).in_degree
unfolding add_stages
Keys-add_stages ids [] g t h = h
Keys-add_stages ids (s ∷ ss) g (c, t) h = Keys-add_stages ids ss _ t (
    Keys-add_edges ids (edges_of s) _ (Targets-deps ids s.depends_on s.id c)
      (Keys-or_zero ids s.id g.in_degree c h))

sources-Within : (ids : List StageId) (m : List (StageId × ℕ)) → Keys ids m → Within ids (sources m)
sources-Within ids [] h = tt
sources-Within ids ((j, n) ∷ m) (c, h) = elim (Bool-cases (n == 0)) [
  | inl z ↦ rw (z, sources) (c, sources-Within ids m h)
  | inr p ↦ rw (p, sources) (sources-Within ids m h)
]

-- A stage has a number.
abbrev Has : StageId → List (StageId × ℕ) → Type 0
Has x m = (n : ℕ) × (lookup x m ≡ some n)

Has-or_zero : (x k : StageId) (m : List (StageId × ℕ)) → Has x m → Has x (or_zero k m)
unfolding or_zero
Has-or_zero x k m (n, e) = elim (Option-cases (lookup k m)) [
  | inr (v, there) ↦ rw (there, or_zero) (n, e)
  | inl absent ↦
      rw (absent, or_zero)
        (elim (Bool-cases (str_eq k x)) [
          | inl same ↦ (0, lookup-insert k x 0 m ∙ rw same refl)
          | inr other ↦ (n, lookup-insert k x 0 m ∙ rw other e)
        ])
]

or_zero-Has : (k : StageId) (m : List (StageId × ℕ)) → Has k (or_zero k m)
unfolding or_zero
or_zero-Has k m = elim (Option-cases (lookup k m)) [
  | inr (n, e) ↦ (n, rw (e, or_zero) e)
  | inl e ↦ (0, rw (e, or_zero) (lookup-insert k k 0 m ∙ rw (eq_refl k) refl))
]

Has-adjust : (x k : StageId) (f : ℕ → ℕ) (m : List (StageId × ℕ)) → Has x m → Has x (adjust f k m)
Has-adjust x k f m (n, e) = elim (Bool-cases (str_eq k x)) [
  | inl same ↦ (f n, lookup-adjust f k x m ∙ rw (same, e) refl)
  | inr other ↦ (n, lookup-adjust f k x m ∙ rw other e)
]

Has-add_edges :
    (x : StageId) (es : List (StageId × StageId)) (g : Graph)
    → Has x g.in_degree
    → Has x (add_edges g es).in_degree
unfolding add_edges add_edge
Has-add_edges x [] g h = h
Has-add_edges x ((d, id) ∷ es) g h =
    Has-add_edges x es (add_edge g (d, id))
      (Has-adjust x id suc (or_zero id g.in_degree) (Has-or_zero x id g.in_degree h))

Has-add_stages :
    (x : StageId) (ss : List PipelineStage) (g : Graph)
    → Has x g.in_degree ⊎ (contains (ids_of ss) x ≡ true)
    → Has x (add_stages g ss).in_degree
unfolding add_stages
Has-add_stages x [] g (inl h) = h
Has-add_stages x [] g (inr c) = absurd (cc)
Has-add_stages x (s ∷ ss) g (inl h) =
    Has-add_stages x ss _ (inl (Has-add_edges x (edges_of s) _ (Has-or_zero x s.id g.in_degree h)))
Has-add_stages x (s ∷ ss) g (inr c) = elim (Bool-cases (str_eq s.id x)) [
  | inr other ↦ Has-add_stages x ss _ (inr (rw other at c))
  | inl same ↦
      let here : Has x (or_zero s.id g.in_degree) =
        subst (λ k. Has k (or_zero s.id g.in_degree)) ((eq_iff s.id x).0 same)
          (or_zero-Has s.id g.in_degree) in
      Has-add_stages x ss _ (inl (Has-add_edges x (edges_of s) _ here))
]

sources-reaches :
    (x : StageId) (m : List (StageId × ℕ))
    → Has x m
    → degree m x ≡ 0
    → contains (sources m) x ≡ true
unfolding lookup
sources-reaches x [] (n, e) z = absurd (cc)
sources-reaches x ((j, n) ∷ m) h z = elim (Bool-cases (str_eq j x)) [
  | inl same ↦
      let none_left : (n == 0) ≡ true = ground (arith, rw (same, degree, lookup) at z) in
      rw (none_left, sources) (rw same refl)
  | inr other ↦
      let later : contains (sources m) x ≡ true =
        sources-reaches x m (rw (other, lookup) at h) (rw (other, degree, lookup) at z) in
      elim (Bool-cases (n == 0)) [
        | inl none_left ↦ rw (none_left, sources) (ground (arith, later))
        | inr some_left ↦ rw (some_left, sources) later
      ]
]

-- The loop of `topological_sort` on what its first loop has made.
pub sorted :
    (stages : List PipelineStage)
    → let g = add_stages empty_graph stages in
      Sorts
        (all_edges stages)
        (ids_of stages)
        (sort_loop (length g.in_degree) g.dependents g.in_degree (sources g.in_degree) [])
unfolding lookup
sorted stages =
    let g = add_stages empty_graph stages in
    let d : Distinct g.in_degree = Distinct-add_stages stages empty_graph tt in
    let members = all-Members stages in
    sort_loop-Sorts (length g.in_degree) (all_edges stages) g.dependents g.in_degree
      (sources g.in_degree) [] (ids_of stages)
      (λ x.
        reached-Within (ids_of stages) (all_edges stages) x
          (Targets-all_edges (ids_of stages) stages members))
      (sources-Within (ids_of stages) g.in_degree
        (Keys-add_stages (ids_of stages) stages empty_graph members tt))
      (λ x member. sources-reaches x g.in_degree (Has-add_stages x stages empty_graph (inr member)))
      (λ x. (add_stages_lem stages empty_graph x).1)
      (λ x. (add_stages_lem stages empty_graph x).0 ∙ omega arith) (sources-Settled g.in_degree d)
      (sources-NoDup g.in_degree d) tt (fuel_enough g.in_degree)
