-- ===== src/Pipeline/Sources.antt =====
-- The stages with which `topological_sort` begins: no number is above zero, and none stands twice.
use cuartel.Common.{
  ℕ, suc, ◌+◌, ◌≤◌, ◌≡◌, ◌≢◌, refl, sym, ◌∙◌, true, false, none, some, List, [], ◌∷◌, str_eq,
  eq_iff, eq_refl, length, arith, Bool-cases, Option-cases, inl, inr, ◌==◌,
}
use cuartel.Common.Dict.{lookup, Absent, Distinct, Distinct-insert, Distinct-adjust}
use cuartel.Pipeline.Defs.{StageId, PipelineStage, contains}
use cuartel.Pipeline.Topo.{Graph, or_zero, add_edge, add_edges, edges_of, add_stages, sources}
use cuartel.Pipeline.Degrees.{degree, apart}
use cuartel.Pipeline.Settled.{NoDup, Settled, positive}

some_is_no_none {ℓ} : {A : Type ℓ} {a : A} → ¬ (some a ≡ none)
some_is_no_none h = cc

true_is_no_false : ¬ (true ≡ false)
true_is_no_false h = cc

apart_str : (i j : StageId) → i ≢ j → str_eq i j ≡ false
apart_str i j d = elim (Bool-cases (str_eq i j)) [
  | inl e ↦ absurd (d ((eq_iff i j).0 e))
  | inr e ↦ e
]

lookup-none-Absent {ℓ} :
    {A : Type ℓ} (k : StageId) (m : List (StageId × A)) → lookup k m ≡ none → Absent k m
unfolding lookup
lookup-none-Absent k [] e = tt
lookup-none-Absent k ((j, v) ∷ m) e = elim (Bool-cases (str_eq j k)) [
  | inl same ↦ absurd (some_is_no_none (rw (same, lookup) at e))
  | inr other ↦ (
    λ p. true_is_no_false (sym ((eq_iff j k).1 p) ∙ other),
    lookup-none-Absent k m (rw (other, lookup) at e),
  )
]

Distinct-or_zero : (id : StageId) (m : List (StageId × ℕ)) → Distinct m → Distinct (or_zero id m)
unfolding or_zero
Distinct-or_zero id m d = elim (Option-cases (lookup id m)) [
  | inr (n, e) ↦ rw (e, or_zero) d
  | inl e ↦ rw (e, or_zero) (Distinct-insert id 0 m (lookup-none-Absent id m e) d)
]

Distinct-add_edges :
    (es : List (StageId × StageId)) (g : Graph)
    → Distinct g.in_degree
    → Distinct (add_edges g es).in_degree
unfolding add_edges add_edge
Distinct-add_edges [] g d = d
Distinct-add_edges ((dep, id) ∷ es) g d =
    Distinct-add_edges es (add_edge g (dep, id))
      (Distinct-adjust suc id (or_zero id g.in_degree) (Distinct-or_zero id g.in_degree d))

pub Distinct-add_stages :
    (ss : List PipelineStage) (g : Graph)
    → Distinct g.in_degree
    → Distinct (add_stages g ss).in_degree
unfolding add_stages
Distinct-add_stages [] g d = d
Distinct-add_stages (s ∷ ss) g d =
    Distinct-add_stages ss _
      (Distinct-add_edges (edges_of s) _ (Distinct-or_zero s.id g.in_degree d))

sources-Absent :
    (j : StageId) (m : List (StageId × ℕ)) → Absent j m → contains (sources m) j ≡ false
sources-Absent j [] a = refl
sources-Absent j ((i, n) ∷ m) (d, a) = elim (Bool-cases (n == 0)) [
  | inl z ↦ rw (z, sources) (rw (apart_str i j d) (sources-Absent j m a))
  | inr p ↦ rw (p, sources) (sources-Absent j m a)
]

Settled-cons :
    (j : StageId) (n : ℕ) (m : List (StageId × ℕ)) (l : List StageId)
    → contains l j ≡ false
    → Settled m l
    → Settled ((j, n) ∷ m) l
unfolding lookup
Settled-cons j n m [] c s = tt
Settled-cons j n m (q ∷ l) c (z, s) = elim (Bool-cases (str_eq q j)) [
  | inl same ↦ absurd (true_is_no_false (rw same at c))
  | inr other ↦ (rw (apart j q other, degree, lookup) z, Settled-cons j n m l (rw other at c) s)
]

pub sources-Settled : (m : List (StageId × ℕ)) → Distinct m → Settled m (sources m)
unfolding lookup
sources-Settled [] d = tt
sources-Settled ((j, n) ∷ m) (a, d) =
    let rest = Settled-cons j n m (sources m) (sources-Absent j m a) (sources-Settled m d) in
    elim (Bool-cases (n == 0)) [
      | inr p ↦ rw (p, sources) rest
      | inl z ↦ rw (z, sources) (rw (eq_refl j, degree, lookup) (ground arith), rest)
    ]

pub sources-NoDup : (m : List (StageId × ℕ)) → Distinct m → NoDup (sources m)
sources-NoDup [] d = tt
sources-NoDup ((j, n) ∷ m) (a, d) = elim (Bool-cases (n == 0)) [
  | inr p ↦ rw (p, sources) (sources-NoDup m d)
  | inl z ↦ rw (z, sources) (sources-Absent j m a, sources-NoDup m d)
]

pub fuel_enough : (m : List (StageId × ℕ)) → positive m + length (sources m) ≤ length m
fuel_enough [] = omega arith
fuel_enough ((j, n) ∷ m) = elim (Bool-cases (n == 0)) [
  | inl z ↦ rw (z, sources, positive) (ground (arith, fuel_enough m))
  | inr p ↦ rw (p, sources, positive) (ground (arith, fuel_enough m))
]
