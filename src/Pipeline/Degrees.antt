-- ===== src/Pipeline/Degrees.antt =====
-- What the maps of `topological_sort` hold: for each stage the count of its dependencies, and for
-- each dependency the stages that have it.
use cuartel.Common.{
  ℕ, suc, ◌+◌, ◌≡◌, refl, sym, ap, ◌∙◌, Bool, true, false, ◌||◌, Option, none, some, List, [], ◌∷◌,
  ◌++◌, str_eq, eq_iff, eq_refl, if◌then◌else◌, arith, Bool-cases, Option-cases, inl, inr,
}
use mathlib.Core.Option
use cuartel.Common.Dict.{lookup, adjust, lookup-insert, lookup-adjust}
use cuartel.Pipeline.Defs.{StageId, PipelineStage, contains}
use cuartel.Pipeline.Topo.{Graph, or_zero, targets, add_edge, add_edges, edges_of, add_stages}

-- The number under a key, 0 if there is none.
abbrev pub or0 : Option ℕ → ℕ
or0 none = 0
or0 (some n) = n

abbrev pub degree : List (StageId × ℕ) → StageId → ℕ
degree m x = or0 (lookup x m)

abbrev pub all_edges : List PipelineStage → List (StageId × StageId)
all_edges [] = []
all_edges (s ∷ ss) = edges_of s ++ all_edges ss

-- How many edges lead to a stage, from dependencies that are not in the list.
abbrev pub needs : List (StageId × StageId) → List StageId → StageId → ℕ
needs [] done x = 0
needs ((d, t) ∷ es) done x =
    (if str_eq t x then (if contains done d then 0 else 1) else 0) + needs es done x

-- The stages that the edges from a dependency lead to.
abbrev pub reached : List (StageId × StageId) → StageId → List StageId
reached [] d = []
reached ((e, t) ∷ es) d = if str_eq e d then t ∷ reached es d else reached es d

-- How often a stage stands in a list.
abbrev pub times : List StageId → StageId → ℕ
times [] x = 0
times (y ∷ ys) x = (if str_eq y x then 1 else 0) + times ys x

pub append-nil {ℓ} : {A : Type ℓ} (xs : List A) → xs ++ [] ≡ xs
append-nil [] = refl
append-nil (x ∷ xs) = ap (λ r. x ∷ r) (append-nil xs)

pub append_assoc {ℓ} : {A : Type ℓ} (xs ys zs : List A) → (xs ++ ys) ++ zs ≡ xs ++ (ys ++ zs)
append_assoc [] ys zs = refl
append_assoc (x ∷ xs) ys zs = ap (λ r. x ∷ r) (append_assoc xs ys zs)

pub at_same {ℓ} :
    {A : Type ℓ} (id x : StageId) (m : List (StageId × A)) → id ≡ x → lookup id m ≡ lookup x m
at_same id x m e = ap (λ k. lookup k m) e

degree-or_zero : (id x : StageId) (m : List (StageId × ℕ)) → degree (or_zero id m) x ≡ degree m x
unfolding or_zero
degree-or_zero id x m = elim (Option-cases (lookup id m)) [
  | inr (n, e) ↦ rw (e, or_zero) refl
  | inl e ↦
      rw (e, or_zero)
        (ap or0 (lookup-insert id x 0 m) ∙ elim (Bool-cases (str_eq id x)) [
          | inl same ↦ rw same (sym (ap or0 (sym (at_same id x m ((eq_iff id x).0 same)) ∙ e)))
          | inr other ↦ rw other refl
        ])
]

present-or_zero :
    (id : StageId) (m : List (StageId × ℕ)) → (n : ℕ) × (lookup id (or_zero id m) ≡ some n)
unfolding or_zero
present-or_zero id m = elim (Option-cases (lookup id m)) [
  | inr (n, e) ↦ (n, rw (e, or_zero) e)
  | inl e ↦ (0, rw (e, or_zero) (lookup-insert id id 0 m ∙ rw (eq_refl id) refl))
]

pub degree-adjust :
    (f : ℕ → ℕ) (t x : StageId) (m : List (StageId × ℕ)) (n : ℕ)
    → lookup t m ≡ some n
    → degree (adjust f t m) x ≡ (if str_eq t x then f n else degree m x)
degree-adjust f t x m n e = ap or0 (lookup-adjust f t x m) ∙ elim (Bool-cases (str_eq t x)) [
  | inl same ↦
      rw same (ap (λ o. or0 (Option.map f o)) (sym (at_same t x m ((eq_iff t x).0 same)) ∙ e))
  | inr other ↦ rw other refl
]

degree-add_edge :
    (g : Graph) (d t x : StageId)
    → degree (add_edge g (d, t)).in_degree x ≡ (if str_eq t x then 1 else 0) + degree g.in_degree x
unfolding add_edge
degree-add_edge g d t x =
    let m = or_zero t g.in_degree in
    let (n, e) = present-or_zero t g.in_degree in
    degree-adjust suc t x m n e ∙ elim (Bool-cases (str_eq t x)) [
      | inl same ↦
          let same_degree : n ≡ degree g.in_degree x =
            sym (ap or0 e)
            ∙ ap or0 (at_same t x m ((eq_iff t x).0 same))
            ∙ degree-or_zero t x g.in_degree in
          rw same (omega arith)
      | inr other ↦ rw other (degree-or_zero t x g.in_degree ∙ omega arith)
    ]

abbrev or_nil : Option (List StageId) → List StageId
or_nil none = []
or_nil (some ids) = ids

targets-add_edge :
    (g : Graph) (d t x : StageId)
    → targets (add_edge g (d, t)).dependents x
      ≡ targets g.dependents x ++ (if str_eq d x then t ∷ [] else [])
unfolding add_edge
targets-add_edge g d t x =
    ap or_nil (lookup-insert d x (targets g.dependents d ++ t ∷ []) g.dependents)
    ∙ elim (Bool-cases (str_eq d x)) [
      | inl same ↦
          rw same (ap (λ o. or_nil o ++ t ∷ []) (at_same d x g.dependents ((eq_iff d x).0 same)))
      | inr other ↦ rw other (sym (append-nil (targets g.dependents x)))
    ]

add_edges_lem :
    (es : List (StageId × StageId)) (g : Graph) (x : StageId)
    → (degree (add_edges g es).in_degree x ≡ degree g.in_degree x + needs es [] x)
      × (targets (add_edges g es).dependents x ≡ targets g.dependents x ++ reached es x)
unfolding add_edges
add_edges_lem [] g x = (omega arith, sym (append-nil (targets g.dependents x)))
add_edges_lem ((d, t) ∷ es) g x =
    let (a, b) = add_edges_lem es (add_edge g (d, t)) x in
    (
      omega (arith, degree-add_edge g d t x),
      b
          ∙ ap (λ l. l ++ reached es x) (targets-add_edge g d t x)
          ∙ append_assoc (targets g.dependents x) (if str_eq d x then t ∷ [] else []) (reached es x)
          ∙ ap (λ l. targets g.dependents x ++ l)
              (elim (Bool-cases (str_eq d x)) [
                | inl same ↦ rw same refl
                | inr other ↦ rw other refl
              ]),
    )

pub needs-append :
    (es fs : List (StageId × StageId)) (done : List StageId) (x : StageId)
    → needs (es ++ fs) done x ≡ needs es done x + needs fs done x
needs-append [] fs done x = omega arith
needs-append ((d, t) ∷ es) fs done x = omega (arith, needs-append es fs done x)

reached-append :
    (es fs : List (StageId × StageId)) (x : StageId)
    → reached (es ++ fs) x ≡ reached es x ++ reached fs x
reached-append [] fs x = refl
reached-append ((d, t) ∷ es) fs x = elim (Bool-cases (str_eq d x)) [
  | inl same ↦ rw same (ap (λ l. t ∷ l) (reached-append es fs x))
  | inr other ↦ rw other (reached-append es fs x)
]

-- The maps of a list of stages.
pub add_stages_lem :
    (ss : List PipelineStage) (g : Graph) (x : StageId)
    → (degree (add_stages g ss).in_degree x ≡ degree g.in_degree x + needs (all_edges ss) [] x)
      × (targets (add_stages g ss).dependents x
          ≡ targets g.dependents x ++ reached (all_edges ss) x)
unfolding add_stages
add_stages_lem [] g x = (omega arith, sym (append-nil (targets g.dependents x)))
add_stages_lem (s ∷ ss) g x =
    let h : Graph = record g { in_degree = or_zero s.id g.in_degree } in
    let (a, b) = add_edges_lem (edges_of s) h x in
    let (c, e) = add_stages_lem ss (add_edges h (edges_of s)) x in
    (
      omega
          (arith, degree-or_zero s.id x g.in_degree, needs-append (edges_of s) (all_edges ss) [] x),
      e
          ∙ ap (λ l. l ++ reached (all_edges ss) x) b
          ∙ append_assoc (targets g.dependents x) (reached (edges_of s) x)
              (reached (all_edges ss) x)
          ∙ ap (λ l. targets g.dependents x ++ l)
              (sym (reached-append (edges_of s) (all_edges ss) x)),
    )

pub contains-append :
    (xs ys : List StageId) (x : StageId) → contains (xs ++ ys) x ≡ (contains xs x || contains ys x)
contains-append [] ys x = refl
contains-append (y ∷ xs) ys x = elim (Bool-cases (str_eq y x)) [
  | inl e ↦ rw e refl
  | inr e ↦ rw e (contains-append xs ys x)
]

or_false : (b : Bool) → (b || (false || false)) ≡ b
or_false true = refl
or_false false = refl

pub apart : (id d : StageId) → str_eq d id ≡ false → str_eq id d ≡ false
apart id d h = ground (arith, eq_iff d id, eq_iff id d)

-- One more stage in the order takes away the edges that lead from it.
pub needs-next :
    (es : List (StageId × StageId)) (order : List StageId) (id x : StageId)
    → contains order id ≡ false
    → needs es order x ≡ needs es (order ++ id ∷ []) x + times (reached es id) x
needs-next [] order id x h = omega arith
needs-next ((d, t) ∷ es) order id x h = elim (Bool-cases (str_eq d id)) [
  | inl same ↦
      let at : d ≡ id = (eq_iff d id).0 same in
      let fresh : contains order d ≡ false = ap (contains order) at ∙ h in
      let there : contains (order ++ id ∷ []) d ≡ true =
        contains-append order (id ∷ []) d ∙ rw (fresh, at) (rw (eq_refl id) refl) in
      rw (same, fresh, there)
        (elim (Bool-cases (str_eq t x)) [
          | inl hit ↦ rw hit (omega (arith, needs-next es order id x h))
          | inr miss ↦ rw miss (omega (arith, needs-next es order id x h))
        ])
  | inr other ↦
      let still : contains (order ++ id ∷ []) d ≡ contains order d =
        contains-append order (id ∷ []) d ∙ rw (apart id d other) (or_false (contains order d)) in
      rw (other, still) (omega (arith, needs-next es order id x h))
]
