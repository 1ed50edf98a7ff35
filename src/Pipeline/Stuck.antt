-- ===== src/Pipeline/Stuck.antt =====
-- What an order of the stages of a pipeline is, and stages for which there is none.
use cuartel.Common.{
  ℕ, ◌+◌, ◌<◌, ◌≡◌, ◌≢◌, ◌⊎◌, refl, sym, ap, ◌∙◌, Bool, true, false, not, ◌&&◌, List, [], ◌∷◌, ◌++◌,
  map, any, select, str_eq, eq_iff, eq_refl, arith, Bool-cases, inl, inr, ◌==◌,
}
use cuartel.Pipeline.Defs.{StageId, PipelineStage, Result, ok, err, cycle_detected, contains}
use cuartel.Pipeline.Topo.{edges_of}
use cuartel.Pipeline.Degrees.{all_edges, needs, append_assoc, contains-append, needs-append}
use cuartel.Pipeline.Settled.{NoDup, true_is_no_false}
use cuartel.Pipeline.Relaxed.{Within}
use cuartel.Pipeline.Members.{ids_of}

-- Whether a stage of the given id names a stage among its dependencies.
abbrev pub depends : List PipelineStage → StageId → StageId → Bool
depends stages x d = any (λ s. str_eq s.id x && contains s.depends_on d) stages

-- Wherever a stage stands in the order, its dependencies stand before it.
abbrev pub DependenciesFirst : List PipelineStage → List StageId → Type 0
DependenciesFirst stages order =
    (before after : List StageId) (x d : StageId)
    → order ≡ before ++ x ∷ after
    → depends stages x d ≡ true
    → contains before d ≡ true

one_is_no_zero : (n : ℕ) → ¬ (1 + n ≡ 0)
one_is_no_zero n h = absurd (omega arith)

and_true : (p q : Bool) → (p && q) ≡ true → (p ≡ true) × (q ≡ true)
and_true p q h = ground arith

needs-stage :
    (id x d : StageId) (deps done : List StageId)
    → needs (map (λ dep. (dep, id)) deps) done x ≡ 0
    → str_eq id x ≡ true
    → contains deps d ≡ true
    → contains done d ≡ true
needs-stage id x d [] done z h c = absurd (true_is_no_false (sym c))
needs-stage id x d (e ∷ deps) done z h c = elim (Bool-cases (str_eq e d)) [
  | inr other ↦ needs-stage id x d deps done (omega arith) h (rw other at c)
  | inl same ↦ elim (Bool-cases (contains done e)) [
    | inl there ↦ ap (contains done) (sym ((eq_iff e d).0 same)) ∙ there
    | inr missing ↦
        absurd (one_is_no_zero (needs (map (λ dep. (dep, id)) deps) done x) (rw (h, missing) at z))
  ]
]

pub needs-depends :
    (stages : List PipelineStage) (done : List StageId) (x d : StageId)
    → needs (all_edges stages) done x ≡ 0
    → depends stages x d ≡ true
    → contains done d ≡ true
needs-depends [] done x d z h = absurd (true_is_no_false (sym h))
needs-depends (s ∷ ss) done x d z h =
    let split = needs-append (edges_of s) (all_edges ss) done x in
    elim (Bool-cases (str_eq s.id x && contains s.depends_on d)) [
      | inr other ↦ needs-depends ss done x d (omega arith) (rw other at h)
      | inl here ↦
          let (a, b) = and_true (str_eq s.id x) (contains s.depends_on d) here in
          needs-stage s.id x d s.depends_on done (omega arith) a b
    ]

-- A dependency that is missing is what a stage needs.
missing_dep :
    (id x : StageId) (deps done : List StageId)
    → 0 < needs (map (λ dep. (dep, id)) deps) done x
    → (str_eq id x ≡ true) × (d : StageId) × (contains deps d ≡ true) × (contains done d ≡ false)
missing_dep id x [] done p = absurd (omega arith)
missing_dep id x (e ∷ deps) done p = elim (Bool-cases (str_eq id x)) [
  | inr other ↦
      let (same, d, member, absent) = missing_dep id x deps done (omega (arith, rw other at p)) in
      absurd (true_is_no_false (sym same ∙ other))
  | inl same ↦ elim (Bool-cases (contains done e)) [
    | inr absent ↦ (same, e, rw (eq_refl e) refl, absent)
    | inl there ↦
        let (s, d, member, absent) =
          missing_dep id x deps done (omega (arith, rw (same, there) at p)) in
        (s, d, ground (arith, member), absent)
  ]
]

pub missing_dependency :
    (stages : List PipelineStage) (done : List StageId) (x : StageId)
    → 0 < needs (all_edges stages) done x
    → (d : StageId) × (depends stages x d ≡ true) × (contains done d ≡ false)
missing_dependency [] done x p = absurd (omega arith)
missing_dependency (s ∷ ss) done x p =
    let split = needs-append (edges_of s) (all_edges ss) done x in
    elim (Bool-cases (needs (edges_of s) done x == 0)) [
      | inr here ↦
          let (same, d, member, absent) =
            missing_dep s.id x s.depends_on done (ground (arith, here)) in
          (d, rw (same, member) refl, absent)
      | inl none_here ↦
          let (d, later, absent) = missing_dependency ss done x (ground (arith, split)) in
          (d, ground (arith, later), absent)
    ]

-- Each stage once, and its dependencies before it.
abbrev pub IsOrder : List PipelineStage → List StageId → Type 0
IsOrder stages order =
    NoDup order
    × Within (ids_of stages) order
    × Within order (ids_of stages)
    × DependenciesFirst stages order

-- Each of the stages depends on another one of them, or on an id that is no stage.
abbrev pub Stuck : List PipelineStage → List StageId → Type 0
Stuck stages ids =
    (x : StageId)
    → contains ids x ≡ true
    → (contains (ids_of stages) x ≡ true)
      × (d : StageId) × (depends stages x d ≡ true)
      × ((contains ids d ≡ true) ⊎ (contains (ids_of stages) d ≡ false))

abbrev pub Outcome : List PipelineStage → Result (List StageId) → Type 0
Outcome stages r =
    ((order : List StageId) × (r ≡ ok order) × IsOrder stages order)
    ⊎ ((ids : List StageId) × (r ≡ err (cycle_detected ids))
        × (ids ≢ [])
        × Stuck stages ids
        × ((order : List StageId) → IsOrder stages order → ⊥))

Within-at :
    (ids l : List StageId) (x : StageId)
    → Within ids l
    → contains l x ≡ true
    → contains ids x ≡ true
Within-at ids [] x w c = absurd (cc)
Within-at ids (y ∷ l) x (a, w) c = elim (Bool-cases (str_eq y x)) [
  | inl same ↦ ap (contains ids) (sym ((eq_iff y x).0 same)) ∙ a
  | inr other ↦ Within-at ids l x w (rw other at c)
]

-- From each member to the whole list.
pub each-Within :
    (ids l : List StageId)
    → ((x : StageId) → contains l x ≡ true → contains ids x ≡ true)
    → Within ids l
each-Within ids [] h = tt
each-Within ids (y ∷ l) h =
    (h y (rw (eq_refl y) refl), each-Within ids l (λ x c. h x (ground (arith, c))))

-- No stage of an order is stuck.
unstuck :
    (stages : List PipelineStage) (ids order : List StageId)
    → IsOrder stages order
    → Stuck stages ids
    → (before rest : List StageId) → order ≡ before ++ rest
    → ((x : StageId) → contains before x ≡ true → contains ids x ≡ false)
    → (x : StageId) → contains rest x ≡ true
    → contains ids x ≡ false
unstuck stages ids order o stuck before [] e h x c = absurd (cc)
unstuck stages ids order o stuck before (y ∷ rest) e h x c =
    let (n, known, whole, first) = o in
    let here : contains ids y ≡ false = elim (Bool-cases (contains ids y)) [
      | inr free ↦ free
      | inl bound ↦
          let (member, d, needed, why) = stuck y bound in
          let earlier : contains before d ≡ true = first before rest y d e needed in
          elim why [
            | inl again ↦ absurd (true_is_no_false (sym again ∙ h d earlier))
            | inr foreign ↦
                let placed : contains order d ≡ true =
                  ap (λ l. contains l d) e
                  ∙ contains-append before (y ∷ rest) d
                  ∙ rw earlier refl in
                absurd (
                  true_is_no_false (sym (Within-at (ids_of stages) order d known placed) ∙ foreign))
          ]
    ] in
    elim (Bool-cases (str_eq y x)) [
      | inl same ↦ ap (contains ids) (sym ((eq_iff y x).0 same)) ∙ here
      | inr other ↦
          unstuck stages ids order o stuck (before ++ y ∷ []) rest
            (e ∙ sym (append_assoc before (y ∷ []) rest))
            (λ z there. elim (Bool-cases (contains before z)) [
              | inl old ↦ h z old
              | inr new ↦
                  let at_y : str_eq y z ≡ true =
                    ground (arith, sym (contains-append before (y ∷ []) z) ∙ there) in
                  ap (contains ids) (sym ((eq_iff y z).0 at_y)) ∙ here
            ])
            x (rw other at c)
    ]

pub no_order :
    (stages : List PipelineStage) (ids : List StageId)
    → ids ≢ []
    → Stuck stages ids
    → (order : List StageId) → IsOrder stages order
    → ⊥
no_order stages [] filled stuck order o = filled refl
no_order stages (x ∷ ids) filled stuck order o =
    let bound : contains (x ∷ ids) x ≡ true = rw (eq_refl x) refl in
    let placed : contains order x ≡ true =
      Within-at order (ids_of stages) x o.2 (stuck x bound).0 in
    true_is_no_false (
      sym bound
      ∙ unstuck stages (x ∷ ids) order o stuck [] order refl (λ z there. absurd (cc)) x placed)

-- The stages that are not in an order.
abbrev pub left_out : List PipelineStage → List StageId → List StageId
left_out stages order = ids_of (select (λ s. not (contains order s.id)) stages)

pub left_out_sound :
    (stages : List PipelineStage) (order : List StageId) (x : StageId)
    → contains (left_out stages order) x ≡ true
    → (contains (ids_of stages) x ≡ true) × (contains order x ≡ false)
left_out_sound [] order x c = absurd (cc)
left_out_sound (s ∷ ss) order x c = elim (Bool-cases (contains order s.id)) [
  | inl there ↦
      let (member, absent) = left_out_sound ss order x (rw (there, select) at c) in
      (ground (arith, member), absent)
  | inr out ↦ elim (Bool-cases (str_eq s.id x)) [
    | inl same ↦ (rw same refl, ap (contains order) (sym ((eq_iff s.id x).0 same)) ∙ out)
    | inr other ↦
        let (member, absent) = left_out_sound ss order x (rw other at (rw (out, select) at c)) in
        (ground (arith, member), absent)
  ]
]

pub left_out_complete :
    (stages : List PipelineStage) (order : List StageId) (x : StageId)
    → contains (ids_of stages) x ≡ true
    → contains order x ≡ false
    → contains (left_out stages order) x ≡ true
left_out_complete [] order x c absent = absurd (cc)
left_out_complete (s ∷ ss) order x c absent = elim (Bool-cases (str_eq s.id x)) [
  | inl same ↦
      let out : contains order s.id ≡ false =
        ap (contains order) ((eq_iff s.id x).0 same) ∙ absent in
      rw (out, select) (rw same refl)
  | inr other ↦
      let later = left_out_complete ss order x (rw other at c) absent in
      elim (Bool-cases (contains order s.id)) [
        | inl there ↦ rw (there, select) later
        | inr out ↦ rw (out, select) (ground (arith, later))
      ]
]
