-- ===== src/Pipeline/Sorted.antt =====
-- `topological_sort` as a whole: it returns an order of all stages with dependencies first, or an
-- error exactly if there is none.
use cuartel.Common.{
  suc, ◌<◌, ◌≡◌, ◌≢◌, refl, sym, ap, ◌∙◌, subst, true, some, List, [], ◌∷◌, ◌++◌, length, arith,
  Bool-cases, inl, inr, ◌==◌,
}
use cuartel.Pipeline.Defs.{StageId, PipelineStage, Result, contains}
use cuartel.Pipeline.Topo.{check_order, topological_sort}
use cuartel.Pipeline.Degrees.{all_edges, needs, append-nil, append_assoc}
use cuartel.Pipeline.Settled.{NoDup, true_is_no_false}
use cuartel.Pipeline.Relaxed.{Within}
use cuartel.Pipeline.Order.{Ordered}
use cuartel.Pipeline.Members.{ids_of, sorted}
use cuartel.Pipeline.Longest.{length-Within}
use cuartel.Pipeline.Stuck.{
  DependenciesFirst, Stuck, Outcome, needs-depends, missing_dependency, no_order, each-Within,
  left_out, left_out_sound, left_out_complete,
}

Ordered-at :
    (es : List (StageId × StageId)) (done before after : List StageId) (x : StageId)
    → Ordered es done (before ++ x ∷ after)
    → needs es (done ++ before) x ≡ 0
Ordered-at es done [] after x (z, o) = ap (λ l. needs es l x) (append-nil done) ∙ z
Ordered-at es done (y ∷ before) after x (z, o) =
    ap (λ l. needs es l x) (sym (append_assoc done (y ∷ []) before))
    ∙ Ordered-at es (done ++ y ∷ []) before after x o

-- The order of the loop has every stage, if it has as many.
whole :
    (stages : List PipelineStage) (order : List StageId)
    → NoDup order
    → Within (ids_of stages) order
    → length order ≡ length (ids_of stages)
    → Within order (ids_of stages)
whole stages order n w same = each-Within order (ids_of stages) (λ x member.
    elim (Bool-cases (contains order x)) [
      | inl there ↦ there
      | inr absent ↦
          let longer = length-Within (x ∷ order) (ids_of stages) (absent, n) (member, w) in
          absurd (omega (arith, longer, same))
    ])

-- Fewer stages in the order leave some out.
some_left_out :
    (stages : List PipelineStage) (order : List StageId)
    → NoDup order
    → NoDup (ids_of stages)
    → Within (ids_of stages) order
    → length order ≢ length (ids_of stages)
    → left_out stages order ≢ []
some_left_out stages order n u w differ none_out =
    let all : Within order (ids_of stages) = each-Within order (ids_of stages) (λ x member.
      elim (Bool-cases (contains order x)) [
        | inl there ↦ there
        | inr absent ↦ absurd (
            true_is_no_false (
              sym (left_out_complete stages order x member absent)
              ∙ ap (λ l. contains l x) none_out))
      ]) in
    let a = length-Within order (ids_of stages) n w in
    let b = length-Within (ids_of stages) order u all in differ (omega (arith, a, b))

length-ids_of : (stages : List PipelineStage) → length (ids_of stages) ≡ length stages
length-ids_of [] = refl
length-ids_of (s ∷ ss) = ap suc (length-ids_of ss)

left_out-Stuck :
    (stages : List PipelineStage) (order : List StageId)
    → ((x : StageId)
        → contains (ids_of stages) x ≡ true
        → needs (all_edges stages) order x ≡ 0
        → contains order x ≡ true)
    → Stuck stages (left_out stages order)
left_out-Stuck stages order reaches x c =
    let (member, absent) = left_out_sound stages order x c in
    let needy : 0 < needs (all_edges stages) order x =
      elim (Bool-cases (needs (all_edges stages) order x == 0)) [
        | inl z ↦ absurd (true_is_no_false (sym (reaches x member (ground arith)) ∙ absent))
        | inr p ↦ ground arith
      ] in
    let (d, needed, missing) = missing_dependency stages order x needy in
    (
      member,
      d,
      needed,
      elim (Bool-cases (contains (ids_of stages) d)) [
        | inl stage ↦ inl (left_out_complete stages order d stage missing)
        | inr foreign ↦ inr foreign
      ],
    )

check_order-Outcome :
    (stages : List PipelineStage) (order : List StageId)
    → NoDup (ids_of stages)
    → NoDup order
    → Within (ids_of stages) order
    → DependenciesFirst stages order
    → Stuck stages (left_out stages order)
    → Outcome stages (check_order stages order)
unfolding check_order
check_order-Outcome stages order u n w first stuck =
    let count = length-ids_of stages in
    elim (Bool-cases (length order == length stages)) [
      | inl same ↦
          rw (same, check_order, Outcome)
            (inl (order, refl, (n, w, whole stages order n w (ground (arith, count)), first)))
      | inr fewer ↦
          let out = some_left_out stages order n u w (λ e. ground (arith, count)) in
          rw (fewer, check_order, Outcome)
            (inr (
              left_out stages order,
              refl,
              out,
              stuck,
              no_order stages (left_out stages order) out stuck,
            ))
    ]

-- For stages with different ids, `topological_sort` returns without a panic. Its result is an order
-- that has each stage once, no other id, and each stage behind all its dependencies; or it is the
-- error `CycleDetected`, and then there is no such order: the error names some of the stages, each
-- of which depends on another one of them or on an id that is no stage.
pub topological_sort-sorts :
    (stages : List PipelineStage)
    → NoDup (ids_of stages)
    → (r : Result (List StageId)) × (topological_sort stages ≡ some r) × Outcome stages r
unfolding topological_sort
topological_sort-sorts stages u =
    let s = sorted stages in
    (
      check_order stages s.order,
      rw (s.returned, topological_sort) refl,
      check_order-Outcome stages s.order u s.distinct s.within
          (λ before after x d e h.
            needs-depends stages before x d
              (Ordered-at (all_edges stages) [] before after x
                (subst (Ordered (all_edges stages) []) e s.ordered))
              h)
          (left_out-Stuck stages s.order s.reaches),
    )
