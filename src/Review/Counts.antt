-- ===== src/Review/Counts.antt =====
-- How many actions and skipped paths a plan has, and what its execution reports.
use cuartel.Common.{
  ℕ, suc, ◌+◌, ◌≤◌, ◌≡◌, refl, ap, ◌∙◌, subst, Bool, true, false, not, Option, none, some, List, [],
  ◌∷◌, String, length, length-append, get_elem?, if◌then◌else◌, ◌⊎◌, inl, inr, Bool-cases,
  Option-cases, arith,
}
use cuartel.Review.Defs.{Text, is_empty, apply_hunks}
use cuartel.Review.Plan.{
  DiffKind, added, modified, deleted, FileDiff, FileReview, ReviewAction, write, delete, ReviewPlan,
  Planned, plan, out_of_range, unreadable, panicked, push_action, skip, ◌>>=◌, plan_modified,
  plan_accepted, plan_one, plan_from, plan_review, ExecutionReport, execute_from, execute_review,
}

-- Whether an accepted diff changes its file: all but a binary change do.
abbrev changes : FileDiff → Bool
changes diff = elim diff.kind [ modified ↦ not diff.binary | added ↦ true | deleted ↦ true ]

-- Whether a decision changes its file.
abbrev pub takes : List FileDiff → FileReview → Bool
takes diffs d = elim (get_elem? diffs d.file_index) [
  | none ↦ false
  | some diff ↦ if is_empty d.accepted_hunks then false else changes diff
]

abbrev pub taken : List FileDiff → List FileReview → ℕ
taken diffs [] = 0
taken diffs (d ∷ ds) = (if takes diffs d then 1 else 0) + taken diffs ds

abbrev pub left : List FileDiff → List FileReview → ℕ
left diffs [] = 0
left diffs (d ∷ ds) = (if takes diffs d then 0 else 1) + left diffs ds

module _ (read : String → Option Text) where
  abbrev Failed : Planned → Type 0
  Failed (plan p) = ⊥
  Failed (out_of_range i) = Unit
  Failed (unreadable s) = Unit
  Failed panicked = Unit

  not_plan : (r : Planned) (p : ReviewPlan) → Failed r → ¬ (r ≡ plan p)
  not_plan r p f e = subst Failed e f

  -- From one plan to the next with one action more, or one skipped path.
  Grows : ReviewPlan → ReviewPlan → Bool → Type 0
  Grows p p' b =
      (length p'.actions ≡ length p.actions + (if b then 1 else 0))
      × (length p'.skipped ≡ length p.skipped + (if b then 0 else 1))

  plan_inj : {p q : ReviewPlan} → plan p ≡ plan q → p ≡ q
  plan_inj {p} h =
      ap (λ r. elim r [ plan x ↦ x | out_of_range i ↦ p | unreadable s ↦ p | panicked ↦ p ]) h

  pushed : (p p' : ReviewPlan) (a : ReviewAction) → push_action p a ≡ plan p' → Grows p p' true
  unfolding Grows
  pushed p p' a e =
      subst (λ q. Grows p q true) (plan_inj e)
        (length-append p.actions (a ∷ []) ∙ omega arith, omega arith)

  skipped_one : (p p' : ReviewPlan) (path : String) → skip p path ≡ plan p' → Grows p p' false
  unfolding Grows
  skipped_one p p' path e =
      subst (λ q. Grows p q false) (plan_inj e)
        (omega arith, length-append p.skipped (path ∷ []) ∙ omega arith)

  plan_modified-Grows :
      (diff : FileDiff) (accepted : List ℕ) (p p' : ReviewPlan)
      → plan_modified read diff accepted p ≡ plan p'
      → Grows p p' true
  plan_modified-Grows diff accepted p p' e = elim (Option-cases (read diff.path)) [
    | inl gone ↦ absurd (not_plan (unreadable diff.path) p' tt (rw (gone, plan_modified) at e))
    | inr (original, found) ↦ elim (Option-cases (apply_hunks original diff.hunks accepted)) [
      | inl bad ↦ absurd (not_plan panicked p' tt (rw bad at (rw (found, plan_modified) at e)))
      | inr (result, good) ↦ pushed p p' _ (rw good at (rw (found, plan_modified) at e))
    ]
  ]

  plan_accepted-Grows :
      (diff : FileDiff) (accepted : List ℕ) (p p' : ReviewPlan)
      → plan_accepted read diff accepted p ≡ plan p'
      → Grows p p' (changes diff)
  unfolding plan_accepted
  plan_accepted-Grows diff accepted p p' e = go diff.kind refl
    where
      go : (k : DiffKind) → diff.kind ≡ k → Grows p p' (changes diff)
      go added k = rw k (pushed p p' _ (rw (k, plan_accepted) at e))
      go deleted k = rw k (pushed p p' _ (rw (k, plan_accepted) at e))
      go modified k = elim (Bool-cases diff.binary) [
        | inl binary ↦
            rw (k, binary) (skipped_one p p' _ (rw binary at (rw (k, plan_accepted) at e)))
        | inr text ↦
            rw (k, text)
              (plan_modified-Grows diff accepted p p' (rw text at (rw (k, plan_accepted) at e)))
      ]

  plan_one-Grows :
      (diffs : List FileDiff) (d : FileReview) (p p' : ReviewPlan)
      → plan_one read diffs d p ≡ plan p'
      → Grows p p' (takes diffs d)
  unfolding plan_one
  plan_one-Grows diffs d p p' e = elim (Option-cases (get_elem? diffs d.file_index)) [
    | inl none_there ↦
        absurd (not_plan (out_of_range d.file_index) p' tt (rw (none_there, plan_one) at e))
    | inr (diff, there) ↦ elim (Bool-cases (is_empty d.accepted_hunks)) [
      | inl rejected ↦
          rw (there, takes)
            (rw rejected (skipped_one p p' _ (rw rejected at (rw (there, plan_one) at e))))
      | inr some_hunk ↦
          rw (there, takes)
            (rw some_hunk (
              plan_accepted-Grows diff d.accepted_hunks p p'
                (rw some_hunk at (rw (there, plan_one) at e))))
    ]
  ]

  Planned-cases : (r : Planned) → ((p : ReviewPlan) × (r ≡ plan p)) ⊎ Failed r
  Planned-cases (plan p) = inl (p, refl)
  Planned-cases (out_of_range i) = inr tt
  Planned-cases (unreadable s) = inr tt
  Planned-cases panicked = inr tt

  stays-Failed :
      (r : Planned) (f : ReviewPlan → Planned) (p : ReviewPlan) → Failed r → ¬ ((r >>= f) ≡ plan p)
  stays-Failed (plan q) f p h e = h
  stays-Failed (out_of_range i) f p h e = not_plan (out_of_range i) p tt e
  stays-Failed (unreadable s) f p h e = not_plan (unreadable s) p tt e
  stays-Failed panicked f p h e = not_plan panicked p tt e

  plan_from-counts :
      (diffs : List FileDiff) (ds : List FileReview) (p p' : ReviewPlan)
      → plan_from read diffs ds p ≡ plan p'
      → (length p'.actions ≡ length p.actions + taken diffs ds)
        × (length p'.skipped ≡ length p.skipped + left diffs ds)
  unfolding plan_from Grows
  plan_from-counts diffs [] p p' e =
      subst
        (λ q. (length q.actions ≡ length p.actions + 0) × (length q.skipped ≡ length p.skipped + 0))
        (plan_inj e) (omega arith, omega arith)
  plan_from-counts diffs (d ∷ ds) p p' e = elim (Planned-cases (plan_one read diffs d p)) [
    | inl (q, one) ↦
        let (a, b) = plan_one-Grows diffs d p q one in
        let (c, g) = plan_from-counts diffs ds q p' (rw one at e) in (omega arith, omega arith)
    | inr f ↦ absurd (stays-Failed (plan_one read diffs d p) (plan_from read diffs ds) p' f e)
  ]

  -- Each decision of a plan gives one thing: an action if it accepts a hunk of an added, a deleted
  -- or a modified text file, and else a skipped path.
  pub plan_review-counts :
      (diffs : List FileDiff) (ds : List FileReview) (p : ReviewPlan)
      → plan_review read diffs ds ≡ plan p
      → (length p.actions ≡ taken diffs ds) × (length p.skipped ≡ left diffs ds)
  unfolding plan_review
  plan_review-counts diffs ds p e =
      let (a, b) = plan_from-counts diffs ds (record { actions = []; skipped = [] }) p e in
      (omega arith, omega arith)

some_inj {ℓ κ} : {A : Type ℓ} {B : Type κ} {x y : A × B} → some x ≡ some y → x.1 ≡ y.1
some_inj {x = x} h = ap (λ o. elim o [ none ↦ x.1 | some z ↦ z.1 ]) h

none_is_no_some {ℓ} : {A : Type ℓ} {a : A} → ¬ (none ≡ some a)
none_is_no_some h = cc

abbrev pub writes : List ReviewAction → ℕ
writes [] = 0
writes (write path content ∷ actions) = suc (writes actions)
writes (delete path ∷ actions) = writes actions

abbrev pub deletes : List ReviewAction → ℕ
deletes [] = 0
deletes (write path content ∷ actions) = deletes actions
deletes (delete path ∷ actions) = suc (deletes actions)

module _ {Fs : Type 0} (exists : Fs → String → Bool) (write_file : Fs → String → Text → Option Fs)
    (remove_file : Fs → String → Option Fs) where
  -- What the report of a run from a given report on says.
  abbrev Counts : ExecutionReport → List ReviewAction → ExecutionReport → Type 0
  Counts before actions after =
      (after.files_written ≡ before.files_written + writes actions)
      × (after.files_deleted ≤ before.files_deleted + deletes actions)
      × (before.files_deleted ≤ after.files_deleted)

  execute_from-Counts :
      (fs fs' : Fs) (before after : ExecutionReport) (actions : List ReviewAction)
      → execute_from exists write_file remove_file fs before actions ≡ some (fs', after)
      → Counts before actions after
  unfolding execute_from
  execute_from-Counts fs fs' before after [] e =
      subst (Counts before []) (some_inj e) (omega arith, omega arith, omega arith)
  execute_from-Counts fs fs' before after (write path content ∷ actions) e =
      elim (Option-cases (write_file fs path content)) [
        | inl full ↦ absurd (none_is_no_some (rw (full, execute_from) at e))
        | inr (fs'', done) ↦
            let (a, b, c) =
              execute_from-Counts fs'' fs'
                (record before { files_written = before.files_written + 1 }) after actions
                (rw (done, execute_from) at e) in
            (omega arith, omega arith, omega arith)
      ]
  execute_from-Counts fs fs' before after (delete path ∷ actions) e =
      elim (Bool-cases (exists fs path)) [
        | inr missing ↦
            let (a, b, c) =
              execute_from-Counts fs fs' before after actions (rw (missing, execute_from) at e) in
            (omega arith, omega arith, omega arith)
        | inl there ↦ elim (Option-cases (remove_file fs path)) [
          | inl failed ↦ absurd (none_is_no_some (rw failed at (rw (there, execute_from) at e)))
          | inr (fs'', done) ↦
              let (a, b, c) =
                execute_from-Counts fs'' fs'
                  (record before { files_deleted = before.files_deleted + 1 }) after actions
                  (rw done at (rw (there, execute_from) at e)) in
              (omega arith, omega arith, omega arith)
        ]
      ]

  -- An execution that succeeds reports every write of the plan, at most its deletions, since a
  -- missing file is passed over, and the skipped paths.
  pub execute_review-counts :
      (fs fs' : Fs) (p : ReviewPlan) (r : ExecutionReport)
      → execute_review exists write_file remove_file fs p ≡ some (fs', r)
      → (r.files_written ≡ writes p.actions)
        × (r.files_deleted ≤ deletes p.actions)
        × (r.files_skipped ≡ length p.skipped)
  unfolding execute_review
  execute_review-counts fs fs' p r e =
      let zero_report : ExecutionReport = record {
        files_written = 0;
        files_deleted = 0;
        files_skipped = 0;
      } in
      elim (Option-cases (execute_from exists write_file remove_file fs zero_report p.actions)) [
        | inl failed ↦ absurd (none_is_no_some (rw (failed, execute_review) at e))
        | inr ((fs'', report), done) ↦
            let (a, b, c) = execute_from-Counts fs fs'' zero_report report p.actions done in
            subst
              (λ q.
                (q.files_written ≡ writes p.actions)
                × (q.files_deleted ≤ deletes p.actions)
                × (q.files_skipped ≡ length p.skipped))
              (some_inj (rw (done, execute_review) at e)) (omega arith, omega arith, refl)
      ]
