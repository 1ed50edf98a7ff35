-- ===== src/Pipeline/Relaxed.antt =====
-- What the inner loop of `topological_sort` leaves: the numbers and the queue.
use cuartel.Common.{
  ℕ, suc, ◌+◌, ◌<◌, ◌≡◌, refl, sym, ap, ◌∙◌, subst, Bool, ◌||◌, true, some, List, [], ◌∷◌, ◌++◌,
  str_eq, eq_iff, eq_refl, length, length-append, if◌then◌else◌, arith, Bool-cases, inl, inr, ◌==◌,
  All,
}
use cuartel.Common.Dict.{lookup, adjust}
use cuartel.Pipeline.Defs.{StageId, contains}
use cuartel.Pipeline.Topo.{relax}
use cuartel.Pipeline.Degrees.{or0, degree, times, degree-adjust, append_assoc, contains-append}
use cuartel.Pipeline.Settled.{
  NoDup, Settled, positive, positive-adjust, unsettled, Settled-adjust, Settled-last, NoDup-last,
  present,
}

-- All of a list stand in another one.
abbrev pub Within : List StageId → List StageId → Type 0
Within ids l = All (λ q. contains ids q ≡ true) l

Within-last :
    (ids l : List StageId) (y : StageId)
    → Within ids l
    → contains ids y ≡ true
    → Within ids (l ++ y ∷ [])
Within-last ids [] y h c = (c, tt)
Within-last ids (q ∷ l) y (a, h) c = (a, Within-last ids l y h c)

-- What the inner loop leaves: the numbers less one for each time, and the queue with the stages
-- that got to 0.
pub record Relaxed (m : List (StageId × ℕ)) (queue ys done : List StageId) (base : StageId → ℕ)
    : Type 0 where
  pub numbers : List (StageId × ℕ)
  pub waiting : List StageId
  pub returned : relax m queue ys ≡ some (numbers, waiting)
  pub degrees : (x : StageId) → degree numbers x ≡ base x
  pub settled : Settled numbers (done ++ waiting)
  pub distinct : NoDup (done ++ waiting)
  pub measure : positive numbers + length waiting ≡ positive m + length queue
  pub reaches :
      (x : StageId)
      → (degree m x ≡ 0 → contains (done ++ queue) x ≡ true)
      → base x ≡ 0
      → contains (done ++ waiting) x ≡ true
  pub within :
      (ids : List StageId)
      → Within ids (done ++ queue)
      → Within ids ys
      → Within ids (done ++ waiting)

-- The queue after a number has gone down to `k`.
abbrev queued : List StageId → StageId → ℕ → List StageId
queued queue y k = if k == 0 then queue ++ y ∷ [] else queue

length-queued :
    (queue : List StageId) (y : StageId) (k : ℕ)
    → length (queued queue y k) ≡ length queue + (if k == 0 then 1 else 0)
length-queued queue y k = elim (Bool-cases (k == 0)) [
  | inl z ↦ rw z (length-append queue (y ∷ []))
  | inr p ↦ rw p (omega arith)
]

queued-Settled :
    (m : List (StageId × ℕ)) (queue done : List StageId) (y : StageId) (k : ℕ)
    → lookup y m ≡ some (suc k)
    → Settled m (done ++ queue)
    → Settled (adjust (λ d. k) y m) (done ++ queued queue y k)
queued-Settled m queue done y k e s =
    let m' = adjust (λ d. k) y m in
    let s' : Settled m' (done ++ queue) = Settled-adjust m (done ++ queue) y k e s in
    elim (Bool-cases (k == 0)) [
      | inr p ↦ rw p s'
      | inl z ↦
          let zero_now : degree m' y ≡ 0 =
            degree-adjust (λ d. k) y y m (suc k) e ∙ rw (eq_refl y) (ground arith) in
          rw z (
            subst (Settled m') (append_assoc done queue (y ∷ []))
              (Settled-last m' (done ++ queue) y s' zero_now))
    ]

queued_distinct :
    (m : List (StageId × ℕ)) (queue done : List StageId) (y : StageId) (k : ℕ)
    → lookup y m ≡ some (suc k)
    → Settled m (done ++ queue)
    → NoDup (done ++ queue)
    → NoDup (done ++ queued queue y k)
queued_distinct m queue done y k e s n = elim (Bool-cases (k == 0)) [
  | inr p ↦ rw p n
  | inl z ↦ rw z (
      subst NoDup (append_assoc done queue (y ∷ [])) (
        NoDup-last (done ++ queue) y n (unsettled m (done ++ queue) y s (omega (arith, ap or0 e)))))
]

queued-Within :
    (ids queue done : List StageId) (y : StageId) (k : ℕ)
    → Within ids (done ++ queue)
    → contains ids y ≡ true
    → Within ids (done ++ queued queue y k)
queued-Within ids queue done y k w c = elim (Bool-cases (k == 0)) [
  | inr p ↦ rw p w
  | inl z ↦ rw z (
      subst (Within ids) (append_assoc done queue (y ∷ [])) (Within-last ids (done ++ queue) y w c))
]

or_left : (a b : _) → a ≡ true → (a || b) ≡ true
or_left a b h = ground arith

queued_still :
    (queue done : List StageId) (y x : StageId) (k : ℕ)
    → contains (done ++ queue) x ≡ true
    → contains (done ++ queued queue y k) x ≡ true
queued_still queue done y x k c = elim (Bool-cases (k == 0)) [
  | inr p ↦ rw p c
  | inl z ↦ rw z (
      ap (λ l. contains l x) (sym (append_assoc done queue (y ∷ [])))
      ∙ contains-append (done ++ queue) (y ∷ []) x
      ∙ or_left (contains (done ++ queue) x) (contains (y ∷ []) x) c)
]

-- A stage whose number goes down to 0 is put into the queue.
queued_last :
    (queue done : List StageId) (y x : StageId)
    → str_eq y x ≡ true
    → contains (done ++ queued queue y 0) x ≡ true
queued_last queue done y x same =
    ap (λ l. contains l x) (sym (append_assoc done queue (y ∷ [])))
    ∙ contains-append (done ++ queue) (y ∷ []) x
    ∙ rw same (or_right (contains (done ++ queue) x))
  where
    or_right : (b : Bool) → (b || true) ≡ true
    or_right b = ground arith

relax_step :
    (m : List (StageId × ℕ)) (queue : List StageId) (y : StageId) (ys : List StageId) (k : ℕ)
    → lookup y m ≡ some (suc k)
    → relax m queue (y ∷ ys) ≡ relax (adjust (λ d. k) y m) (queued queue y k) ys
unfolding relax
relax_step m queue y ys k e = rw (e, relax) refl

times_self : (y : StageId) (ys : List StageId) → 0 < times (y ∷ ys) y
times_self y ys = rw (eq_refl y) (omega arith)

pub relax-Relaxed :
    (m : List (StageId × ℕ)) (queue ys done : List StageId) (base : StageId → ℕ)
    → ((x : StageId) → degree m x ≡ base x + times ys x)
    → Settled m (done ++ queue)
    → NoDup (done ++ queue)
    → Relaxed m queue ys done base
unfolding relax
relax-Relaxed m queue [] done base g s n = record {
  numbers = m;
  waiting = queue;
  returned = refl;
  degrees = λ x. g x ∙ omega arith;
  settled = s;
  distinct = n;
  measure = refl;
  reaches = λ x h z. h (g x ∙ omega (arith, z));
  within = λ ids w ws. w;
}
relax-Relaxed m queue (y ∷ ys) done base g s n =
    let pos : 0 < degree m y = omega (arith, g y, times_self y ys) in
    let (k, e) = present y m pos in
    let m' = adjust (λ d. k) y m in
    let queue' = queued queue y k in
    let next : (x : StageId) → degree m' x ≡ base x + times ys x = λ x.
      degree-adjust (λ d. k) y x m (suc k) e ∙ elim (Bool-cases (str_eq y x)) [
        | inl same ↦
            let d : degree m x ≡ suc k = ap (degree m) (sym ((eq_iff y x).0 same)) ∙ ap or0 e in
            rw same (omega (arith, rw same at (g x)))
        | inr other ↦ rw other (omega (arith, rw other at (g x)))
      ] in
    let r : Relaxed m' queue' ys done base =
      relax-Relaxed m' queue' ys done base next (queued-Settled m queue done y k e s)
        (queued_distinct m queue done y k e s n) in
    record {
      numbers = r.numbers;
      waiting = r.waiting;
      returned = relax_step m queue y ys k e ∙ r.returned;
      degrees = r.degrees;
      settled = r.settled;
      distinct = r.distinct;
      measure = omega (arith, r.measure, positive-adjust y k m e, length-queued queue y k);
      reaches = λ x h z. r.reaches x (kept k e x h) z;
      within = λ ids w (c, ws). r.within ids (queued-Within ids queue done y k w c) ws;
    }
  where
    kept :
        (k : ℕ)
        → lookup y m ≡ some (suc k)
        → (x : StageId) → (degree m x ≡ 0 → contains (done ++ queue) x ≡ true)
        → degree (adjust (λ d. k) y m) x ≡ 0
        → contains (done ++ queued queue y k) x ≡ true
    kept k e x h z =
        let now = degree-adjust (λ d. k) y x m (suc k) e in
        elim (Bool-cases (str_eq y x)) [
          | inr other ↦ queued_still queue done y x k (h (sym (rw other at now) ∙ z))
          | inl same ↦
              let gone : k ≡ 0 = sym (rw same at now) ∙ z in
              rw gone (queued_last queue done y x same)
        ]
