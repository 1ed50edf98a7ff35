-- ===== src/FilePassing/Gathered.antt =====
-- The first loop of `plan_transfers`: maps that know every artifact, or an id that two stages made.
use cuartel.Common.{
  ◌≡◌, ◌≢◌, ◌⊎◌, inl, inr, refl, true, List, [], ◌∷◌, ◌++◌, Option, none, some, eq_iff, arith,
  Bool-cases,
}
use cuartel.Common.Dict.{lookup}
use cuartel.Pipeline.Defs.{StageId}
use cuartel.FilePassing.{
  ArtifactId, Artifact, StageManifest, Result, ok, err, artifact_not_found, producer_mismatch,
  duplicate_artifact, find, Seen, taken, record_artifact, collect_produced, collect_all, ◌>>=◌,
  nothing_seen,
}
use cuartel.FilePassing.Produced.{Made, In, made_of, made, Knows, Knows-record_artifact}

-- Two stages that made artifacts with one id.
abbrev pub Clash : ArtifactId → Made → Type 0
Clash id done =
    (s : StageId) × (t : StageId) × (a : Artifact) × (b : Artifact) × In s a done
    × In t b done
    × (a.id ≡ id)
    × (b.id ≡ id)
    × (s ≢ t)

-- What the first loop returns: maps that know all artifacts, or an id with two stages.
abbrev pub Gathers : Made → Result Seen → Type 0
Gathers done (ok seen) = Knows done seen
Gathers done (err (duplicate_artifact id)) = Clash id done
Gathers done (err (artifact_not_found id s)) = ⊥
Gathers done (err (producer_mismatch id s t)) = ⊥

-- The artifacts in the order of the loop, the last one first.
abbrev onto : Made → Made → Made
onto [] done = done
onto (x ∷ xs) done = onto xs (x ∷ done)

In-onto : (s : StageId) (a : Artifact) (xs done : Made) → In s a done → In s a (onto xs done)
In-onto s a [] done h = h
In-onto s a (x ∷ xs) done h = In-onto s a xs (x ∷ done) (inr h)

taken_by :
    (s : StageId) (o : Option StageId) → taken s o ≡ true → (t : StageId) × (o ≡ some t) × (t ≢ s)
unfolding taken
taken_by s none h = absurd (cc)
taken_by s (some t) h = (t, refl, λ e. ground (arith, eq_iff t s))

collect_produced-Gathers :
    (s : StageId) (artifacts : List Artifact) (done : Made) (seen : Seen)
    → Knows done seen
    → Gathers (onto (made_of s artifacts) done) (collect_produced s artifacts seen)
unfolding collect_produced
collect_produced-Gathers s [] done seen k = k
collect_produced-Gathers s (a ∷ artifacts) done seen k =
    elim (Bool-cases (taken s (lookup a.id seen.ids_seen))) [
      | inr free ↦
          rw (free, Gathers)
            (collect_produced-Gathers s artifacts ((s, a) ∷ done) (record_artifact s a seen)
              (Knows-record_artifact done seen k s a free))
      | inl clash ↦
          let (t, there, other) = taken_by s (lookup a.id seen.ids_seen) clash in
          let (b, member, ids) = k.owned a.id t there in
          let all = made_of s artifacts in
          rw (clash, Gathers)
            (
              t,
              s,
              b,
              a,
              In-onto t b all ((s, a) ∷ done) (inr member),
              In-onto s a all ((s, a) ∷ done) (inl (refl, refl)),
              ids,
              refl,
              other,
            )
    ]

onto_append : (xs ys done : Made) → onto (xs ++ ys) done ≡ onto ys (onto xs done)
onto_append [] ys done = refl
onto_append (x ∷ xs) ys done = onto_append xs ys (x ∷ done)

Clash-onto : (id : ArtifactId) (xs done : Made) → Clash id done → Clash id (onto xs done)
Clash-onto id xs done (s, t, a, b, i, j, e, f, n) =
    (s, t, a, b, In-onto s a xs done i, In-onto t b xs done j, e, f, n)

-- The loop goes on from what it gathered, or stops at the clash.
Gathers-bind :
    (xs done : Made) (o : Result Seen) (f : Seen → Result Seen)
    → Gathers done o
    → ((seen : Seen) → Knows done seen → Gathers (onto xs done) (f seen))
    → Gathers (onto xs done) (o >>= f)
Gathers-bind xs done (ok seen) f g k = k seen g
Gathers-bind xs done (err (duplicate_artifact id)) f g k = Clash-onto id xs done g
Gathers-bind xs done (err (artifact_not_found id s)) f g k = elim g [ ]
Gathers-bind xs done (err (producer_mismatch id s t)) f g k = elim g [ ]

collect_all-Gathers :
    (ms : List StageManifest) (done : Made) (seen : Seen)
    → Knows done seen
    → Gathers (onto (made ms) done) (collect_all ms seen)
unfolding collect_all
collect_all-Gathers [] done seen k = k
collect_all-Gathers (m ∷ ms) done seen k =
    rw (onto_append (made_of m.stage_id m.produces) (made ms) done) (
      Gathers-bind (made ms) (onto (made_of m.stage_id m.produces) done)
        (collect_produced m.stage_id m.produces seen) (collect_all ms)
        (collect_produced-Gathers m.stage_id m.produces done seen k)
        (collect_all-Gathers ms (onto (made_of m.stage_id m.produces) done)))

Knows-nothing : Knows [] nothing_seen
unfolding find lookup
Knows-nothing = record {
  sound = λ id s a h. absurd (cc);
  complete = λ s a i. elim i [ ];
  owned = λ id s h. absurd (cc);
  owner = λ s a i. elim i [ ];
}

-- A member of the turned list is a member of the list.
In-turned :
    (s : StageId) (a : Artifact) (xs done : Made) → In s a (onto xs done) → In s a xs ⊎ In s a done
In-turned s a [] done h = inr h
In-turned s a (x ∷ xs) done h = elim (In-turned s a xs (x ∷ done) h) [
  | inl i ↦ inl (inr i)
  | inr (inl e) ↦ inl (inl e)
  | inr (inr i) ↦ inr i
]

In-turn : (s : StageId) (a : Artifact) (xs done : Made) → In s a xs → In s a (onto xs done)
In-turn s a [] done h = elim h [ ]
In-turn s a (x ∷ xs) done (inl e) = In-onto s a xs (x ∷ done) (inl e)
In-turn s a (x ∷ xs) done (inr i) = In-turn s a xs (x ∷ done) i

In-list : (s : StageId) (a : Artifact) (xs : Made) → In s a (onto xs []) → In s a xs
In-list s a xs h = elim (In-turned s a xs [] h) [ inl i ↦ i | inr i ↦ elim i [ ] ]

Knows-turned : (xs : Made) (seen : Seen) → Knows (onto xs []) seen → Knows xs seen
Knows-turned xs seen k = record {
  sound = λ id s a h. let (i, e) = k.sound id s a h in (In-list s a xs i, e);
  complete = λ s a i. k.complete s a (In-turn s a xs [] i);
  owned = λ id s h. let (a, i, e) = k.owned id s h in (a, In-list s a xs i, e);
  owner = λ s a i. k.owner s a (In-turn s a xs [] i);
}

Gathers-turned : (xs : Made) (o : Result Seen) → Gathers (onto xs []) o → Gathers xs o
Gathers-turned xs (ok seen) g = Knows-turned xs seen g
Gathers-turned xs (err (duplicate_artifact id)) (s, t, a, b, i, j, e, f, n) =
    (s, t, a, b, In-list s a xs i, In-list t b xs j, e, f, n)
Gathers-turned xs (err (artifact_not_found id s)) g = g
Gathers-turned xs (err (producer_mismatch id s t)) g = g

-- The first loop ends with maps that know all artifacts, or with an id that two stages made.
pub Gathers-made : (ms : List StageManifest) → Gathers (made ms) (collect_all ms nothing_seen)
Gathers-made ms =
    Gathers-turned (made ms) (collect_all ms nothing_seen)
      (collect_all-Gathers ms [] nothing_seen Knows-nothing)
