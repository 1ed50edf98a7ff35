-- ===== src/FilePassing/Produced.antt =====
-- What the two maps of `plan_transfers` know of the artifacts that were collected.
use cuartel.Common.{
  String, ◌≡◌, ◌≢◌, ◌⊎◌, inl, inr, refl, sym, ap, ◌∙◌, true, false, List, [], ◌∷◌, ◌++◌, map,
  Option, none, some, str_eq, eq_iff, arith, if◌then◌else◌, Bool-cases,
}
use cuartel.Common.Dict.{lookup, insert, lookup-insert}
use cuartel.Pipeline.Defs.{StageId}
use cuartel.FilePassing.{
  ArtifactId, Artifact, StageManifest, Produced, same, find, add, Seen, taken, record_artifact,
}

-- The artifacts of all manifests, each with its stage.
abbrev pub Made : Type 0
Made = List (StageId × Artifact)

abbrev pub In : StageId → Artifact → Made → Type 0
In s a [] = ⊥
In s a ((t, b) ∷ rest) = ((s ≡ t) × (a ≡ b)) ⊎ In s a rest

abbrev pub made_of : StageId → List Artifact → Made
made_of s = map (λ a. (s, a))

abbrev pub made : List StageManifest → Made
made [] = []
made (m ∷ ms) = made_of m.stage_id m.produces ++ made ms

-- The two maps know exactly the artifacts done so far, and each id has one stage.
pub record Knows (done : Made) (seen : Seen) : Type 0 where
  pub sound :
      (id : ArtifactId) (s : StageId) (a : Artifact)
      → find id s seen.produced ≡ some a
      → In s a done × (a.id ≡ id)
  pub complete : (s : StageId) (a : Artifact) → In s a done → find a.id s seen.produced ≢ none
  pub owned :
      (id : ArtifactId) (s : StageId)
      → lookup id seen.ids_seen ≡ some s
      → (a : Artifact) × In s a done × (a.id ≡ id)
  pub owner : (s : StageId) (a : Artifact) → In s a done → lookup a.id seen.ids_seen ≡ some s

find-add :
    (id j : ArtifactId) (s t : StageId) (a : Artifact) (p : Produced)
    → find j t (add id s a p) ≡ (if same j t id s then some a else find j t p)
unfolding find add
find-add id j s t a [] = refl
find-add id j s t a ((i, r, b) ∷ rest) = ground (
  arith,
  find-add id j s t a rest,
  eq_iff i id,
  eq_iff r s,
  eq_iff i j,
  eq_iff r t,
  eq_iff id j,
  eq_iff s t,
)

not_taken : (s t : StageId) (o : Option StageId) → taken s o ≡ false → o ≡ some t → t ≡ s
unfolding taken
not_taken s t o h e = ground (arith, eq_iff t s)

same_both : (j t id s : String) → same j t id s ≡ true → (id ≡ j) × (s ≡ t)
same_both j t id s h = (ground (arith, eq_iff id j), ground (arith, eq_iff s t))

same_self : (id s : String) → same id s id s ≡ true
same_self id s = ground (arith, eq_iff id id, eq_iff s s)

-- What is found behind a new entry.
found_behind :
    (id : ArtifactId) (t s : StageId) (a b : Artifact) (p : Produced)
    → find id t (add a.id s a p) ≡ some b
    → ((a.id ≡ id) × (s ≡ t) × (b ≡ a)) ⊎ (find id t p ≡ some b)
found_behind id t s a b p h = elim (Bool-cases (same id t a.id s)) [
  | inl e ↦
      let (ids, stages) = same_both id t a.id s e in
      inl (ids, stages, ground (arith, find-add a.id id s t a p))
  | inr e ↦ inr (ground (arith, find-add a.id id s t a p))
]

-- What has an entry keeps one.
still_found :
    (id : ArtifactId) (t s : StageId) (a : Artifact) (p : Produced)
    → find id t p ≢ none
    → find id t (add a.id s a p) ≢ none
still_found id t s a p h e = elim (Bool-cases (same id t a.id s)) [
  | inl f ↦ ground (arith, find-add a.id id s t a p)
  | inr f ↦ h (ground (arith, find-add a.id id s t a p))
]

module _ (done : Made) (seen : Seen) (k : Knows done seen) (s : StageId) (a : Artifact) where
  sound_on :
      (id : ArtifactId) (t : StageId) (b : Artifact)
      → find id t (add a.id s a seen.produced) ≡ some b
      → In t b ((s, a) ∷ done) × (b.id ≡ id)
  sound_on id t b h = elim (found_behind id t s a b seen.produced h) [
    | inl (ids, stages, same_artifact) ↦
        (inl (sym stages, same_artifact), ap (λ c. c.id) same_artifact ∙ ids)
    | inr old ↦ let (member, ids) = k.sound id t b old in (inr member, ids)
  ]

  complete_on :
      (t : StageId) (b : Artifact)
      → In t b ((s, a) ∷ done)
      → find b.id t (add a.id s a seen.produced) ≢ none
  complete_on t b (inr member) = still_found b.id t s a seen.produced (k.complete t b member)
  complete_on t b (inl (stages, same_artifact)) = λ e. ground (
    arith,
    find-add a.id b.id s t a seen.produced,
    same_self a.id s,
    ap (λ c. c.id) same_artifact,
    eq_iff a.id b.id,
    eq_iff s t,
  )

  owned_on :
      (id : ArtifactId) (t : StageId)
      → lookup id (insert a.id s seen.ids_seen) ≡ some t
      → (b : Artifact) × In t b ((s, a) ∷ done) × (b.id ≡ id)
  owned_on id t h = elim (Bool-cases (str_eq a.id id)) [
    | inl e ↦
        (a, inl (ground (arith, lookup-insert a.id id s seen.ids_seen), refl), (eq_iff a.id id).0 e)
    | inr e ↦
        let (b, member, ids) =
          k.owned id t (ground (arith, lookup-insert a.id id s seen.ids_seen)) in
        (b, inr member, ids)
  ]

  owner_on :
      taken s (lookup a.id seen.ids_seen) ≡ false
      → (t : StageId) (b : Artifact) → In t b ((s, a) ∷ done)
      → lookup b.id (insert a.id s seen.ids_seen) ≡ some t
  owner_on free t b (inl (stages, same_artifact)) = ground (
    arith,
    lookup-insert a.id b.id s seen.ids_seen,
    ap (λ c. c.id) same_artifact,
    eq_iff a.id b.id,
  )
  owner_on free t b (inr member) = elim (Bool-cases (str_eq a.id b.id)) [
    | inr e ↦ ground (arith, lookup-insert a.id b.id s seen.ids_seen, k.owner t b member)
    | inl e ↦
        let ids : b.id ≡ a.id = sym ((eq_iff a.id b.id).0 e) in
        let mine : lookup a.id seen.ids_seen ≡ some t =
          ap (λ i. lookup i seen.ids_seen) (sym ids) ∙ k.owner t b member in
        let stages = not_taken s t (lookup a.id seen.ids_seen) free mine in
        ground (arith, lookup-insert a.id b.id s seen.ids_seen, stages)
  ]

  pub Knows-record_artifact :
      taken s (lookup a.id seen.ids_seen) ≡ false → Knows ((s, a) ∷ done) (record_artifact s a seen)
  unfolding record_artifact
  Knows-record_artifact free = record {
    sound = sound_on;
    complete = complete_on;
    owned = owned_on;
    owner = owner_on free;
  }
