-- ===== src/FilePassing/Planned.antt =====
-- What `plan_transfers` returns, on every branch.
use cuartel.Common.{
  ◌≡◌, ◌≢◌, ◌⊎◌, inl, inr, refl, ap, ◌∙◌, List, [], ◌∷◌, str_eq, eq_iff, arith, Bool-cases,
  Option-cases,
}
use cuartel.Common.Dict.{lookup}
use cuartel.Pipeline.Defs.{StageId}
use cuartel.FilePassing.{
  ArtifactId, Artifact, ArtifactRef, StageManifest, Result, ok, err, artifact_not_found,
  producer_mismatch, duplicate_artifact, TransferEntry, vm_output_path, vm_input_file, find, Seen,
  transfer_of, transfer, transfers, ◌>>=◌, collect_all, nothing_seen, consumed, plan_transfers,
}
use cuartel.FilePassing.Produced.{Made, In, made, Knows}
use cuartel.FilePassing.Gathered.{Clash, Gathers, Gathers-made}

-- The transfer of an artifact that the source stage made and names itself the producer of.
abbrev pub Hands : Made → StageId → ArtifactRef → TransferEntry → Type 0
Hands all target r t =
    (a : Artifact) × In r.source_stage a all
    × (a.id ≡ r.artifact_id)
    × (a.producer ≡ r.source_stage)
    × (t ≡ record {
      artifact_id = r.artifact_id;
      source_stage = r.source_stage;
      target_stage = target;
      source_vm_path = vm_output_path a;
      target_vm_path = vm_input_file r.source_stage a.path;
      kind = a.kind;
    })

-- One transfer for each reference, in the same order.
abbrev pub HandsAll : Made → List (StageId × ArtifactRef) → List TransferEntry → Type 0
HandsAll all [] [] = Unit
HandsAll all [] (t ∷ ts) = ⊥
HandsAll all ((target, r) ∷ refs) [] = ⊥
HandsAll all ((target, r) ∷ refs) (t ∷ ts) = Hands all target r t × HandsAll all refs ts

abbrev pub Asked : ArtifactId → StageId → List (StageId × ArtifactRef) → Type 0
Asked id s [] = ⊥
Asked id s ((target, r) ∷ refs) = ((r.artifact_id ≡ id) × (r.source_stage ≡ s)) ⊎ Asked id s refs

abbrev pub OneOwner : Made → Type 0
OneOwner all = (s t : StageId) (a b : Artifact) → In s a all → In t b all → a.id ≡ b.id → s ≡ t

-- What the second loop may return.
abbrev pub Transfers : Made → List (StageId × ArtifactRef) → Result (List TransferEntry) → Type 0
Transfers all refs (ok ts) = HandsAll all refs ts
Transfers all refs (err (artifact_not_found id s)) =
    Asked id s refs × ((a : Artifact) → In s a all → a.id ≢ id)
Transfers all refs (err (producer_mismatch id s p)) =
    Asked id s refs × (a : Artifact) × In s a all × (a.id ≡ id) × (a.producer ≡ p) × (p ≢ s)
Transfers all refs (err (duplicate_artifact id)) = ⊥

-- What the planning may return.
abbrev pub Plans : Made → List (StageId × ArtifactRef) → Result (List TransferEntry) → Type 0
Plans all refs (ok ts) = HandsAll all refs ts × OneOwner all
Plans all refs (err (duplicate_artifact id)) = Clash id all
Plans all refs (err (artifact_not_found id s)) = Transfers all refs (err (artifact_not_found id s))
Plans all refs (err (producer_mismatch id s p)) =
    Transfers all refs (err (producer_mismatch id s p))

module _ (all : Made) (seen : Seen) (k : Knows all seen) where
  -- One reference, with what the planning says of it alone.
  One : StageId → ArtifactRef → Result TransferEntry → Type 0
  One target r (ok t) = Hands all target r t
  One target r (err (artifact_not_found id s)) =
      (r.artifact_id ≡ id) × (r.source_stage ≡ s) × ((a : Artifact) → In s a all → a.id ≢ id)
  One target r (err (producer_mismatch id s p)) =
      (r.artifact_id ≡ id)
      × (r.source_stage ≡ s)
      × (a : Artifact) × In s a all
      × (a.id ≡ id)
      × (a.producer ≡ p)
      × (p ≢ s)
  One target r (err (duplicate_artifact id)) = ⊥

  transfer-One :
      (target : StageId) (r : ArtifactRef) → One target r (transfer seen.produced target r)
  unfolding transfer transfer_of One
  transfer-One target r = elim (Option-cases (find r.artifact_id r.source_stage seen.produced)) [
    | inl e ↦
        rw (e, One)
          (
            refl,
            refl,
            λ a i same_id.
                k.complete r.source_stage a i
                  (ap (λ id. find id r.source_stage seen.produced) same_id ∙ e),
          )
    | inr (a, e) ↦
        let (member, ids) = k.sound r.artifact_id r.source_stage a e in
        elim (Bool-cases (str_eq a.producer r.source_stage)) [
          | inl own ↦ rw (e, own, One) (a, member, ids, (eq_iff _ _).0 own, refl)
          | inr other ↦
              rw (e, other, One)
                (
                  refl,
                  refl,
                  a,
                  member,
                  ids,
                  refl,
                  λ same_stage. ground (arith, eq_iff a.producer r.source_stage),
                )
        ]
  ]

  One-bind :
      (target : StageId) (r : ArtifactRef) (refs : List (StageId × ArtifactRef))
      (o : Result TransferEntry) (rest : Result (List TransferEntry))
      → One target r o
      → Transfers all refs rest
      → Transfers all ((target, r) ∷ refs) (o >>= (λ t. rest >>= (λ ts. ok (t ∷ ts))))
  unfolding One
  One-bind target r refs (ok t) (ok ts) h g = (h, g)
  One-bind target r refs (ok t) (err (artifact_not_found id s)) h g = (inr g.0, g.1)
  One-bind target r refs (ok t) (err (producer_mismatch id s p)) h (asked, a, i, ids, q, n) =
      (inr asked, a, i, ids, q, n)
  One-bind target r refs (ok t) (err (duplicate_artifact id)) h g = g
  One-bind target r refs (err (artifact_not_found id s)) rest (e, f, n) g = (inl (e, f), n)
  One-bind target r refs (err (producer_mismatch id s p)) rest (e, f, a, i, ids, q, n) g =
      (inl (e, f), a, i, ids, q, n)
  One-bind target r refs (err (duplicate_artifact id)) rest h g = h

  transfers-Transfers :
      (refs : List (StageId × ArtifactRef)) → Transfers all refs (transfers seen.produced refs)
  unfolding transfers
  transfers-Transfers [] = tt
  transfers-Transfers ((target, r) ∷ refs) =
      One-bind target r refs (transfer seen.produced target r) (transfers seen.produced refs)
        (transfer-One target r) (transfers-Transfers refs)

  one_owner : OneOwner all
  one_owner s t a b i j e =
      ground (arith, k.owner s a i, k.owner t b j, ap (λ id. lookup id seen.ids_seen) e)

  Plans_behind :
      (refs : List (StageId × ArtifactRef)) (o : Result (List TransferEntry))
      → Transfers all refs o
      → Plans all refs o
  Plans_behind refs (ok ts) h = (h, one_owner)
  Plans_behind refs (err (artifact_not_found id s)) h = h
  Plans_behind refs (err (producer_mismatch id s p)) h = h
  Plans_behind refs (err (duplicate_artifact id)) h = elim h [ ]

planned :
    (all : Made) (refs : List (StageId × ArtifactRef)) (o : Result Seen)
    → Gathers all o
    → Plans all refs (o >>= (λ seen. transfers seen.produced refs))
planned all refs (ok seen) k =
    Plans_behind all seen k refs (transfers seen.produced refs)
      (transfers-Transfers all seen k refs)
planned all refs (err (duplicate_artifact id)) g = g
planned all refs (err (artifact_not_found id s)) g = elim g [ ]
planned all refs (err (producer_mismatch id s p)) g = elim g [ ]

-- A plan has one transfer for each reference, in order: that of an artifact with the id, which the
-- source stage made and names itself the producer of, from the output directory to the input
-- directory; and then no two stages made artifacts with one id. `DuplicateArtifact` names an id
-- that two stages made, `ArtifactNotFound` a reference to what its stage did not make, and
-- `ProducerMismatch` one to an artifact of the stage that names another producer.
pub plan_transfers-Plans :
    (ms : List StageManifest) → Plans (made ms) (consumed ms) (plan_transfers ms)
unfolding plan_transfers
plan_transfers-Plans ms =
    planned (made ms) (consumed ms) (collect_all ms nothing_seen) (Gathers-made ms)
