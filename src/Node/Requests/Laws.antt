-- ===== src/Node/Requests/Laws.antt =====
-- The queue of missing parents stays in step with its set and its times.
use paqus_node.Base.{
  ℕ, ◌≡◌, refl, ◌∙◌, ap, Bool, true, false, not, List, [], ◌∷◌, Option, none, leb, ◌==◌,
  if◌then◌else◌, is_some, arith, elem, IsDistinct, elem-filter, IsDistinct-filter, filter-same,
  filter, Bool-cases, inl, inr,
}
use paqus_node.BTreeMap
use paqus_node.BTreeMap.{BTreeMap, Set, IsSorted}
use paqus_node.BTreeMap.Laws.{remove-IsSorted, get-remove}
use paqus_node.Node.Requests.{Drained, drain_from, zero_if_none}

-- The queue holds each hash once; the set holds the hashes of the queue; each has a time.
pub record IsQueue (requests : List ℕ) (request_set : Set) (retry_at : BTreeMap ℕ) : Type 0 where
  pub distinct : IsDistinct requests
  pub sorted_set : IsSorted request_set
  pub sorted_times : IsSorted retry_at
  pub listed : (v : ℕ) → is_some (BTreeMap.get v request_set) ≡ elem v requests
  pub timed : (v : ℕ) → is_some (BTreeMap.get v retry_at) ≡ elem v requests

abbrev pub is_ready : ℕ → BTreeMap ℕ → ℕ → Bool
is_ready now retry_at v = leb (zero_if_none (BTreeMap.get v retry_at)) now

-- A map without the keys of a list.
abbrev pub get_outside {ℓ} : {V : Type ℓ} → List ℕ → ℕ → BTreeMap V → Option V
get_outside gone v m = if elem v gone then none else BTreeMap.get v m

-- What draining does: the hashes whose time has come leave the queue, the set and the times, in the
-- queue's order; the others stay, in order.
pub record IsDrained (now : ℕ) (requests : List ℕ) (request_set : Set) (retry_at : BTreeMap ℕ)
    (d : Drained) : Type 0 where
  pub gone : d.ready ≡ filter (is_ready now retry_at) requests
  pub kept : d.pending ≡ filter (λ v. not (is_ready now retry_at v)) requests
  pub sorted_set : IsSorted d.request_set
  pub sorted_times : IsSorted d.retry_at
  pub reads_set : (v : ℕ) → BTreeMap.get v d.request_set ≡ get_outside d.ready v request_set
  pub reads_times : (v : ℕ) → BTreeMap.get v d.retry_at ≡ get_outside d.ready v retry_at

-- After a key is gone, the tests of other keys are the same.
is_ready-remove :
    (now hash v : ℕ) (retry_at : BTreeMap ℕ) (requests : List ℕ)
    → IsSorted retry_at
    → elem hash requests ≡ false
    → elem v requests ≡ true
    → is_ready now (BTreeMap.remove hash retry_at) v ≡ is_ready now retry_at v
is_ready-remove now hash v retry_at requests s absent present = elim (Bool-cases (v == hash)) [
  | inl same ↦
      let e : v ≡ hash = ground arith in absurd (ground (arith, ap (λ (u : ℕ). elem u requests) e))
  | inr other ↦ ground (arith, get-remove v hash retry_at s)
]

get_outside-remove {ℓ} :
    {V : Type ℓ} (hash v : ℕ) (gone : List ℕ) (m : BTreeMap V)
    → IsSorted m
    → get_outside gone v (BTreeMap.remove hash m) ≡ get_outside (hash ∷ gone) v m
get_outside-remove hash v gone m s = ground (arith, get-remove v hash m s)

pub drain_from-IsDrained :
    (now : ℕ) (requests : List ℕ) (request_set : Set) (retry_at : BTreeMap ℕ)
    → IsDistinct requests
    → IsSorted request_set
    → IsSorted retry_at
    → IsDrained now requests request_set retry_at (drain_from now request_set retry_at requests)
unfolding drain_from
drain_from-IsDrained now [] request_set retry_at d s t = record {
  gone = refl;
  kept = refl;
  sorted_set = s;
  sorted_times = t;
  reads_set = λ v. refl;
  reads_times = λ v. refl;
}
drain_from-IsDrained now (hash ∷ requests) request_set retry_at d s t =
    elim (Bool-cases (is_ready now retry_at hash)) [
      | inl ready ↦
          let v =
            drain_from-IsDrained now requests (BTreeMap.remove hash request_set)
              (BTreeMap.remove hash retry_at) d.1 (remove-IsSorted hash request_set s)
              (remove-IsSorted hash retry_at t) in
          let same = λ (u : ℕ) (e : elem u requests ≡ true).
            is_ready-remove now hash u retry_at requests t d.0 e in
          rw (ready, drain_from)
            (record {
              gone = rw ready (ap (λ l. hash ∷ l) (v.gone ∙ filter-same _ _ requests same));
              kept = rw ready (v.kept ∙ filter-same _ _ requests (λ u e. ap not (same u e)));
              sorted_set = v.sorted_set;
              sorted_times = v.sorted_times;
              reads_set = λ u. v.reads_set u ∙ get_outside-remove hash u _ request_set s;
              reads_times = λ u. v.reads_times u ∙ get_outside-remove hash u _ retry_at t;
            })
      | inr early ↦
          let v = drain_from-IsDrained now requests request_set retry_at d.1 s t in
          rw (early, drain_from)
            (record {
              gone = rw early v.gone;
              kept = rw early (ap (λ l. hash ∷ l) v.kept);
              sorted_set = v.sorted_set;
              sorted_times = v.sorted_times;
              reads_set = v.reads_set;
              reads_times = v.reads_times;
            })
    ]

-- From a queue in step, draining leaves one in step.
pub IsQueue-drained :
    (now : ℕ) (requests : List ℕ) (request_set : Set) (retry_at : BTreeMap ℕ) (d : Drained)
    → IsQueue requests request_set retry_at
    → IsDrained now requests request_set retry_at d
    → IsQueue d.pending d.request_set d.retry_at
IsQueue-drained now requests request_set retry_at d q v =
    let p = λ (h : ℕ). is_ready now retry_at h in
    let late = λ (h : ℕ). not (p h) in
    let in_ready = λ (u : ℕ). ap (λ l. elem u l) v.gone ∙ elem-filter p u requests in
    let in_pending = λ (u : ℕ). ap (λ l. elem u l) v.kept ∙ elem-filter late u requests in
    record {
      distinct = rw v.kept (IsDistinct-filter late requests q.distinct);
      sorted_set = v.sorted_set;
      sorted_times = v.sorted_times;
      listed = λ u. ground (arith, v.reads_set u, q.listed u, in_ready u, in_pending u);
      timed = λ u. ground (arith, v.reads_times u, q.timed u, in_ready u, in_pending u);
    }
