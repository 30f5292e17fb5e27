-- ===== src/Gossip/Window.antt =====
-- `mark_seen` of src/gossip.rs against its specification: a window on the values seen last.
use paqus_node.Base.{
  ℕ, suc, ◌≡◌, ◌≤◌, ◌<◌, Bool, true, false, not, ◌||◌, List, [], ◌∷◌, ◌++◌, none, some, ltb, ◌==◌,
  ==_iff, if◌then◌else◌, is_some, arith, length, length-append, elem, IsDistinct, IsDistinct-append,
  Bool-cases, inl, inr,
}
use paqus_node.BTreeMap
use paqus_node.BTreeMap.{Set, IsSorted}
use paqus_node.BTreeMap.Laws.{insert-IsSorted, remove-IsSorted, get-insert}
use paqus_node.BTreeMap.Queues.{insert-same, remove-same}
use paqus_node.BTreeMap.Sums.{length-insert, length-remove}
use paqus_node.Gossip.{evict, mark_seen}

-- The set holds what the queue holds, once each, and no more than the capacity.
pub record IsWindow (capacity : ℕ) (seen : Set) (order : List ℕ) : Type 0 where
  pub sorted : IsSorted seen
  pub same : (v : ℕ) → is_some (BTreeMap.get v seen) ≡ elem v order
  pub counted : length seen ≡ length order
  pub distinct : IsDistinct order
  pub bounded : length order ≤ capacity

abbrev drop_first : List ℕ → List ℕ
drop_first [] = []
drop_first (x ∷ xs) = xs

-- The window after a value: unchanged if the value is in it, else with the value last and, where
-- that is one too many, without its first.
pub remember : ℕ → List ℕ → ℕ → List ℕ
remember capacity order v =
    if elem v order || capacity == 0
    then order
    else if ltb (length order) capacity
    then order ++ v ∷ []
    else drop_first (order ++ v ∷ [])

-- What a call of `mark_seen` does on a window.
pub record IsMarked (capacity : ℕ) (order : List ℕ) (v : ℕ) (r : Set × List ℕ × Bool) : Type 0 where
  pub window : IsWindow capacity r.0 r.1
  pub queue : r.1 ≡ remember capacity order v
  pub fresh : r.2 ≡ not (elem v order)

evict-enough :
    (fuel capacity : ℕ) (seen : Set) (order : List ℕ)
    → length seen ≤ capacity
    → evict (suc fuel) capacity seen order ≡ some (seen, order)
unfolding evict
evict-enough fuel capacity seen [] h = ground arith
evict-enough fuel capacity seen (o ∷ order) h = ground arith

get-absent :
    (capacity : ℕ) (seen : Set) (order : List ℕ) (v : ℕ)
    → IsWindow capacity seen order
    → elem v order ≡ false
    → BTreeMap.get v seen ≡ none
get-absent capacity seen order v w new = ground (arith, w.same v)

get-first :
    (capacity : ℕ) (seen : Set) (o v : ℕ) (order : List ℕ)
    → IsWindow capacity seen (o ∷ order)
    → BTreeMap.get o (BTreeMap.insert v tt seen) ≡ some tt
get-first capacity seen o v order w = ground (arith, w.same o, get-insert o v tt seen, ==_iff o o)

added-IsWindow :
    (capacity : ℕ) (seen : Set) (order : List ℕ) (v : ℕ)
    → IsWindow capacity seen order
    → elem v order ≡ false
    → length order < capacity
    → IsWindow capacity (BTreeMap.insert v tt seen) (order ++ v ∷ [])
added-IsWindow capacity seen order v w new room = record {
  sorted = insert-IsSorted v tt seen w.sorted;
  same = λ u. insert-same tt seen order v u w.same;
  counted = omega (
    arith,
    length-insert v tt seen (get-absent capacity seen order v w new),
    length-append order (v ∷ []),
  );
  distinct = IsDistinct-append v order new w.distinct;
  bounded = omega (arith, length-append order (v ∷ []));
}

shifted-IsWindow :
    (capacity : ℕ) (seen : Set) (o : ℕ) (order : List ℕ) (v : ℕ)
    → IsWindow capacity seen (o ∷ order)
    → elem v (o ∷ order) ≡ false
    → IsWindow capacity (BTreeMap.remove o (BTreeMap.insert v tt seen)) (order ++ v ∷ [])
shifted-IsWindow capacity seen o order v w new =
    let sorted = insert-IsSorted v tt seen w.sorted in
    let distinct = IsDistinct-append v (o ∷ order) new w.distinct in
    record {
      sorted = remove-IsSorted o (BTreeMap.insert v tt seen) sorted;
      same = λ u.
          remove-same (BTreeMap.insert v tt seen) o v u (order ++ v ∷ []) sorted
            (insert-same tt seen (o ∷ order) v u w.same) distinct.0;
      counted = omega (
        arith,
        length-remove o tt (BTreeMap.insert v tt seen) (get-first capacity seen o v order w),
        length-insert v tt seen (get-absent capacity seen (o ∷ order) v w new),
        length-append order (v ∷ []),
      );
      distinct = distinct.1;
      bounded = omega (arith, length-append order (v ∷ []));
    }

mark_seen_adds :
    (capacity : ℕ) (seen : Set) (order : List ℕ) (v : ℕ)
    → IsWindow capacity seen order
    → elem v order ≡ false
    → length order < capacity
    → mark_seen capacity seen order v ≡ some (BTreeMap.insert v tt seen, order ++ v ∷ [], true)
unfolding mark_seen
mark_seen_adds capacity seen order v w new room =
    let absent = get-absent capacity seen order v w new in
    ground (
      arith,
      evict-enough (length (order ++ v ∷ [])) capacity (BTreeMap.insert v tt seen) (order ++ v ∷ [])
          (omega (arith, length-insert v tt seen absent)),
    )

mark_seen_shifts :
    (capacity : ℕ) (seen : Set) (o : ℕ) (order : List ℕ) (v : ℕ)
    → IsWindow capacity seen (o ∷ order)
    → elem v (o ∷ order) ≡ false
    → length (o ∷ order) ≡ capacity
    → mark_seen capacity seen (o ∷ order) v
      ≡ some (BTreeMap.remove o (BTreeMap.insert v tt seen), order ++ v ∷ [], true)
unfolding mark_seen evict
mark_seen_shifts capacity seen o order v w new full =
    let absent = get-absent capacity seen (o ∷ order) v w new in
    let more = length-insert v tt seen absent in
    let less =
      length-remove o tt (BTreeMap.insert v tt seen) (get-first capacity seen o v order w) in
    let stop =
      evict-enough (length order) capacity (BTreeMap.remove o (BTreeMap.insert v tt seen))
        (order ++ v ∷ []) (omega arith) in
    ground (arith, length-append order (v ∷ []))

abbrev Marked : ℕ → Set → List ℕ → ℕ → Type 0
Marked capacity seen order v =
    (r : Set × List ℕ × Bool) × (mark_seen capacity seen order v ≡ some r)
    × IsMarked capacity order v r

mark_seen_new :
    (capacity : ℕ) (seen : Set) (order : List ℕ) (v : ℕ)
    → IsWindow capacity seen order
    → elem v order ≡ false
    → 0 < capacity
    → Marked capacity seen order v
unfolding remember
mark_seen_new capacity seen [] v w new pos = (
  (BTreeMap.insert v tt seen, v ∷ [], true),
  mark_seen_adds capacity seen [] v w new pos,
  record {
    window = added-IsWindow capacity seen [] v w new pos;
    queue = ground arith;
    fresh = ground arith;
  },
)
mark_seen_new capacity seen (o ∷ order) v w new pos =
    elim (Bool-cases (ltb (length (o ∷ order)) capacity)) [
      | inl room ↦ (
        (BTreeMap.insert v tt seen, o ∷ order ++ v ∷ [], true),
        mark_seen_adds capacity seen (o ∷ order) v w new (ground arith),
        record {
          window = added-IsWindow capacity seen (o ∷ order) v w new (ground arith);
          queue = ground arith;
          fresh = ground arith;
        },
      )
      | inr full ↦ (
        (BTreeMap.remove o (BTreeMap.insert v tt seen), order ++ v ∷ [], true),
        mark_seen_shifts capacity seen o order v w new (ground arith),
        record {
          window = shifted-IsWindow capacity seen o order v w new;
          queue = ground arith;
          fresh = ground arith;
        },
      )
    ]

-- On a window, `mark_seen` ends: it reports whether the value is new, and leaves the window that
-- remembers it, where the first value has made room if the window was full.
pub mark_seen-IsMarked :
    (capacity : ℕ) (seen : Set) (order : List ℕ) (v : ℕ)
    → IsWindow capacity seen order
    → (r : Set × List ℕ × Bool) × (mark_seen capacity seen order v ≡ some r)
      × IsMarked capacity order v r
unfolding remember mark_seen
mark_seen-IsMarked capacity seen order v w = elim (Bool-cases (elem v order)) [
  | inl old ↦ (
    (seen, order, false),
    ground (arith, w.same v),
    record { window = w; queue = ground arith; fresh = ground arith },
  )
  | inr new ↦ elim (Bool-cases (capacity == 0)) [
    | inl zero_capacity ↦ (
      (seen, order, true),
      ground (arith, w.same v),
      record { window = w; queue = ground arith; fresh = ground arith },
    )
    | inr positive ↦ mark_seen_new capacity seen order v w new (ground arith)
  ]
]
