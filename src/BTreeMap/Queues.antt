-- ===== src/BTreeMap/Queues.antt =====
-- A map whose keys are the entries of a queue.
use paqus_node.Base.{
  ℕ, ◌≡◌, true, false, List, [], ◌∷◌, ◌++◌, is_some, arith, ==_iff, elem, elem-append,
}
use paqus_node.BTreeMap
use paqus_node.BTreeMap.{BTreeMap, IsSorted}
use paqus_node.BTreeMap.Laws.{get-insert, get-remove}

-- With one more key, last in the queue.
pub insert-same {ℓ} :
    {V : Type ℓ} (w : V) (seen : BTreeMap V) (order : List ℕ) (x v : ℕ)
    → ((u : ℕ) → is_some (BTreeMap.get u seen) ≡ elem u order)
    → is_some (BTreeMap.get v (BTreeMap.insert x w seen)) ≡ elem v (order ++ x ∷ [])
insert-same w seen order x v h = ground (arith, get-insert v x w seen, elem-append v x order, h v)

-- Without the first key of the queue.
pub remove-same {ℓ} :
    {V : Type ℓ} (seen : BTreeMap V) (o x v : ℕ) (order : List ℕ)
    → IsSorted seen
    → is_some (BTreeMap.get v seen) ≡ elem v (o ∷ order)
    → elem o order ≡ false
    → is_some (BTreeMap.get v (BTreeMap.remove o seen)) ≡ elem v order
remove-same seen o x v order s h n = ground (arith, get-remove v o seen s, ==_iff v o)

-- With a new value for a key of the queue.
pub insert-again {ℓ} :
    {V : Type ℓ} (w : V) (seen : BTreeMap V) (order : List ℕ) (x v : ℕ)
    → ((u : ℕ) → is_some (BTreeMap.get u seen) ≡ elem u order)
    → elem x order ≡ true
    → is_some (BTreeMap.get v (BTreeMap.insert x w seen)) ≡ elem v order
insert-again w seen order x v h old = ground (arith, get-insert v x w seen, h v, ==_iff v x, old)
