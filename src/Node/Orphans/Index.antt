-- ===== src/Node/Orphans/Index.antt =====
-- The index of orphans by parent, when a child is taken out of it.
use paqus_node.Base.{
  ℕ, ◌≡◌, refl, sym, ◌∙◌, ap, Bool, true, false, not, ◌&&◌, List, [], ◌∷◌, Option, none, some, ◌==◌,
  if◌then◌else◌, arith, elem, IsDistinct, elem-filter, IsDistinct-filter, filter,
}
use mathlib.Core.Option.{map as option_map}
use paqus_node.BTreeMap
use paqus_node.BTreeMap.{BTreeMap, IsSorted, Above}
use paqus_node.BTreeMap.Laws.{remove-IsSorted, get-remove}
use paqus_node.Node.Orphans.{
  retain_others, empty_parents, remove_parents, without_child, or_default,
}
use paqus_node.Node.Requests.{is_empty}

abbrev others : ℕ → List ℕ → List ℕ
others hash = filter (λ child. not (child == hash))

Above-retain_others :
    (k hash : ℕ) (m : BTreeMap (List ℕ)) → Above k m → Above k (retain_others hash m)
unfolding retain_others
Above-retain_others k hash [] a = tt
Above-retain_others k hash ((p, l) ∷ m) a = (a.0, Above-retain_others k hash m a.1)

retain_others-IsSorted :
    (hash : ℕ) (m : BTreeMap (List ℕ)) → IsSorted m → IsSorted (retain_others hash m)
unfolding retain_others
retain_others-IsSorted hash [] s = tt
retain_others-IsSorted hash ((p, l) ∷ m) s =
    (Above-retain_others p hash m s.0, retain_others-IsSorted hash m s.1)

get-retain_others :
    (hash p : ℕ) (m : BTreeMap (List ℕ))
    → BTreeMap.get p (retain_others hash m) ≡ option_map (others hash) (BTreeMap.get p m)
unfolding retain_others BTreeMap.get
get-retain_others hash p [] = refl
get-retain_others hash p ((q, l) ∷ m) = ground (arith, get-retain_others hash p m)

remove_parents-IsSorted :
    (ps : List ℕ) (m : BTreeMap (List ℕ)) → IsSorted m → IsSorted (remove_parents ps m)
unfolding remove_parents
remove_parents-IsSorted [] m s = s
remove_parents-IsSorted (p ∷ ps) m s =
    remove_parents-IsSorted ps (BTreeMap.remove p m) (remove-IsSorted p m s)

get-remove_parents :
    (q : ℕ) (ps : List ℕ) (m : BTreeMap (List ℕ))
    → IsSorted m
    → BTreeMap.get q (remove_parents ps m) ≡ (if elem q ps then none else BTreeMap.get q m)
unfolding remove_parents
get-remove_parents q [] m s = refl
get-remove_parents q (p ∷ ps) m s =
    get-remove_parents q ps (BTreeMap.remove p m) (remove-IsSorted p m s)
    ∙ ground (arith, get-remove q p m s)

abbrev holds_empty : Option (List ℕ) → Bool
holds_empty none = false
holds_empty (some l) = is_empty l

absent_from-empty_parents :
    (k q : ℕ) (m : BTreeMap (List ℕ)) → Above k m → q == k ≡ true → elem q (empty_parents m) ≡ false
unfolding empty_parents
absent_from-empty_parents k q [] a e = refl
absent_from-empty_parents k q ((p, l) ∷ m) a e =
    ground (arith, absent_from-empty_parents k q m a.1 e)

elem-empty_parents :
    (q : ℕ) (m : BTreeMap (List ℕ))
    → IsSorted m
    → elem q (empty_parents m) ≡ holds_empty (BTreeMap.get q m)
unfolding empty_parents BTreeMap.get
elem-empty_parents q [] s = refl
elem-empty_parents q ((p, l) ∷ m) s =
    ground (arith, elem-empty_parents q m s.1, absent_from-empty_parents p q m s.0)

pub without_child-IsSorted :
    (hash : ℕ) (m : BTreeMap (List ℕ)) → IsSorted m → IsSorted (without_child hash m)
without_child-IsSorted hash m s =
    remove_parents-IsSorted _ (retain_others hash m) (retain_others-IsSorted hash m s)

-- The children of a parent, as an optional list that is not empty.
abbrev nonempty : List ℕ → Option (List ℕ)
nonempty [] = none
nonempty (x ∷ xs) = some (x ∷ xs)

abbrev after_removal : ℕ → Option (List ℕ) → Option (List ℕ)
after_removal hash none = none
after_removal hash (some l) = nonempty (others hash l)

if-nonempty : (l : List ℕ) → (if is_empty l then none else some l) ≡ nonempty l
if-nonempty [] = refl
if-nonempty (x ∷ xs) = refl

if-after_removal :
    (hash : ℕ) (o : Option (List ℕ))
    → (if holds_empty (option_map (others hash) o) then none else option_map (others hash) o)
      ≡ after_removal hash o
if-after_removal hash none = refl
if-after_removal hash (some l) = if-nonempty (others hash l)

get-without_child :
    (hash p : ℕ) (m : BTreeMap (List ℕ))
    → IsSorted m
    → BTreeMap.get p (without_child hash m) ≡ after_removal hash (BTreeMap.get p m)
get-without_child hash p m s =
    let m' = retain_others hash m in
    let s' = retain_others-IsSorted hash m s in
    let step : BTreeMap.get p (without_child hash m)
        ≡ (if holds_empty (BTreeMap.get p m') then none else BTreeMap.get p m') =
      rw (sym (elem-empty_parents p m' s')) (get-remove_parents p (empty_parents m') m' s') in
    rw (get-retain_others hash p m) at step ∙ if-after_removal hash (BTreeMap.get p m)

elem-nonempty : (h : ℕ) (l : List ℕ) → elem h (or_default (nonempty l)) ≡ elem h l
elem-nonempty h [] = refl
elem-nonempty h (x ∷ xs) = refl

elem-after_removal :
    (hash h : ℕ) (o : Option (List ℕ))
    → elem h (or_default (after_removal hash o)) ≡ (elem h (or_default o) && not (h == hash))
elem-after_removal hash h none = refl
elem-after_removal hash h (some l) =
    elem-nonempty h (others hash l) ∙ elem-filter (λ child. not (child == hash)) h l

-- The children of each parent are those of before but the one that is gone.
pub elem-without_child :
    (hash p h : ℕ) (m : BTreeMap (List ℕ))
    → IsSorted m
    → elem h (or_default (BTreeMap.get p (without_child hash m)))
      ≡ (elem h (or_default (BTreeMap.get p m)) && not (h == hash))
elem-without_child hash p h m s =
    ap (λ o. elem h (or_default o)) (get-without_child hash p m s)
    ∙ elem-after_removal hash h (BTreeMap.get p m)

-- A list of children in the index: it has one, and none twice.
abbrev pub IsTidy : List ℕ → Type 0
IsTidy l = (is_empty l ≡ false) × IsDistinct l

abbrev pub IsTidyAt : Option (List ℕ) → Type 0
IsTidyAt none = Unit
IsTidyAt (some l) = IsTidy l

nonempty-IsTidyAt : (l : List ℕ) → IsDistinct l → IsTidyAt (nonempty l)
nonempty-IsTidyAt [] d = tt
nonempty-IsTidyAt (x ∷ xs) d = (refl, d)

after_removal-IsTidyAt :
    (hash : ℕ) (o : Option (List ℕ)) → IsTidyAt o → IsTidyAt (after_removal hash o)
after_removal-IsTidyAt hash none t = tt
after_removal-IsTidyAt hash (some l) t =
    nonempty-IsTidyAt (others hash l) (IsDistinct-filter _ l t.1)

pub without_child-IsTidyAt :
    (hash p : ℕ) (m : BTreeMap (List ℕ))
    → IsSorted m
    → IsTidyAt (BTreeMap.get p m)
    → IsTidyAt (BTreeMap.get p (without_child hash m))
without_child-IsTidyAt hash p m s t =
    rw (get-without_child hash p m s) (after_removal-IsTidyAt hash (BTreeMap.get p m) t)
