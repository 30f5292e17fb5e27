-- ===== src/Node/Orphans/Orphanage.antt =====
-- src/runtime/node/node.rs: the orphans and the index of them stay in step.
use paqus_node.Base.{
  ℕ, ◌≡◌, ◌<◌, ◌≤◌, refl, sym, ◌∙◌, ap, Bool, false, not, ◌&&◌, ◌||◌, List, [], ◌∷◌, ◌++◌, Option,
  none, some, ◌==◌, arith, elem, IsDistinct-append, elem-append, ==_iff, length, Bool-cases,
  Option-cases, inl, inr,
}
use mathlib.Core.Path.{subst}
use paqus_node.BTreeMap
use paqus_node.BTreeMap.{BTreeMap, IsSorted}
use paqus_node.BTreeMap.Laws.{insert-IsSorted, remove-IsSorted, get-insert, get-remove}
use paqus_node.BTreeMap.Sums.{length-insert, length-remove, remove_absent}
use paqus_node.Node.{Node, OrphanBlock, max_orphan_blocks}
use paqus_node.Node.Orphans.{or_default, remove_orphan_index, remove_orphan}
use paqus_node.Node.Orphans.Index.{
  without_child-IsSorted, elem-without_child, IsTidyAt, without_child-IsTidyAt,
}
use paqus_node.Paqus.{Paqus}
use paqus_node.Storage.{StorageApi}

module _ ⦃paqus : Paqus⦄ ⦃storage_api : StorageApi⦄ where
  open paqus use {Block, block_hash, previous_hash, height, fork_contains}

  -- Whether an orphan is there and has this parent.
  abbrev pub is_child : ℕ → Option OrphanBlock → Bool
  is_child parent none = false
  is_child parent (some orphan) = previous_hash orphan.block == parent

  abbrev pub IsKeyed : ℕ → Option OrphanBlock → Type 0
  IsKeyed h none = Unit
  IsKeyed h (some orphan) = block_hash orphan.block ≡ h

  -- No more than 1024 orphans, each under its hash; the index lists, under each parent, exactly its
  -- children among the orphans, once each, less those of `todo`, and no parent without one.
  pub record IsOrphanage (todo : List ℕ) (orphans : BTreeMap OrphanBlock)
      (index : BTreeMap (List ℕ)) : Type 0 where
    pub sorted_orphans : IsSorted orphans
    pub sorted_index : IsSorted index
    pub bounded : length orphans ≤ max_orphan_blocks
    pub keyed : (h : ℕ) → IsKeyed h (BTreeMap.get h orphans)
    pub indexed :
        (p h : ℕ)
        → elem h (or_default (BTreeMap.get p index))
          ≡ (is_child p (BTreeMap.get h orphans) && not (elem h todo))
    pub tidy : (p : ℕ) → IsTidyAt (BTreeMap.get p index)

  abbrev pub HasOrphanage : List ℕ → Node → Type 0
  HasOrphanage todo n = IsOrphanage todo n.orphan_blocks n.orphan_children_by_parent

  pub IsKeyed-remove :
      (h hash : ℕ) (orphans : BTreeMap OrphanBlock)
      → IsSorted orphans
      → IsKeyed h (BTreeMap.get h orphans)
      → IsKeyed h (BTreeMap.get h (BTreeMap.remove hash orphans))
  IsKeyed-remove h hash orphans s k = ground (arith, get-remove h hash orphans s)

  pub length-remove-le :
      (hash : ℕ) (orphans : BTreeMap OrphanBlock)
      → length (BTreeMap.remove hash orphans) ≤ length orphans
  length-remove-le hash orphans = elim (Option-cases (BTreeMap.get hash orphans)) [
    | inl absent ↦ rw (remove_absent hash orphans absent) (omega arith)
    | inr (o, found) ↦ omega (arith, length-remove hash o orphans found)
  ]

  pub remove_orphan-IsOrphanage :
      (todo : List ℕ) (n : Node) (hash : ℕ)
      → HasOrphanage todo n
      → HasOrphanage todo (remove_orphan n hash)
  unfolding remove_orphan remove_orphan_index
  remove_orphan-IsOrphanage todo n hash v = record {
    sorted_orphans = remove-IsSorted hash n.orphan_blocks v.sorted_orphans;
    sorted_index = without_child-IsSorted hash n.orphan_children_by_parent v.sorted_index;
    bounded = omega (arith, length-remove-le hash n.orphan_blocks, v.bounded);
    keyed = λ h. IsKeyed-remove h hash n.orphan_blocks v.sorted_orphans (v.keyed h);
    indexed = λ p h. ground (
      arith,
      elem-without_child hash p h n.orphan_children_by_parent v.sorted_index,
      v.indexed p h,
      get-remove h hash n.orphan_blocks v.sorted_orphans,
    );
    tidy = λ p. without_child-IsTidyAt hash p n.orphan_children_by_parent v.sorted_index (v.tidy p);
  }

  tidy_pushed :
      (hash : ℕ) (o : Option (List ℕ))
      → IsTidyAt o
      → elem hash (or_default o) ≡ false
      → IsTidyAt (some (or_default o ++ hash ∷ []))
  tidy_pushed hash none t new = (refl, (refl, tt))
  tidy_pushed hash (some []) t new = (refl, (refl, tt))
  tidy_pushed hash (some (x ∷ xs)) t new = (refl, IsDistinct-append hash (x ∷ xs) new t.1)

  elem-pushed :
      (p parent h hash : ℕ) (index : BTreeMap (List ℕ))
      → elem h (
          or_default (
            BTreeMap.get p
              (BTreeMap.insert parent (or_default (BTreeMap.get parent index) ++ hash ∷ []) index)))
        ≡ (elem h (or_default (BTreeMap.get p index)) || (p == parent && h == hash))
  elem-pushed p parent h hash index =
      let children = or_default (BTreeMap.get parent index) in
      let read = get-insert p parent (children ++ hash ∷ []) index in
      elim (Bool-cases (p == parent)) [
        | inl same ↦
            let e = (==_iff p parent).0 same in
            ground (
              arith,
              read,
              same,
              elem-append h hash children,
              ap (λ q. elem h (or_default (BTreeMap.get q index))) e,
            )
        | inr other ↦ ground (arith, read, other)
      ]

  stored-indexed :
      (todo : List ℕ) (orphans : BTreeMap OrphanBlock) (index : BTreeMap (List ℕ))
      (orphan : OrphanBlock)
      → IsOrphanage todo orphans index
      → BTreeMap.get (block_hash orphan.block) orphans ≡ none
      → elem (block_hash orphan.block) todo ≡ false
      → (p h : ℕ)
      → (elem h (or_default (BTreeMap.get p index))
          || (p == previous_hash orphan.block && h == block_hash orphan.block))
        ≡ (is_child p (BTreeMap.get h (BTreeMap.insert (block_hash orphan.block) orphan orphans))
            && not (elem h todo))
  stored-indexed todo orphans index orphan v absent idle p h =
      let hash = block_hash orphan.block in
      let read = get-insert h hash orphan orphans in
      elim (Bool-cases (h == hash)) [
        | inl same ↦
            let e = (==_iff h hash).0 same in
            let out : elem h (or_default (BTreeMap.get p index)) ≡ false =
              subst (λ (k : ℕ). elem k (or_default (BTreeMap.get p index)) ≡ false) (sym e)
                (ground (arith, v.indexed p hash)) in
            let free = subst (λ (k : ℕ). elem k todo ≡ false) (sym e) idle in ground (arith, read)
        | inr other ↦ ground (arith, read, v.indexed p h)
      ]

  -- A new block goes in under its hash and, last, under its parent.
  pub stored-IsOrphanage :
      (todo : List ℕ) (orphans : BTreeMap OrphanBlock) (index : BTreeMap (List ℕ)) (block : Block)
      (now : ℕ)
      → IsOrphanage todo orphans index
      → length orphans < max_orphan_blocks
      → BTreeMap.get (block_hash block) orphans ≡ none
      → elem (block_hash block) todo ≡ false
      → IsOrphanage todo
          (BTreeMap.insert (block_hash block) (record { block = block; received_at = now }) orphans)
          (BTreeMap.insert
            (previous_hash block)
            (or_default (BTreeMap.get (previous_hash block) index) ++ block_hash block ∷ [])
            index)
  stored-IsOrphanage todo orphans index block now v room absent idle =
      let hash = block_hash block in
      let parent = previous_hash block in
      let orphan : OrphanBlock = record { block = block; received_at = now } in
      let children = or_default (BTreeMap.get parent index) in
      let new : elem hash children ≡ false = ground (arith, v.indexed parent hash) in
      record {
        sorted_orphans = insert-IsSorted hash orphan orphans v.sorted_orphans;
        sorted_index = insert-IsSorted parent (children ++ hash ∷ []) index v.sorted_index;
        bounded = omega (arith, length-insert hash orphan orphans absent);
        keyed = λ h. ground (arith, get-insert h hash orphan orphans, v.keyed h, ==_iff h hash);
        indexed = λ p h.
            elem-pushed p parent h hash index
            ∙ stored-indexed todo orphans index orphan v absent idle p h;
        tidy = λ p. ground (
          arith,
          get-insert p parent (children ++ hash ∷ []) index,
          tidy_pushed hash (BTreeMap.get parent index) (v.tidy parent) new,
          v.tidy p,
        );
      }
