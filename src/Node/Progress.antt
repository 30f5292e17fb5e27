-- ===== src/Node/Progress.antt =====
-- src/runtime/node/node.rs: applying a block ends, whatever orphans wait, and keeps what holds of the node.
use paqus_node.Base.{
  ℕ, zero, suc, ◌+◌, ◌≡◌, ◌<◌, ◌≤◌, refl, sym, ◌∙◌, ap, false, not, ◌&&◌, List, [], ◌∷◌, Option,
  none, some, ◌==◌, arith, ==_iff, elem, IsDistinct, length, Bool-cases, Option-cases, inl, inr,
  Result, ok, err, Result-cases,
}
use mathlib.Core.Path.{subst}
use paqus_node.BTreeMap
use paqus_node.BTreeMap.{BTreeMap, IsSorted}
use paqus_node.BTreeMap.Laws.{get-remove, remove-IsSorted}
use paqus_node.BTreeMap.Sums.{length-remove, remove_absent}
use paqus_node.Node.{Node, NodeError, OrphanBlock}
use paqus_node.Node.Apply.{
  apply_known_parent_block, misses_parent, is_known, process_child, process_children,
  process_parents, process_orphans_for_parent, apply_block,
}
use paqus_node.Node.Keeping.{apply_known_parent_block-Keeps}
use paqus_node.Node.Invariant.{IsNode, cache_orphan_block-IsNode, prune_expired_orphans-IsNode}
use paqus_node.Node.Orphans.{cache_orphan_block, prune_expired_orphans, or_default}
use paqus_node.Node.Orphans.Orphanage.{IsOrphanage, is_child, IsKeyed-remove, length-remove-le}
use paqus_node.Paqus.{Paqus}
use paqus_node.Storage.{StorageApi}

module _ ⦃paqus : Paqus⦄ ⦃storage_api : StorageApi⦄ where
  open paqus use {Block, block_hash, previous_hash}

  -- A child of the list is taken out of the orphans.
  taken-IsOrphanage :
      (child : ℕ) (todo : List ℕ) (orphans : BTreeMap OrphanBlock) (index : BTreeMap (List ℕ))
      → IsOrphanage (child ∷ todo) orphans index
      → elem child todo ≡ false
      → IsOrphanage todo (BTreeMap.remove child orphans) index
  taken-IsOrphanage child todo orphans index v idle = record {
    sorted_orphans = remove-IsSorted child orphans v.sorted_orphans;
    sorted_index = v.sorted_index;
    bounded = omega (arith, length-remove-le child orphans, v.bounded);
    keyed = λ h. IsKeyed-remove h child orphans v.sorted_orphans (v.keyed h);
    indexed = λ p h. ground (arith, get-remove h child orphans v.sorted_orphans, v.indexed p h);
    tidy = v.tidy;
  }

  -- A child that is no longer an orphan needs no more.
  gone-IsOrphanage :
      (child : ℕ) (todo : List ℕ) (orphans : BTreeMap OrphanBlock) (index : BTreeMap (List ℕ))
      → IsOrphanage (child ∷ todo) orphans index
      → elem child todo ≡ false
      → BTreeMap.get child orphans ≡ none
      → IsOrphanage todo orphans index
  gone-IsOrphanage child todo orphans index v idle absent =
      subst (λ (m : BTreeMap OrphanBlock). IsOrphanage todo m index)
        (remove_absent child orphans absent) (taken-IsOrphanage child todo orphans index v idle)

  opened-indexed :
      (parent p h : ℕ) (children : List ℕ) (orphans : BTreeMap OrphanBlock)
      (index : BTreeMap (List ℕ))
      → IsSorted index
      → elem h children ≡ (is_child parent (BTreeMap.get h orphans) && not (elem h []))
      → elem h (or_default (BTreeMap.get p index))
        ≡ (is_child p (BTreeMap.get h orphans) && not (elem h []))
      → elem h (or_default (BTreeMap.get p (BTreeMap.remove parent index)))
        ≡ (is_child p (BTreeMap.get h orphans) && not (elem h children))
  opened-indexed parent p h children orphans index s here there = elim (Bool-cases (p == parent)) [
    | inl same ↦
        let e = (==_iff p parent).0 same in
        let mine = ap (λ q. is_child q (BTreeMap.get h orphans)) e in
        ground (arith, get-remove p parent index s, mine)
    | inr other ↦ elim (Option-cases (BTreeMap.get h orphans)) [
      | inl absent ↦ ground (arith, get-remove p parent index s)
      | inr (o, found) ↦ ground (arith, get-remove p parent index s)
    ]
  ]

  -- A parent is taken out of the index: its children are to be worked on.
  opened-IsOrphanage :
      (parent : ℕ) (children : List ℕ) (orphans : BTreeMap OrphanBlock) (index : BTreeMap (List ℕ))
      → IsOrphanage [] orphans index
      → BTreeMap.get parent index ≡ some children
      → IsOrphanage children orphans (BTreeMap.remove parent index) × IsDistinct children
  opened-IsOrphanage parent children orphans index v found =
      let at_parent : (h : ℕ)
          → elem h children ≡ (is_child parent (BTreeMap.get h orphans) && not (elem h [])) =
        λ h. ap (λ o. elem h (or_default o)) (sym found) ∙ v.indexed parent h in
      (
        record {
          sorted_orphans = v.sorted_orphans;
          sorted_index = remove-IsSorted parent index v.sorted_index;
          bounded = v.bounded;
          keyed = v.keyed;
          indexed = λ p h.
              opened-indexed parent p h children orphans index v.sorted_index (at_parent h)
                (v.indexed p h);
          tidy = λ p. ground (arith, get-remove p parent index v.sorted_index, v.tidy p);
        },
        (rw found at (v.tidy parent)).1,
      )

  -- What is left to do: the parents to look at, and the orphans.
  abbrev work : Node × List ℕ → ℕ
  work r = length r.1 + length r.0.orphan_blocks

  process_child-IsNode :
      (child : ℕ) (todo : List ℕ) (n : Node) (parents : List ℕ) (now : ℕ)
      → IsNode (child ∷ todo) n
      → elem child todo ≡ false
      → let r = process_child n parents child now in IsNode todo r.0 × (work r ≤ work (n, parents))
  unfolding process_child
  process_child-IsNode child todo n parents now v idle =
      elim (Option-cases (BTreeMap.get child n.orphan_blocks)) [
        | inl absent ↦
            rw (absent, process_child)
              (
                record {
                  orphanage = gone-IsOrphanage child todo _ _ v.orphanage idle absent;
                  queue = v.queue;
                  pool = v.pool;
                },
                omega arith,
              )
        | inr (orphan, found) ↦
            let taken : Node = record n { orphan_blocks = BTreeMap.remove child n.orphan_blocks } in
            let keyed : block_hash orphan.block ≡ child = rw found at (v.orphanage.keyed child) in
            let k = apply_known_parent_block-Keeps todo taken orphan.block now (record {
              orphanage = taken-IsOrphanage child todo _ _ v.orphanage idle;
              queue = v.queue;
              pool = v.pool;
            }) in
            let after = (apply_known_parent_block taken orphan.block now).0 in
            let fewer = length-remove child orphan n.orphan_blocks found in
            let same = ap (λ (m : BTreeMap OrphanBlock). length m) k.orphans in
            elim (Result-cases (apply_known_parent_block taken orphan.block now).1) [
              | inl (_, done) ↦ rw (found, done, process_child) (k.valid, omega arith)
              | inr (e, failed) ↦ elim (Bool-cases (misses_parent e)) [
                | inr other ↦ rw (found, failed, other, process_child) (k.valid, omega arith)
                | inl missing ↦
                    let free = subst (λ (h : ℕ). elem h todo ≡ false) (sym keyed) idle in
                    let c = cache_orphan_block-IsNode todo after orphan.block now k.valid free in
                    rw (found, failed, missing, process_child) (c.0, omega (arith, c.1))
              ]
            ]
      ]

  process_children-IsNode :
      (children : List ℕ) (n : Node) (parents : List ℕ) (now : ℕ)
      → IsNode children n
      → IsDistinct children
      → let r = process_children n parents children now in
        IsNode [] r.0 × (work r ≤ work (n, parents))
  unfolding process_children
  process_children-IsNode [] n parents now v d = (v, omega arith)
  process_children-IsNode (child ∷ children) n parents now v d =
      let first = process_child-IsNode child children n parents now v d.0 in
      let r = process_child n parents child now in
      let rest = process_children-IsNode children r.0 r.1 now first.0 d.1 in
      (rest.0, omega (arith, first.1, rest.1))

  abbrev Ends : Option Node → Type 0
  Ends r = (after : Node) × (r ≡ some after) × IsNode [] after

  process_parents-IsNode :
      (fuel : ℕ) (n : Node) (parents : List ℕ) (now : ℕ)
      → IsNode [] n
      → work (n, parents) < fuel
      → Ends (process_parents fuel n parents now)
  unfolding process_parents
  process_parents-IsNode zero n parents now v enough = absurd (omega arith)
  process_parents-IsNode (suc fuel) n [] now v enough = (n, refl, v)
  process_parents-IsNode (suc fuel) n (parent ∷ parents) now v enough =
      elim (Option-cases (BTreeMap.get parent n.orphan_children_by_parent)) [
        | inl none_there ↦
            rw (none_there, process_parents)
              (process_parents-IsNode fuel n parents now v (omega arith))
        | inr (children, found) ↦
            let index = BTreeMap.remove parent n.orphan_children_by_parent in
            let opened : Node = record n { orphan_children_by_parent = index } in
            let o = opened-IsOrphanage parent children _ _ v.orphanage found in
            let w =
              process_children-IsNode children opened parents now
                (record { orphanage = o.0; queue = v.queue; pool = v.pool }) o.1 in
            let r = process_children opened parents children now in
            rw (found, process_parents)
              (process_parents-IsNode fuel r.0 r.1 now w.0 (omega (arith, w.1)))
      ]

  process_orphans_for_parent-IsNode :
      (n : Node) (parent now : ℕ) → IsNode [] n → Ends (process_orphans_for_parent n parent now)
  unfolding process_orphans_for_parent
  process_orphans_for_parent-IsNode n parent now v =
      let pruned = prune_expired_orphans n now in
      process_parents-IsNode (2 + length pruned.orphan_blocks) pruned (parent ∷ []) now
        (prune_expired_orphans-IsNode [] n now v) (omega arith)

  -- Applying a block to a node in step ends, however many orphans become applicable by it, and leaves,
  -- whether it succeeds or fails, a node in step: no more than 1024 orphans, indexed by their parents
  -- exactly; the queue of missing parents with its set and times; a sound pool.
  pub apply_block-IsNode :
      (n : Node) (block : Block) (now : ℕ)
      → IsNode [] n
      → (r : Node × Result NodeError (Unit {0})) × (apply_block n block now ≡ some r)
        × IsNode [] r.0
  unfolding apply_block
  apply_block-IsNode n block now v =
      let pruned = prune_expired_orphans n now in
      let k =
        apply_known_parent_block-Keeps [] pruned block now
          (prune_expired_orphans-IsNode [] n now v) in
      let after = (apply_known_parent_block pruned block now).0 in
      elim (Result-cases (apply_known_parent_block pruned block now).1) [
        | inl (_, done) ↦
            let (last, ended, valid) =
              process_orphans_for_parent-IsNode after (block_hash block) now k.valid in
            ((last, ok tt), rw (done, apply_block, ended) refl, valid)
        | inr (e, failed) ↦ elim (Bool-cases (misses_parent e)) [
          | inl missing ↦ (
            (cache_orphan_block after block now, ok tt),
            rw (failed, missing, apply_block) refl,
            (cache_orphan_block-IsNode [] after block now k.valid refl).0,
          )
          | inr other ↦ elim (Bool-cases (is_known e)) [
            | inl known ↦ ((after, ok tt), rw (failed, other, known, apply_block) refl, k.valid)
            | inr refused ↦ ((after, err e), rw (failed, other, refused, apply_block) refl, k.valid)
          ]
        ]
      ]
