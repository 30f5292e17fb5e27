-- ===== src/Tests/Stored.antt =====
-- The check of a stored chain at concrete inputs.
use paqus_node.Base.{◌≡◌, ◌↔◌, refl, [], ◌∷◌, some, ok}
use paqus_node.BTreeMap
use paqus_node.Storage.Integrity.{Reads, check_down, check_tip, validate_chain_integrity}
use paqus_node.Storage.Integrity.Chain.{HoldsChain, validate_chain_integrity_iff}
use paqus_node.Tests.Disk.{files}
use paqus_node.Tests.Sample.{sample, slab}

abbrev two_blocks : Reads
two_blocks = record {
  load_tip = ok (some (1, 101));
  load_block_by_height = λ h. ok (BTreeMap.get h ((0, slab 0 0 0) ∷ (1, slab 1 1 0) ∷ []));
}

accepted : validate_chain_integrity two_blocks ≡ ok tt
unfolding validate_chain_integrity check_tip check_down BTreeMap.get
accepted = refl

validate_chain_integrity_iff_example :
    (validate_chain_integrity two_blocks ≡ ok tt) ↔ HoldsChain two_blocks
validate_chain_integrity_iff_example = validate_chain_integrity_iff two_blocks
