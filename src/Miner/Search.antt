-- ===== src/Miner/Search.antt =====
-- The search of src/runtime/miner/miner.rs finds the first nonce that works, and only that.
use paqus_node.Base.{
  ℕ, zero, suc, ◌+◌, ◌≡◌, ◌≢◌, ◌≤◌, ◌<◌, refl, sym, ◌∙◌, true, false, Option, none, some, ◌==◌,
  Result, ok, err, Bool-cases, Result-cases, ◌⊎◌, inl, inr, arith, u64_max, saturating_add,
}
use mathlib.Core.Path.{subst}
use paqus_node.Miner.{MiningConfig, MiningResult, mine_from, mine_prepared_block}
use paqus_node.Paqus.{Paqus}

module _ ⦃paqus : Paqus⦄ where
  open paqus use {Block, set_nonce, Consensus, ConsensusError, proof_of_work_hash, is_proof_of_work}

  module _ (consensus : Consensus) (config : MiningConfig) (block : Block) where
    -- The attempt's hash is computed, and misses the target.
    abbrev pub Misses : ℕ → Type 0
    Misses i =
        (config.difficulty ≢ 0)
        × (hash : ℕ) × (proof_of_work_hash consensus (set_nonce block i) ≡ ok hash)
        × (is_proof_of_work consensus hash config.difficulty ≡ false)

    -- The attempt is accepted: at difficulty 0, or by its hash.
    abbrev pub Hits : ℕ → Type 0
    Hits i =
        (config.difficulty ≡ 0)
        ⊎ ((hash : ℕ) × (proof_of_work_hash consensus (set_nonce block i) ≡ ok hash)
            × (is_proof_of_work consensus hash config.difficulty ≡ true))

    -- Every attempt from `first` to below `last` misses.
    abbrev pub AllMiss : ℕ → ℕ → Type 0
    AllMiss first last = (i : ℕ) → first ≤ i → i < last → Misses i

    -- What the search says of the attempts from `first` to below `last`.
    abbrev pub Searched : ℕ → ℕ → Result ConsensusError (Option (MiningResult Block)) → Type 0
    Searched first last (ok none) = AllMiss first last
    Searched first last (ok (some r)) =
        (i : ℕ) × (first ≤ i)
        × (i < last)
        × (r.block ≡ set_nonce block i)
        × (r.attempts ≡ suc i)
        × Hits i
        × AllMiss first i
    Searched first last (err e) =
        (i : ℕ) × (first ≤ i)
        × (i < last)
        × (proof_of_work_hash consensus (set_nonce block i) ≡ err e)
        × AllMiss first i

    AllMiss-cons : (first last : ℕ) → Misses first → AllMiss (first + 1) last → AllMiss first last
    AllMiss-cons first last m all i h k = elim (Bool-cases (i == first)) [
      | inl here ↦ let e : i ≡ first = ground arith in subst (λ (j : ℕ). Misses j) (sym e) m
      | inr later ↦ all i (ground arith) k
    ]

    Searched-cons :
        (first last : ℕ) (r : Result ConsensusError (Option (MiningResult Block)))
        → Misses first
        → Searched (first + 1) last r
        → Searched first last r
    Searched-cons first last (ok none) m s = AllMiss-cons first last m s
    Searched-cons first last (ok (some r)) m (i, a, b, c, d, hit, all) =
        (i, omega arith, b, c, d, hit, AllMiss-cons first i m all)
    Searched-cons first last (err e) m (i, a, b, c, all) =
        (i, omega arith, b, c, AllMiss-cons first i m all)

    -- A hit on the first attempt.
    hit_here :
        (first last : ℕ) (r : MiningResult Block)
        → r.block ≡ set_nonce block first
        → r.attempts ≡ suc first
        → first < last
        → Hits first
        → Searched first last (ok (some r))
    hit_here first last r b a room hit =
        (first, omega arith, room, b, a, hit, λ i h k. absurd (omega arith))

    module _
        (same_block : (c : Block) (i j : ℕ) → set_nonce (set_nonce c i) j ≡ set_nonce c j) where
      mine_from-Searched :
          (left first last : ℕ) (b : Block)
          → ((i : ℕ) → set_nonce b i ≡ set_nonce block i)
          → first + left ≡ last
          → last ≤ u64_max
          → Searched first last (mine_from consensus config b first left)
      unfolding mine_from
      mine_from-Searched zero first last b same sum room = λ i h k. absurd (omega arith)
      mine_from-Searched (suc left) first last b same sum room =
          let step : saturating_add first 1 ≡ suc first = omega arith in
          elim (Bool-cases (config.difficulty == 0)) [
            | inl zero_difficulty ↦
                rw (zero_difficulty, mine_from)
                  (hit_here first last _ (same first) step (omega arith) (inl (ground arith)))
            | inr positive ↦
                elim (Result-cases (proof_of_work_hash consensus (set_nonce b first))) [
                  | inr (e, failed) ↦
                      rw (positive, failed, mine_from)
                        (
                          first,
                          omega arith,
                          omega arith,
                          rw (same first) at failed,
                          λ i h k. absurd (omega arith),
                        )
                  | inl (hash, computed) ↦
                      let here = rw (same first) at computed in
                      elim (Bool-cases (is_proof_of_work consensus hash config.difficulty)) [
                        | inl good ↦
                            rw (positive, computed, good, mine_from)
                              (hit_here first last _ (same first) step (omega arith)
                                (inr (hash, here, good)))
                        | inr bad ↦
                            rw (positive, computed, bad, mine_from)
                              (Searched-cons first last _
                                ((λ z. absurd (ground arith)), hash, here, bad)
                                (mine_from-Searched left (first + 1) last (set_nonce b first)
                                  (λ i. same_block b first i ∙ same i) (omega arith) room))
                      ]
                ]
          ]

      -- If writing the nonce twice is writing it once, and the attempts fit in a `u64`, the search returns
      -- a block only with the first nonce below the limit that is accepted, after that nonce plus one
      -- attempts; it returns nothing only if every nonce below the limit misses; and it fails only with
      -- the error of the first nonce whose hash cannot be computed, all earlier ones missing.
      pub mine_prepared_block-Searched :
          config.max_attempts ≤ u64_max
          → Searched 0 config.max_attempts (mine_prepared_block block consensus config)
      unfolding mine_prepared_block
      mine_prepared_block-Searched room =
          mine_from-Searched config.max_attempts 0 config.max_attempts block (λ i. refl)
            (omega arith) room
