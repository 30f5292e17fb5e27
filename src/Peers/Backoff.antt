-- ===== src/Peers/Backoff.antt =====
-- src/p2p.rs: the wait grows with the failures in a row, within its bounds.
use paqus_node.Base.{
  ℕ, zero, suc, ◌+◌, ◌-◌, ◌*◌, min, ◌≡◌, ◌<◌, refl, sym, ap, ◌∙◌, saturating_add_u32, Option, arith,
  u32_modulus,
}
use paqus_node.Peers.{PeerState, retry_secs, mark_ok, mark_failed}

-- `k` failures in a row, all noticed at one time.
abbrev pub fail_times : ℕ → PeerState → ℕ → PeerState
fail_times zero p now = p
fail_times (suc k) p now = mark_failed (fail_times k p now) now

-- Two seconds after the first failure, then twice the last wait, up to a minute.
abbrev pub doubling : ℕ → ℕ
doubling zero = 2
doubling (suc k) = min (2 * doubling k) 60

retry_secs_late : (n : ℕ) → retry_secs (suc (suc (suc (suc (suc (suc n)))))) ≡ 60
unfolding retry_secs
retry_secs_late n =
    let e : min (suc (suc (suc (suc (suc (suc n))))) - 1) 5 ≡ 5 = omega arith in rw e

doubling_late : (n : ℕ) → doubling (suc (suc (suc (suc (suc n))))) ≡ 60
doubling_late zero = refl
doubling_late (suc n) = omega (arith, doubling_late n)

retry_secs-doubling : (k : ℕ) → retry_secs (suc k) ≡ doubling k
unfolding retry_secs
retry_secs-doubling zero = refl
retry_secs-doubling (suc zero) = refl
retry_secs-doubling (suc (suc zero)) = refl
retry_secs-doubling (suc (suc (suc zero))) = refl
retry_secs-doubling (suc (suc (suc (suc zero)))) = refl
retry_secs-doubling (suc (suc (suc (suc (suc n))))) = retry_secs_late n ∙ sym (doubling_late n)

fail_times-failures :
    (k : ℕ) (p : PeerState) (now : ℕ)
    → p.failures ≡ 0
    → k < u32_modulus
    → (fail_times k p now).failures ≡ k
unfolding mark_failed
fail_times-failures zero p now h b = h
fail_times-failures (suc k) p now h b = omega (arith, fail_times-failures k p now h (omega arith))

fail_times-last_tip : (k : ℕ) (p : PeerState) (now : ℕ) → (fail_times k p now).last_tip ≡ p.last_tip
unfolding mark_failed
fail_times-last_tip zero p now = refl
fail_times-last_tip (suc k) p now = fail_times-last_tip k p now

-- After a success, the (k+1)-th failure in a row (k + 1 below 2³²) leaves the peer alone for two
-- seconds doubled k times, or for a minute where that is more; a success clears the count.
pub fail_times-doubling :
    (k : ℕ) (p : PeerState) (tip : Option ℕ) (now later : ℕ)
    → suc k < u32_modulus
    → let q = fail_times (suc k) (mark_ok p tip now) later in
      (q.next_attempt ≡ later + doubling k) × (q.failures ≡ suc k) × (q.last_tip ≡ tip)
unfolding mark_failed mark_ok
fail_times-doubling k p tip now later b =
    let p' = mark_ok p tip now in
    let count : saturating_add_u32 (fail_times k p' later).failures 1 ≡ suc k =
      omega (arith, fail_times-failures k p' later refl (omega arith)) in
    (
      rw count (ap (λ (w : ℕ). later + w) (retry_secs-doubling k)),
      count,
      fail_times-last_tip k p' later,
    )
