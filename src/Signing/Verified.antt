-- ===== src/Signing/Verified.antt =====
-- A wallet signs its own transactions, and nobody else's.
use paqus_node.Base.{
  ℕ, ◌≡◌, ◌≢◌, ◌⊎◌, inl, inr, refl, sym, true, List, ◌==◌, ==_iff, ok, err, arith, Bool-cases,
}
use paqus_node.Signing.{
  Crypto, Wallet, sender_address_mismatch, from_keypair, from_secret_key, sign_transaction,
}

module _ ⦃crypto : Crypto⦄ where
  open crypto use {
    PublicKey, SecretKey, Signature, Transaction, Randomness, generate_keypair, derive_public_key,
    address_from_public_key, sign, verify, from, signing_bytes, new_signed,
  }

  -- A transaction of the wallet's address is signed by its key so that the signature verifies under the
  -- sender's public key; any other is refused.
  abbrev pub Signs : Wallet → Transaction → Type 0
  Signs w t =
      ((from t ≡ w.address)
        × (signature : Signature) × (sign_transaction w t
            ≡ ok (new_signed t w.public_key signature))
        × (verify w.public_key (signing_bytes t) signature ≡ true)
        × (address_from_public_key w.public_key ≡ from t))
      ⊎ ((from t ≢ w.address) × (sign_transaction w t ≡ err sender_address_mismatch))

  -- If a signature verifies under the key derived from the key that made it, then a wallet made from a
  -- secret key signs each transaction of its own address, with a signature that verifies under a
  -- public key whose address is the sender's, and refuses every other transaction.
  pub sign_transaction-Signs :
      (secret : SecretKey) (t : Transaction)
      → ((s : SecretKey) (message : List ℕ)
          → verify (derive_public_key s) message (sign s message) ≡ true)
      → Signs (from_secret_key secret) t
  unfolding sign_transaction from_secret_key from_keypair
  sign_transaction-Signs secret t verifies =
      elim (Bool-cases (from t == address_from_public_key (derive_public_key secret))) [
        | inl own ↦
            let same = (==_iff _ _).0 own in
            inl (
              same,
              sign secret (signing_bytes t),
              rw own refl,
              verifies secret (signing_bytes t),
              sym same,
            )
        | inr other ↦ inr (λ same. absurd (ground arith), rw other refl)
      ]
