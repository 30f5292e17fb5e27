-- ===== src/Tests/Keys.antt =====
-- Signatures at concrete inputs, with numbers for keys and signatures.
use paqus_node.Base.{ℕ, ◌+◌, ◌==◌, ==_iff, refl, List, [], ◌∷◌}
use paqus_node.Signing.{Crypto, from_secret_key}
use paqus_node.Signing.Verified.{Signs, sign_transaction-Signs}

-- A transaction is its sender and its bytes; a signature is the public key that it verifies under.
instance abbrev pub toy : Crypto
toy = record {
  PublicKey = ℕ;
  SecretKey = ℕ;
  Signature = ℕ;
  Transaction = ℕ × List ℕ;
  SignedTransaction = ℕ × ℕ;
  Randomness = ℕ;
  generate_keypair = λ r. (r + 1, r);
  derive_public_key = λ s. s + 1;
  address_from_public_key = λ k. k + 100;
  address_to_string = λ a. "address";
  sign = λ s message. s + 1;
  verify = λ k message signature. k == signature;
  from = λ t. t.0;
  signing_bytes = λ t. t.1;
  new_signed = λ t k signature. (k, signature);
}

sign_transaction-Signs_example : Signs (from_secret_key 7) (108, 1 ∷ 2 ∷ [])
sign_transaction-Signs_example =
    sign_transaction-Signs 7 (108, 1 ∷ 2 ∷ []) (λ s message. (==_iff (s + 1) (s + 1)).1 refl)
