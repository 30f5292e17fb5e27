-- ===== src/Signing.antt =====
-- src/runtime/wallet/wallet.rs and src/runtime/wallet/error.rs: the keys of a wallet and its signatures. The
-- cryptography and the transactions of the crate `paqus` are the argument `crypto`.
pub mod Verified
use paqus_node.Base.{ℕ, Bool, true, false, not, List, Option, ◌==◌, Result, ok, err, if◌then◌else◌}
use Prim.Native.String.{String}

-- `paqus::crypto`, `Transaction` and `SignedTransaction`. A new key pair depends on the randomness.
pub record Crypto : Type 1 where
  pub PublicKey : Type 0
  pub SecretKey : Type 0
  pub Signature : Type 0
  pub Transaction : Type 0
  pub SignedTransaction : Type 0
  pub Randomness : Type 0
  pub generate_keypair : Randomness → PublicKey × SecretKey
  pub derive_public_key : SecretKey → PublicKey
  pub address_from_public_key : PublicKey → ℕ
  pub address_to_string : ℕ → String
  pub sign : SecretKey → List ℕ → Signature
  pub verify : PublicKey → List ℕ → Signature → Bool
  pub from : Transaction → ℕ
  pub signing_bytes : Transaction → List ℕ
  pub new_signed : Transaction → PublicKey → Signature → SignedTransaction

pub data WalletError : Type 0 where
  sender_address_mismatch : WalletError

module _ ⦃crypto : Crypto⦄ where
  open crypto use {
    PublicKey, SecretKey, Transaction, SignedTransaction, Randomness, generate_keypair,
    derive_public_key, address_from_public_key, address_to_string, sign, from, signing_bytes,
    new_signed,
  }

  pub record Wallet : Type 0 where
    pub public_key : PublicKey
    pub secret_key : SecretKey
    pub address : ℕ

  unfoldable pub from_keypair : PublicKey → SecretKey → Wallet
  from_keypair public secret = record {
    public_key = public;
    secret_key = secret;
    address = address_from_public_key public;
  }

  unfoldable pub from_secret_key : SecretKey → Wallet
  from_secret_key secret = from_keypair (derive_public_key secret) secret

  unfoldable pub generate : Randomness → Wallet
  generate r = let (public, secret) = generate_keypair r in from_keypair public secret

  unfoldable pub wallet_address : Wallet → String
  wallet_address w = address_to_string w.address

  unfoldable pub sign_transaction : Wallet → Transaction → Result WalletError SignedTransaction
  sign_transaction w t =
      if not (from t == w.address)
      then err sender_address_mismatch
      else ok (new_signed t w.public_key (sign w.secret_key (signing_bytes t)))
