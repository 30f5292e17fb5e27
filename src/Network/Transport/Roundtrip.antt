-- ===== src/Network/Transport/Roundtrip.antt =====
-- What is written on a stream is read from it.
use paqus_node.Base.{
  ℕ, zero, suc, ◌≡◌, ◌≤◌, ◌<◌, refl, sym, ◌∙◌, ap, false, List, [], ◌∷◌, ◌++◌, some, ltb, length,
  Result, ok, ◌>>=◌, arith, ==_iff, u32_modulus, Result-cases, inl, inr,
}
use mathlib.Core.Path.{subst}
use paqus_node.Network.{
  NetworkMessage, NetworkEnvelope, NetworkError, to_envelope, Borsh, to_bytes, from_bytes,
  max_network_message_size,
}
use paqus_node.Network.Transport.{
  to_be_bytes, from_be_bytes, read_exact, write_message, read_message,
}
use paqus_node.Paqus.{Paqus}
use paqus_node.Storage.{StorageApi}

from_be_bytes-to_be_bytes : (n : ℕ) → n < u32_modulus → from_be_bytes (to_be_bytes n) ≡ n
unfolding from_be_bytes to_be_bytes
from_be_bytes-to_be_bytes n h = omega arith

read_exact-append : (xs ys : List ℕ) → read_exact (length xs) (xs ++ ys) ≡ some (xs, ys)
unfolding read_exact
read_exact-append [] ys = refl
read_exact-append (x ∷ xs) ys = rw (read_exact-append xs ys, read_exact) refl

read_exact-to_be_bytes :
    (n : ℕ) (ys : List ℕ) → read_exact 4 (to_be_bytes n ++ ys) ≡ some (to_be_bytes n, ys)
unfolding to_be_bytes read_exact
read_exact-to_be_bytes n ys = refl

append_assoc : (xs ys zs : List ℕ) → (xs ++ ys) ++ zs ≡ xs ++ (ys ++ zs)
append_assoc [] ys zs = refl
append_assoc (x ∷ xs) ys zs = ap (λ l. x ∷ l) (append_assoc xs ys zs)

append_nil : (xs : List ℕ) → xs ++ [] ≡ xs
append_nil [] = refl
append_nil (x ∷ xs) = ap (λ l. x ∷ l) (append_nil xs)

module _ ⦃paqus : Paqus⦄ ⦃storage_api : StorageApi⦄ ⦃borsh : Borsh⦄ where
  open paqus use {network_magic}
  open borsh use {to_vec, try_from_slice}

  -- Messages one after the other.
  unfoldable pub write_all : List ℕ → List NetworkMessage → Result NetworkError (List ℕ)
  write_all written [] = ok written
  write_all written (m ∷ ms) = do next ← write_message written (to_envelope m); write_all next ms

  unfoldable pub read_all : ℕ → List ℕ → Result NetworkError (List NetworkMessage × List ℕ)
  read_all zero stream = ok ([], stream)
  read_all (suc n) stream = do
    (envelope, behind) ← read_message stream
    (ms, rest) ← read_all n behind
    ok (envelope.message ∷ ms, rest)

  module _
      (law : (e : NetworkEnvelope) (b : List ℕ) → to_vec e ≡ ok b → try_from_slice b ≡ ok e) where
    from_bytes-to_bytes :
        (m : NetworkMessage) (bytes : List ℕ)
        → to_bytes (to_envelope m) ≡ ok bytes
        → (from_bytes bytes ≡ ok (to_envelope m)) × (length bytes ≤ max_network_message_size)
    unfolding to_bytes from_bytes to_envelope
    from_bytes-to_bytes m bytes e = elim (Result-cases (to_vec (to_envelope m))) [
      | inr (x, failed) ↦ absurd (ground arith)
      | inl (b, encoded) ↦
          let same : b ≡ bytes = ground arith in
          let decoded : try_from_slice bytes ≡ ok (to_envelope m) =
            subst (λ (l : List ℕ). try_from_slice l ≡ ok (to_envelope m)) same
              (law (to_envelope m) b encoded) in
          (ground (arith, ==_iff network_magic network_magic), ground arith)
    ]

    read_framed :
        (m : NetworkMessage) (bytes more : List ℕ)
        → from_bytes bytes ≡ ok (to_envelope m)
        → length bytes ≤ max_network_message_size
        → read_message (to_be_bytes (length bytes) ++ (bytes ++ more)) ≡ ok (to_envelope m, more)
    unfolding read_message
    read_framed m bytes more back small =
        let size = from_be_bytes-to_be_bytes (length bytes) (omega arith) in
        let fits : ltb max_network_message_size (length bytes) ≡ false = ground arith in
        rw
          (
            read_exact-to_be_bytes (length bytes) (bytes ++ more),
            size,
            fits,
            read_exact-append bytes more,
            back,
          )
          refl

    -- What a message adds to the stream is read back, whatever follows.
    abbrev Reads : NetworkMessage → List ℕ → Type 0
    Reads m tail = (more : List ℕ) → read_message (tail ++ more) ≡ ok (to_envelope m, more)

    read_message-write_message :
        (m : NetworkMessage) (written stream : List ℕ)
        → write_message written (to_envelope m) ≡ ok stream
        → (tail : List ℕ) × (stream ≡ written ++ tail) × Reads m tail
    unfolding write_message
    read_message-write_message m written stream e = elim (Result-cases (to_bytes (to_envelope m))) [
      | inr (x, failed) ↦ absurd (ground arith)
      | inl (bytes, encoded) ↦
          let (back, small) = from_bytes-to_bytes m bytes encoded in
          (
            to_be_bytes (length bytes) ++ bytes,
            ground arith,
            λ more.
                subst (λ (s : List ℕ). read_message s ≡ ok (to_envelope m, more))
                  (sym (append_assoc (to_be_bytes (length bytes)) bytes more))
                  (read_framed m bytes more back small),
          )
    ]

    written_is : (written stream : List ℕ) → write_all written [] ≡ ok stream → written ≡ stream
    unfolding write_all
    written_is written stream e = ground arith

    read_all-written :
        (ms : List NetworkMessage) (written stream : List ℕ)
        → write_all written ms ≡ ok stream
        → (tail : List ℕ) × (stream ≡ written ++ tail)
          × ((more : List ℕ) → read_all (length ms) (tail ++ more) ≡ ok (ms, more))
    unfolding write_all read_all to_envelope
    read_all-written [] written stream e =
        ([], sym (append_nil written ∙ written_is written stream e), λ more. refl)
    read_all-written (m ∷ ms) written stream e =
        elim (Result-cases (write_message written (to_envelope m))) [
          | inr (x, failed) ↦ absurd (ground arith)
          | inl (next, wrote) ↦
              let (first, joined, reads) = read_message-write_message m written next wrote in
              let (last, whole, reads_all) = read_all-written ms next stream (ground arith) in
              (
                first ++ last,
                whole ∙ ap (λ (l : List ℕ). l ++ last) joined ∙ append_assoc written first last,
                λ more.
                    let here = reads (last ++ more) in
                    let there = reads_all more in
                    subst (λ (s : List ℕ). read_all (length (m ∷ ms)) s ≡ ok (m ∷ ms, more))
                      (sym (append_assoc first last more)) (rw (here, there, read_all) refl),
              )
        ]

  -- If Borsh reads what it has written, then the messages that were written on an empty stream are read
  -- from it, as many, the same and in the same order, with nothing left over.
  pub read_all-write_all :
      (ms : List NetworkMessage) (stream : List ℕ)
      → ((e : NetworkEnvelope) (b : List ℕ) → to_vec e ≡ ok b → try_from_slice b ≡ ok e)
      → write_all [] ms ≡ ok stream
      → read_all (length ms) stream ≡ ok (ms, [])
  read_all-write_all ms stream law e =
      let (tail, whole, reads) = read_all-written law ms [] stream e in
      subst (λ (s : List ℕ). read_all (length ms) s ≡ ok (ms, [])) (append_nil tail ∙ sym whole)
        (reads [])
