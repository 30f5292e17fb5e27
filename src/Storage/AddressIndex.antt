-- ===== src/Storage/AddressIndex.antt =====
-- src/runtime/storage/storage.rs, `load_address_transaction_locations`: which entries it reads, and in which
-- order it gives them.
use paqus_node.Base.{
  ℕ, ◌<◌, ◌⊎◌, ltb, ◌≡◌, sym, ◌∙◌, ap, inl, inr, Bool, true, false, List, [], ◌∷◌, filter, Result,
  ok, ◌>>=◌, ok_steps, map_err, map_err-ok, Bytes, be_bytes, starts_with, sort_by, sort_by-perm,
  IsAscending, sort_by-IsAscending, arith, Bool-cases,
}
use mathlib.Core.List.{Perm}
use mathlib.Core.Path.{subst}
use paqus_node.Paqus.{Paqus}
use paqus_node.Storage.{Lmdb, StorageError, database}
use paqus_node.Storage.Access.{decode, address_size}
use paqus_node.Storage.Tables.{Codecs, Storage, AddressTransactionLocation}
use paqus_node.Storage.Loads.{
  le_location, reading, keep_location, decode_locations, load_address_transaction_locations,
}

-- One location is not behind another: it has the lower height, or the same height and the lower index in the
-- block, or both the same and it is received or the other one is sent.
abbrev pub NotBehind : AddressTransactionLocation → AddressTransactionLocation → Type 0
NotBehind a b =
    (a.block_height < b.block_height)
    ⊎ ((a.block_height ≡ b.block_height)
        × ((a.tx_index < b.tx_index)
            ⊎ ((a.tx_index ≡ b.tx_index) × ((a.sent ≡ false) ⊎ (b.sent ≡ true)))))

le_location-NotBehind : (a b : AddressTransactionLocation) → le_location a b ≡ true → NotBehind a b
unfolding le_location
le_location-NotBehind a b e = elim (Bool-cases (ltb a.block_height b.block_height)) [
  | inl lower ↦ inl (ground arith)
  | inr level ↦ elim (Bool-cases (ltb a.tx_index b.tx_index)) [
    | inl before ↦ inr (ground arith, inl (ground arith))
    | inr here ↦ elim (Bool-cases a.sent) [
      | inl sent ↦ inr (ground arith, inr (ground arith, inr (ground arith)))
      | inr received ↦ inr (ground arith, inr (ground arith, inl received))
    ]
  ]
]

not_le_location-NotBehind :
    (a b : AddressTransactionLocation) → le_location a b ≡ false → NotBehind b a
unfolding le_location
not_le_location-NotBehind a b e = elim (Bool-cases (ltb b.block_height a.block_height)) [
  | inl lower ↦ inl (ground arith)
  | inr level ↦ elim (Bool-cases (ltb b.tx_index a.tx_index)) [
    | inl before ↦ inr (ground arith, inl (ground arith))
    | inr here ↦ elim (Bool-cases b.sent) [
      | inl sent ↦ inr (ground arith, inr (ground arith, inr (ground arith)))
      | inr received ↦ inr (ground arith, inr (ground arith, inl received))
    ]
  ]
]

sent_trans :
    (a b c : Bool)
    → ((a ≡ false) ⊎ (b ≡ true))
    → ((b ≡ false) ⊎ (c ≡ true))
    → ((a ≡ false) ⊎ (c ≡ true))
sent_trans a b c (inl e) f = inl e
sent_trans a b c (inr e) (inl f) = absurd (cc (e, f))
sent_trans a b c (inr e) (inr f) = inr f

NotBehind-trans :
    (a b c : AddressTransactionLocation) → NotBehind a b → NotBehind b c → NotBehind a c
NotBehind-trans a b c (inl e) (inl f) = inl (omega arith)
NotBehind-trans a b c (inl e) (inr (f, _)) = inl (omega arith)
NotBehind-trans a b c (inr (e, _)) (inl f) = inl (omega arith)
NotBehind-trans a b c (inr (e, inl e')) (inr (f, inl f')) = inr (e ∙ f, inl (omega arith))
NotBehind-trans a b c (inr (e, inl e')) (inr (f, inr (f', _))) = inr (e ∙ f, inl (omega arith))
NotBehind-trans a b c (inr (e, inr (e', _))) (inr (f, inl f')) = inr (e ∙ f, inl (omega arith))
NotBehind-trans a b c (inr (e, inr (e', g))) (inr (f, inr (f', h))) =
    inr (e ∙ f, inr (e' ∙ f', sent_trans a.sent b.sent c.sent g h))

module _ ⦃paqus : Paqus⦄ ⦃lmdb : Lmdb⦄ ⦃codecs : Codecs⦄ where
  open lmdb use {entries}

  -- The entries whose key begins with the address.
  abbrev pub entries_of : ℕ → List (Bytes × Bytes) → List (Bytes × Bytes)
  entries_of address = filter (λ row. starts_with row.0 (be_bytes address_size address))

  -- The locations are what Borsh reads in the entries, one for one.
  abbrev pub Decodes : List (Bytes × Bytes) → List AddressTransactionLocation → Type 0
  Decodes [] [] = Unit
  Decodes (row ∷ rows) (l ∷ ls) = (decode codecs.address_location row.1 ≡ ok l) × Decodes rows ls
  Decodes [] (l ∷ ls) = ⊥
  Decodes (row ∷ rows) [] = ⊥

  decode_locations-Decodes :
      (address : ℕ) (rows : List (Bytes × Bytes)) (found : List AddressTransactionLocation)
      → decode_locations (be_bytes address_size address) rows ≡ ok found
      → Decodes (entries_of address rows) found
  unfolding decode_locations
  decode_locations-Decodes address [] [] e = tt
  decode_locations-Decodes address [] (l ∷ ls) e = absurd (cc)
  decode_locations-Decodes address ((key, bytes) ∷ rows) found e =
      let prefix = be_bytes address_size address in
      let behind = decode_locations prefix rows in
      elim (Bool-cases (starts_with key prefix)) [
        | inr other ↦
            let rest : behind ≡ ok found = ap (λ b. keep_location b bytes behind) (sym other) ∙ e in
            rw other (decode_locations-Decodes address rows found rest)
        | inl its ↦
            let kept : keep_location true bytes behind ≡ ok found =
              ap (λ b. keep_location b bytes behind) (sym its) ∙ e in
            let (l, decoded, then) =
              ok_steps (decode codecs.address_location bytes) (λ l. do ls ← behind; ok (l ∷ ls))
                kept in
            let (ls, rest, done) = ok_steps behind (λ ls. ok (l ∷ ls)) then in
            let list : l ∷ ls ≡ found = cc in
            subst
              (λ (o : List AddressTransactionLocation).
                Decodes (entries_of address ((key, bytes) ∷ rows)) o)
              list (rw its (decoded, decode_locations-Decodes address rows ls rest))
      ]

  -- If the locations of an address are loaded, they are a permutation of what Borsh reads, one for one, in
  -- the entries whose key begins with the address, and they ascend by the height, then by the index in the
  -- block, then by the direction, with what was received before what was sent.
  pub load_address_transaction_locations-IsAscending :
      (s : Storage) (address : ℕ) (ls : List AddressTransactionLocation)
      → load_address_transaction_locations s address ≡ ok ls
      → (txn : lmdb.RoTransaction) × (rows : List (Bytes × Bytes)) × (found : List
          AddressTransactionLocation)
        × (lmdb.begin_ro_txn s.env ≡ ok txn)
        × (entries txn s.address_tx_index ≡ ok rows)
        × Decodes (entries_of address rows) found
        × IsAscending NotBehind ls
        × Perm ls found
  unfolding load_address_transaction_locations
  load_address_transaction_locations-IsAscending s address ls e =
      let prefix = be_bytes address_size address in
      let ordered : List AddressTransactionLocation
          → Result StorageError (List AddressTransactionLocation) =
        λ found. ok (sort_by le_location found) in
      let (txn, opened, e1) =
        ok_steps (reading s)
          (λ txn. do
            rows ← map_err database (entries txn s.address_tx_index)
            found ← decode_locations prefix rows
            ordered found)
          e in
      let (rows, read, e2) =
        ok_steps (map_err database (entries txn s.address_tx_index))
          (λ rows. do found ← decode_locations prefix rows; ordered found) e1 in
      let (found, decoded, e3) = ok_steps (decode_locations prefix rows) ordered e2 in
      let sorted : sort_by le_location found ≡ ls = cc in
      (
        txn,
        rows,
        found,
        map_err-ok database (lmdb.begin_ro_txn s.env) opened,
        map_err-ok database (entries txn s.address_tx_index) read,
        decode_locations-Decodes address rows found decoded,
        subst (IsAscending NotBehind) sorted (
            sort_by-IsAscending NotBehind le_location le_location-NotBehind
              not_le_location-NotBehind NotBehind-trans found),
        subst (λ (l : List AddressTransactionLocation). Perm l found) sorted
            (sort_by-perm le_location found),
      )
