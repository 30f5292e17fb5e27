-- ===== src/Storage/AccountRows.antt =====
-- src/runtime/storage/storage.rs, the first loop of `load_ledger`: the rows of the accounts.
use paqus_node.Base.{
  ℕ, ◌<◌, ◌^◌, ◌≡◌, refl, sym, ◌∙◌, ap, true, List, [], ◌∷◌, some, ◌==◌, if◌then◌else◌, ok, Bytes,
  be_bytes, same_bytes, same_bytes_refl, same_bytes-be_bytes, any, is_some, All, arith, Bool-cases,
  inl, inr,
}
use paqus_node.BTreeMap
use paqus_node.BTreeMap.{BTreeMap, get}
use paqus_node.BTreeMap.Laws.{get-insert}
use paqus_node.BTreeMap.Sums.{AllEntries, AllEntries-insert}
use paqus_node.Paqus.{Paqus}
use paqus_node.Storage.{Lmdb}
use paqus_node.Storage.Access.{decode, address_size}
use paqus_node.Storage.Tables.{Codecs}
use paqus_node.Storage.Loads.{decode_accounts}

module _ ⦃paqus : Paqus⦄ ⦃lmdb : Lmdb⦄ ⦃codecs : Codecs⦄ (m : BTreeMap paqus.Account) where
  open paqus use {Account, address}

  -- A row that was written from an account of the map.
  abbrev pub IsRow : Bytes × Bytes → Type 0
  IsRow row =
      (v : Account) × (get (address v) m ≡ some v)
      × (address v < 256 ^ address_size)
      × (row.0 ≡ be_bytes address_size (address v))
      × (decode codecs.account row.1 ≡ ok v)

  -- Accounts of the map, under their addresses.
  pub record IsPart (found : BTreeMap Account) : Type 0 where
    pub placed : AllEntries (λ a v. address v ≡ a) found
    pub known : (a : ℕ) (v : Account) → get a found ≡ some v → get a m ≡ some v

  abbrev pub HasKey : ℕ → List (Bytes × Bytes) → Type 0
  HasKey a rows = any (λ row. same_bytes (be_bytes address_size a) row.0) rows ≡ true

  inserted-IsPart :
      (v : Account) (found : BTreeMap Account)
      → get (address v) m ≡ some v
      → IsPart found
      → IsPart (BTreeMap.insert (address v) v found)
  inserted-IsPart v found there part = record {
    placed = AllEntries-insert (λ a v. address v ≡ a) (address v) v found refl part.placed;
    known = λ a w e.
        let at : (if a == address v then some v else get a found) ≡ some w =
          sym (get-insert a (address v) v found) ∙ e in
        elim (Bool-cases (a == address v)) [
          | inl same ↦
              let its : v ≡ w = ground arith in
              let here : address v ≡ a = ground arith in
              ap (λ i. get i m) (sym here) ∙ there ∙ ap some its
          | inr other ↦ part.known a w (ground arith)
        ];
  }

  -- Every row is decoded; the accounts found are of the map, those found before are still there, and each
  -- row's account is there.
  pub decode_accounts-IsPart :
      (rows : List (Bytes × Bytes)) (found : BTreeMap Account)
      → All IsRow rows
      → IsPart found
      → (all : BTreeMap Account) × (decode_accounts rows found ≡ ok all)
        × IsPart all
        × ((a : ℕ) → is_some (get a found) ≡ true → is_some (get a all) ≡ true)
        × ((a : ℕ) → a < 256 ^ address_size → HasKey a rows → is_some (get a all) ≡ true)
  unfolding decode_accounts
  decode_accounts-IsPart [] found rs part = (found, refl, part, λ a e. e, λ a fits e. absurd (cc e))
  decode_accounts-IsPart ((key, bytes) ∷ rows) found ((v, there, small, its_key, decoded), rs)
        part =
      let next = BTreeMap.insert (address v) v found in
      let (all, done, whole, grows, covers) =
        decode_accounts-IsPart rows next rs (inserted-IsPart v found there part) in
      let checked : same_bytes (be_bytes address_size (address v)) key ≡ true =
        ap (same_bytes (be_bytes address_size (address v))) its_key
        ∙ same_bytes_refl (be_bytes address_size (address v)) in
      (
        all,
        rw (decoded, checked) done,
        whole,
        λ a e. grows a (
            ap is_some (get-insert a (address v) v found) ∙ (elim (Bool-cases (a == address v)) [
              | inl same ↦ rw same refl
              | inr other ↦ rw other e
            ])),
        λ a fits e.
            let equal : same_bytes (be_bytes address_size a) key ≡ (a == address v) =
              ap (same_bytes (be_bytes address_size a)) its_key
              ∙ same_bytes-be_bytes address_size a (address v) fits small in
            elim (Bool-cases (a == address v)) [
              | inl same ↦ grows a (ap is_some (get-insert a (address v) v found) ∙ (rw same refl))
              | inr other ↦ covers a fits (ground (arith))
            ],
      )
