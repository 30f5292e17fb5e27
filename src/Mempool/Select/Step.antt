-- ===== src/Mempool/Select/Step.antt =====
-- One step of the loop of `select_for_block`: the candidates, and what is left after a pick.
use paqus_node.Base.{
  ℕ, zero, suc, ◌+◌, ◌≡◌, ◌≢◌, ◌≤◌, refl, ◌∙◌, sym, List, [], ◌∷◌, some, ◌==◌, ==_iff, arith,
  sum_by, All, All-imp, Bool-cases, inl, inr,
}
use paqus_node.BTreeMap
use paqus_node.BTreeMap.{BTreeMap, IsSorted, Above}
use paqus_node.BTreeMap.Laws.{insert-IsSorted, remove-IsSorted, get-Above}
use paqus_node.BTreeMap.Sums.{
  AllEntries, AllEntries-get, AllEntries-of_get, AllEntries-insert, AllEntries-remove, total-remove,
}
use paqus_node.Mempool.Select.{
  Candidate, BySender, later_max, max_from, candidate, candidates, take_first,
}
use paqus_node.Mempool.Select.Groups.{weight, OfSender, IsGrouped, total-overwrite}
use paqus_node.Paqus.{Paqus}

-- What holds of every candidate holds of the best.
pub max_from-All :
    (P : Candidate → Type 0) (x : Candidate) (xs : List Candidate)
    → P x
    → All P xs
    → P (max_from x xs)
unfolding max_from
max_from-All P x [] p a = p
max_from-All P x (y ∷ ys) p a = max_from-All P (later_max x y) ys (ground arith) a.1

pub max_from_mono : (x : Candidate) (xs : List Candidate) → x.fee ≤ (max_from x xs).fee
unfolding max_from
max_from_mono x [] = omega arith
max_from_mono x (y ∷ ys) = ground (arith, max_from_mono (later_max x y) ys)

-- No candidate pays more than the best.
pub max_from-fee : (x : Candidate) (xs : List Candidate) → All (λ c. c.fee ≤ (max_from x xs).fee) xs
unfolding max_from
max_from-fee x [] = tt
max_from-fee x (y ∷ ys) =
    (ground (arith, max_from_mono (later_max x y) ys), max_from-fee (later_max x y) ys)

module _ ⦃paqus : Paqus⦄ where
  open paqus use {SignedTransaction, from, nonce, fee}

  -- A candidate is the first transaction of its sender's group.
  abbrev pub IsHead : BySender → Candidate → Type 0
  IsHead g c =
      (t : SignedTransaction) × (ts : List SignedTransaction) × (BTreeMap.get c.sender g
        ≡ some (t ∷ ts))
      × (c ≡ candidate c.sender t)

  IsHead-cons :
      (s : ℕ) (ts : List SignedTransaction) (g : BySender) (c : Candidate)
      → Above s g
      → IsHead g c
      → IsHead ((s, ts) ∷ g) c
  unfolding BTreeMap.get
  IsHead-cons s ts g c a (t, us, e, same) = (t, us, ground (arith, get-Above c.sender s g), same)

  pub candidates-IsHead : (g : BySender) → IsSorted g → All (IsHead g) (candidates g)
  unfolding candidates BTreeMap.get
  candidates-IsHead [] s = tt
  candidates-IsHead ((k, []) ∷ g) s =
      All-imp (λ c h. IsHead-cons k [] g c s.0 h) (candidates g) (candidates-IsHead g s.1)
  candidates-IsHead ((k, t ∷ ts) ∷ g) s = (
    (t, ts, ground arith, refl),
    All-imp (λ c h. IsHead-cons k (t ∷ ts) g c s.0 h) (candidates g) (candidates-IsHead g s.1),
  )

  pub candidates_empty :
      (f : SignedTransaction → ℕ) (g : BySender) → candidates g ≡ [] → weight f g ≡ 0
  unfolding candidates
  candidates_empty f [] e = refl
  candidates_empty f ((k, []) ∷ g) e = omega (arith, candidates_empty f g e)
  candidates_empty f ((k, t ∷ ts) ∷ g) e = absurd (ground arith)

  -- No transaction of the same sender with a lower nonce comes after.
  abbrev pub RisesTo : SignedTransaction → SignedTransaction → Type 0
  RisesTo t u = from t ≡ from u → nonce t ≤ nonce u

  -- A step of the loop takes one transaction out of the groups, the first of its sender.
  pub record IsTaken (g : BySender) (t : SignedTransaction) (rest : BySender) : Type 0 where
    pub weights : (f : SignedTransaction → ℕ) → f t + weight f rest ≡ weight f g
    pub grouped : IsGrouped rest
    pub before : AllEntries (λ _ ts. All (RisesTo t) ts) rest

  -- The groups without the first transaction of a sender.
  abbrev pub after_take : ℕ → List SignedTransaction → BySender → BySender
  after_take s [] g = BTreeMap.remove s g
  after_take s (u ∷ ts) g = BTreeMap.insert s (u ∷ ts) g

  pub take_first-after_take :
      (s : ℕ) (t : SignedTransaction) (ts : List SignedTransaction) (g : BySender)
      → BTreeMap.get s g ≡ some (t ∷ ts)
      → take_first s g ≡ some (t, after_take s ts g)
  unfolding take_first
  take_first-after_take s t [] g e = rw (e, take_first)
  take_first-after_take s t (u ∷ ts) g e = rw (e, take_first)

  other_group :
      (s k : ℕ) (t : SignedTransaction) (us : List SignedTransaction)
      → k ≢ s
      → from t ≡ s
      → OfSender k us
      → All (RisesTo t) us
  other_group s k t us other mine theirs =
      All-imp (λ u e same. absurd (other (sym e ∙ sym same ∙ mine))) us theirs

  -- The first transaction of a group has the lowest nonce of its sender.
  first-RisesTo :
      (s : ℕ) (t : SignedTransaction) (ts : List SignedTransaction) (g : BySender)
      → IsGrouped g
      → BTreeMap.get s g ≡ some (t ∷ ts)
      → AllEntries (λ _ us. All (RisesTo t) us) g
  first-RisesTo s t ts g v e = AllEntries-of_get _ g v.sorted λ k us found.
      elim (Bool-cases (k == s)) [
        | inl same ↦
            let rising = AllEntries-get _ s (t ∷ ts) g v.rising e in
            let group : us ≡ t ∷ ts = ground (arith, ==_iff k s) in
            rw group (λ _. omega arith, All-imp (λ x p _. p) ts rising.0)
        | inr other ↦
            let mine = AllEntries-get OfSender s (t ∷ ts) g v.senders e in
            other_group s k t us (ground (arith, ==_iff k s)) mine.0
              (AllEntries-get OfSender k us g v.senders found)
      ]

  pub after_take-IsTaken :
      (s : ℕ) (t : SignedTransaction) (ts : List SignedTransaction) (g : BySender)
      → IsGrouped g
      → BTreeMap.get s g ≡ some (t ∷ ts)
      → IsTaken g t (after_take s ts g)
  after_take-IsTaken s t [] g v e = record {
    weights = λ f. omega (arith, total-remove (sum_by f) s (t ∷ []) g e);
    grouped = record {
      sorted = remove-IsSorted s g v.sorted;
      senders = AllEntries-remove _ s g v.senders;
      rising = AllEntries-remove _ s g v.rising;
    };
    before = AllEntries-remove _ s g (first-RisesTo s t [] g v e);
  }
  after_take-IsTaken s t (u ∷ ts) g v e =
      let mine = AllEntries-get OfSender s (t ∷ u ∷ ts) g v.senders e in
      let rising = AllEntries-get _ s (t ∷ u ∷ ts) g v.rising e in
      let before = first-RisesTo s t (u ∷ ts) g v e in
      record {
        weights =
            λ f. omega (arith, total-overwrite (sum_by f) s (u ∷ ts) (t ∷ u ∷ ts) g v.sorted e);
        grouped = record {
          sorted = insert-IsSorted s (u ∷ ts) g v.sorted;
          senders = AllEntries-insert OfSender s (u ∷ ts) g mine.1 v.senders;
          rising = AllEntries-insert _ s (u ∷ ts) g rising.1 v.rising;
        };
        before =
            AllEntries-insert _ s (u ∷ ts) g (AllEntries-get _ s (t ∷ u ∷ ts) g before e).1 before;
      }

  -- At every step the transaction that is picked is the first of its sender's group, and no other
  -- sender's first transaction pays more.
  abbrev pub IsGreedy : ℕ → BySender → List SignedTransaction → Type 0
  IsGreedy room g [] = Unit
  IsGreedy zero g (t ∷ selected) = ⊥
  IsGreedy (suc room) g (t ∷ selected) =
      All (λ c. c.fee ≤ fee t) (candidates g)
      × (rest : BySender) × (take_first (from t) g ≡ some (t, rest))
      × IsGreedy room rest selected
