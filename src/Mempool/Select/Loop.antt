-- ===== src/Mempool/Select/Loop.antt =====
-- What `select_for_block` selects, and that it never panics.
use paqus_node.Base.{
  ℕ, zero, suc, ◌≡◌, ◌≤◌, min, refl, List, [], ◌∷◌, some, arith, length, sum_by, All, All-imp,
  IsAscending, Option-cases, inl, inr,
}
use paqus_node.BTreeMap
use paqus_node.BTreeMap.Sums.{AllEntries, AllEntries-get, AllEntries-insert, AllEntries-remove}
use paqus_node.Mempool.{Pool, transactions}
use paqus_node.Mempool.Select.{
  Candidate, BySender, max_from, max_by, candidates, take_first, select_loop, groups,
  select_for_block,
}
use paqus_node.Mempool.Select.Groups.{weight, OfSender, IsGrouped, groups-IsGrouped, weight-groups}
use paqus_node.Mempool.Select.Step.{
  max_from-All, max_from-fee, max_from_mono, IsHead, candidates-IsHead, candidates_empty, RisesTo,
  after_take, take_first-after_take, after_take-IsTaken, IsGreedy,
}
use paqus_node.Paqus.{Paqus}

module _ ⦃paqus : Paqus⦄ where
  open paqus use {SignedTransaction, from, fee}

  -- A selection: each transaction at most as often as the groups hold it, as many as there is room
  -- for, the transactions of one sender by rising nonce, and greedy by fee.
  pub record IsSelection (room : ℕ) (g : BySender) (selected : List SignedTransaction)
      : Type 0 where
    pub within : (f : SignedTransaction → ℕ) → sum_by f selected ≤ weight f g
    pub count : length selected ≡ min room (weight (λ _. 1) g)
    pub rising : IsAscending RisesTo selected
    pub greedy : IsGreedy room g selected

  -- A predicate of the groups holds of what is selected from them.
  module _ (P : SignedTransaction → Type 0) where
    AllGroups : BySender → Type 0
    AllGroups g = AllEntries (λ _ ts. All P ts) g

    take_first-All :
        (s : ℕ) (ts : List SignedTransaction) (g rest : BySender) (t : SignedTransaction)
        → BTreeMap.get s g ≡ some ts
        → take_first s g ≡ some (t, rest)
        → AllEntries (λ _ us. All P us) g
        → P t × AllEntries (λ _ us. All P us) rest
    unfolding take_first
    take_first-All s [] g rest t found e a = absurd (ground arith)
    take_first-All s (u ∷ []) g rest t found e a =
        let same : t ≡ u = ground arith in
        let left : rest ≡ BTreeMap.remove s g = ground arith in
        rw (same, left) ((AllEntries-get _ s (u ∷ []) g a found).0, AllEntries-remove _ s g a)
    take_first-All s (u ∷ v ∷ ts) g rest t found e a =
        let same : t ≡ u = ground arith in
        let left : rest ≡ BTreeMap.insert s (v ∷ ts) g = ground arith in
        let group = AllEntries-get _ s (u ∷ v ∷ ts) g a found in
        rw (same, left) (group.0, AllEntries-insert _ s (v ∷ ts) g group.1 a)

    IsGreedy-All :
        (room : ℕ) (g : BySender) (selected : List SignedTransaction)
        → IsGreedy room g selected
        → AllEntries (λ _ us. All P us) g
        → All P selected
    unfolding take_first
    IsGreedy-All room g [] v a = tt
    IsGreedy-All zero g (t ∷ selected) v a = absurd v
    IsGreedy-All (suc room) g (t ∷ selected) (_, rest, e, later) a =
        elim (Option-cases (BTreeMap.get (from t) g)) [
          | inl missing ↦ absurd (ground arith)
          | inr (ts, found) ↦
              let (p, b) = take_first-All (from t) ts g rest t found e a in
              (p, IsGreedy-All room rest selected later b)
        ]

  select_loop_pick :
      (room : ℕ) (g rest : BySender) (c : Candidate) (cs : List Candidate) (t : SignedTransaction)
      (selected : List SignedTransaction)
      → candidates g ≡ c ∷ cs
      → take_first (max_from c cs).sender g ≡ some (t, rest)
      → select_loop room rest ≡ some selected
      → select_loop (suc room) g ≡ some (t ∷ selected)
  unfolding select_loop max_by
  select_loop_pick room g rest c cs t selected e taken later = ground arith

  select_loop_stop :
      (room : ℕ) (g : BySender) → candidates g ≡ [] → select_loop (suc room) g ≡ some []
  unfolding select_loop max_by
  select_loop_stop room g e = ground arith

  -- What the best candidate of the groups stands for.
  best_candidate :
      (g : BySender) (c : Candidate) (cs : List Candidate)
      → IsGrouped g
      → candidates g ≡ c ∷ cs
      → (t : SignedTransaction) × (ts : List SignedTransaction) × (BTreeMap.get
            (max_from c cs).sender
            g
          ≡ some (t ∷ ts))
        × (from t ≡ (max_from c cs).sender)
        × All (λ d. d.fee ≤ fee t) (candidates g)
  best_candidate g c cs v e =
      let heads = rw e at (candidates-IsHead g v.sorted) in
      let (t, ts, found, same) = max_from-All (IsHead g) c cs heads.0 heads.1 in
      let pays : (max_from c cs).fee ≡ fee t = ground arith in
      (
        t,
        ts,
        found,
        (AllEntries-get OfSender (max_from c cs).sender (t ∷ ts) g v.senders found).0,
        rw e (
          omega (arith, pays, max_from_mono c cs),
          All-imp (λ d p. omega (arith, pays)) cs (max_from-fee c cs),
        ),
      )

  -- The loop returns a selection, whatever the room and the groups.
  abbrev pub Selected : ℕ → BySender → Type 0
  Selected room g =
      (selected : List SignedTransaction) × (select_loop room g ≡ some selected)
      × IsSelection room g selected

  empty-Selected : (room : ℕ) (g : BySender) → candidates g ≡ [] → Selected (suc room) g
  empty-Selected room g e = (
    [],
    select_loop_stop room g e,
    record {
      within = λ f. omega arith;
      count = omega (arith, candidates_empty (λ _. 1) g e);
      rising = tt;
      greedy = tt;
    },
  )

  pick-Selected :
      (room : ℕ) (g : BySender) (c : Candidate) (cs : List Candidate)
      → IsGrouped g
      → candidates g ≡ c ∷ cs
      → ((rest : BySender) → IsGrouped rest → Selected room rest)
      → Selected (suc room) g
  pick-Selected room g c cs v e later =
      let (t, ts, found, mine, pays) = best_candidate g c cs v e in
      let s = (max_from c cs).sender in
      let rest = after_take s ts g in
      let taken = after_take-IsTaken s t ts g v found in
      let step = take_first-after_take s t ts g found in
      let (selected, run, v') = later rest taken.grouped in
      (
        t ∷ selected,
        select_loop_pick room g rest c cs t selected e step run,
        record {
          within = λ f. omega (arith, v'.within f, taken.weights f);
          count = omega (arith, v'.count, taken.weights (λ _. 1));
          rising = (IsGreedy-All (RisesTo t) room rest selected v'.greedy taken.before, v'.rising);
          greedy = (pays, rest, rw mine step, v'.greedy);
        },
      )

  select_loop-Selected : (room : ℕ) (g : BySender) → IsGrouped g → Selected room g
  unfolding select_loop
  select_loop-Selected zero g v = (
    [],
    refl,
    record { within = λ f. omega arith; count = omega arith; rising = tt; greedy = tt },
  )
  select_loop-Selected (suc room) g v = go (candidates g) refl (select_loop-Selected room)
    where
      go :
          (cs : List Candidate)
          → candidates g ≡ cs
          → ((rest : BySender) → IsGrouped rest → Selected room rest)
          → Selected (suc room) g
      go [] e later = empty-Selected room g e
      go (c ∷ cs) e later = pick-Selected room g c cs v e later

  length-weight : (ts : List SignedTransaction) → sum_by (λ _. 1) ts ≡ length ts
  length-weight [] = refl
  length-weight (t ∷ ts) = omega (arith, length-weight ts)

  -- Selecting for a block never panics. It takes as many transactions as the limit and the pool
  -- allow, each at most as often as the pool holds it; the transactions of one sender stand by
  -- rising nonce; and every pick is the first of its sender's, with no better paying first
  -- transaction of another sender left.
  pub select_for_block-IsSelection :
      (m : Pool) (limit : ℕ)
      → (selected : List SignedTransaction) × (select_for_block m limit ≡ some selected)
        × (length selected ≡ min limit (length (transactions m)))
        × ((f : SignedTransaction → ℕ) → sum_by f selected ≤ sum_by f (transactions m))
        × IsAscending RisesTo selected
        × IsGreedy limit (groups (transactions m)) selected
  unfolding select_for_block
  select_for_block-IsSelection m limit =
      let ts = transactions m in
      let (selected, run, v) = select_loop-Selected limit (groups ts) (groups-IsGrouped ts) in
      (
        selected,
        run,
        omega (arith, v.count, weight-groups (λ _. 1) ts, length-weight ts),
        λ f. omega (arith, v.within f, weight-groups f ts),
        v.rising,
        v.greedy,
      )
