-- ===== src/Node/Requests/Steps.antt =====
-- src/runtime/node/node.rs: what the operations on the queue of missing parents do to the node.
use paqus_node.Base.{
  ℕ, ◌≡◌, ◌≤◌, min, ◌⊎◌, Option, none, sym, refl, ◌∙◌, ap, true, false, not, ◌&&◌, ◌||◌, List, [],
  ◌∷◌, ◌++◌, some, leb, ◌==◌, if◌then◌else◌, is_some, arith, elem, IsDistinct-append, elem-append,
  elem-filter, Bool-cases, inl, inr, saturating_add, ==_iff,
}
use paqus_node.BTreeMap
use paqus_node.BTreeMap.{BTreeMap, Set, IsSorted}
use paqus_node.BTreeMap.Laws.{insert-IsSorted, get-insert}
use paqus_node.BTreeMap.Queues.{insert-same, insert-again}
use paqus_node.Node.{Node, missing_parent_retry_secs}
use paqus_node.Node.Requests.{
  earlier, queue_missing_parent_request_at, retry_missing_parent_request,
  drain_missing_parent_requests_at,
}
use paqus_node.Node.Requests.Laws.{
  IsQueue, IsDrained, is_ready, drain_from-IsDrained, IsQueue-drained,
}
use paqus_node.Paqus.{Paqus}
use paqus_node.Storage.{StorageApi}

module _ ⦃paqus : Paqus⦄ ⦃storage_api : StorageApi⦄ where
  open paqus use {fork_contains}

  abbrev pub HasQueue : Node → Type 0
  HasQueue n =
      IsQueue n.missing_parent_requests n.missing_parent_request_set n.missing_parent_retry_at

  -- The earlier of a time that there may be and a new one: no later than either, and one of them.
  abbrev pub IsEarlier : Option ℕ → ℕ → ℕ → Type 0
  IsEarlier old new t = (t ≤ new) × ((o : ℕ) → old ≡ some o → t ≤ o) × ((t ≡ new) ⊎ (old ≡ some t))

  earlier-IsEarlier : (old : Option ℕ) (new : ℕ) → IsEarlier old new (earlier new old)
  earlier-IsEarlier none new = (omega arith, λ o e. absurd (cc e), inl refl)
  earlier-IsEarlier (some o) new = elim (Bool-cases (leb o new)) [
    | inl before ↦
        let same : min o new ≡ o = ground arith in
        (omega arith, λ i e. ground arith, inr (ap some (sym same)))
    | inr after ↦ (omega arith, λ i e. ground arith, inl (ground arith))
  ]

  -- What queueing a hash with a time does.
  pub record IsQueued (n : Node) (hash retry_at : ℕ) (after : Node) : Type 0 where
    pub queue : HasQueue after
    pub requests : after.missing_parent_requests ≡ (
        if fork_contains n.fork_choice hash || elem hash n.missing_parent_requests
        then n.missing_parent_requests
        else n.missing_parent_requests ++ hash ∷ [])
    pub times :
        (v : ℕ)
        → (v == hash && not (fork_contains n.fork_choice hash)) ≡ false
        → BTreeMap.get v after.missing_parent_retry_at ≡ BTreeMap.get v n.missing_parent_retry_at
    pub time :
        fork_contains n.fork_choice hash ≡ false
        → (t : ℕ) × (BTreeMap.get hash after.missing_parent_retry_at ≡ some t)
          × IsEarlier (BTreeMap.get hash n.missing_parent_retry_at) retry_at t

  again-IsQueue :
      (hash t : ℕ) (requests : List ℕ) (set : Set) (times : BTreeMap ℕ)
      → IsQueue requests set times
      → elem hash requests ≡ true
      → IsQueue requests (BTreeMap.insert hash tt set) (BTreeMap.insert hash t times)
  again-IsQueue hash t requests set times q old = record {
    distinct = q.distinct;
    sorted_set = insert-IsSorted hash tt set q.sorted_set;
    sorted_times = insert-IsSorted hash t times q.sorted_times;
    listed = λ v. insert-again tt set requests hash v q.listed old;
    timed = λ v. insert-again t times requests hash v q.timed old;
  }

  added-IsQueue :
      (hash t : ℕ) (requests : List ℕ) (set : Set) (times : BTreeMap ℕ)
      → IsQueue requests set times
      → elem hash requests ≡ false
      → IsQueue (requests ++ hash ∷ []) (BTreeMap.insert hash tt set) (BTreeMap.insert hash t times)
  added-IsQueue hash t requests set times q new = record {
    distinct = IsDistinct-append hash requests new q.distinct;
    sorted_set = insert-IsSorted hash tt set q.sorted_set;
    sorted_times = insert-IsSorted hash t times q.sorted_times;
    listed = λ v. insert-same tt set requests hash v q.listed;
    timed = λ v. insert-same t times requests hash v q.timed;
  }

  -- Queueing a hash with a time keeps the queue in step: a block that fork choice knows is not queued;
  -- another hash is put last unless it is queued already; its time is then no later than the new one and the
  -- old one that there may be, and one of the two; no other hash's time changes.
  pub queue_missing_parent_request_at-IsQueued :
      (n : Node) (hash retry_at : ℕ)
      → HasQueue n
      → IsQueued n hash retry_at (queue_missing_parent_request_at n hash retry_at)
  unfolding queue_missing_parent_request_at
  queue_missing_parent_request_at-IsQueued n hash retry_at q =
      let times = n.missing_parent_retry_at in
      let t = earlier retry_at (BTreeMap.get hash times) in
      let added : BTreeMap.get hash (BTreeMap.insert hash t times) ≡ some t =
        get-insert hash hash t times ∙ (rw ((==_iff hash hash).1 refl) refl) in
      elim (Bool-cases (fork_contains n.fork_choice hash)) [
        | inl known ↦ rw known (record {
          queue = q;
          requests = rw known refl;
          times = λ v e. refl;
          time = λ unknown. absurd (cc (known, unknown));
        })
        | inr unknown ↦ elim (Bool-cases (elem hash n.missing_parent_requests)) [
          | inl old ↦
              let there = q.listed hash ∙ old in
              rw (unknown, there)
                (record {
                  queue = again-IsQueue hash t _ _ times q old;
                  requests = rw (unknown, old) refl;
                  times = λ v e. ground (arith, get-insert v hash t times);
                  time = λ u. (t, added, earlier-IsEarlier (BTreeMap.get hash times) retry_at);
                })
          | inr new ↦
              let absent = q.listed hash ∙ new in
              rw (unknown, absent)
                (record {
                  queue = added-IsQueue hash t _ _ times q new;
                  requests = rw (unknown, new) refl;
                  times = λ v e. ground (arith, get-insert v hash t times);
                  time = λ u. (t, added, earlier-IsEarlier (BTreeMap.get hash times) retry_at);
                })
        ]
      ]

  -- Draining keeps the queue in step; it returns, in the queue's order, exactly the hashes whose time has
  -- come, and leaves the others in order with their times.
  pub drain_missing_parent_requests_at-IsDrained :
      (n : Node) (now : ℕ)
      → HasQueue n
      → let r = drain_missing_parent_requests_at n now in
        HasQueue r.0
        × IsDrained now n.missing_parent_requests n.missing_parent_request_set
            n.missing_parent_retry_at
            (record {
              ready = r.1;
              pending = r.0.missing_parent_requests;
              request_set = r.0.missing_parent_request_set;
              retry_at = r.0.missing_parent_retry_at;
            })
  unfolding drain_missing_parent_requests_at
  drain_missing_parent_requests_at-IsDrained n now q =
      let v =
        drain_from-IsDrained now n.missing_parent_requests n.missing_parent_request_set
          n.missing_parent_retry_at q.distinct q.sorted_set q.sorted_times in
      (IsQueue-drained now _ _ _ _ q v, v)

  -- After a failed request for a block that fork choice does not know and that is not queued, the hash
  -- is handed out again by a drain exactly when five seconds have passed.
  pub drain-retry_missing_parent_request :
      (n : Node) (hash now later : ℕ)
      → HasQueue n
      → fork_contains n.fork_choice hash ≡ false
      → elem hash n.missing_parent_requests ≡ false
      → elem hash
          (drain_missing_parent_requests_at (retry_missing_parent_request n hash now) later).1
        ≡ leb (saturating_add now 5) later
  unfolding retry_missing_parent_request
  drain-retry_missing_parent_request n hash now later q unknown new =
      let t = saturating_add now missing_parent_retry_secs in
      let v = queue_missing_parent_request_at-IsQueued n hash t q in
      let n' = queue_missing_parent_request_at n hash t in
      let w = (drain_missing_parent_requests_at-IsDrained n' later v.queue).1 in
      let timeless : is_some (BTreeMap.get hash n.missing_parent_retry_at) ≡ false =
        q.timed hash ∙ new in
      let (t', at, (_, _, one_of)) = v.time unknown in
      let its : t' ≡ t = elim one_of [
        | inl fresh ↦ fresh
        | inr old ↦ absurd (cc (ap is_some old, timeless))
      ] in
      ap (λ l. elem hash l) w.gone
      ∙ elem-filter (is_ready later n'.missing_parent_retry_at) hash n'.missing_parent_requests
      ∙ ground (
        arith,
        v.requests,
        at,
        its,
        elem-append hash hash n.missing_parent_requests,
        ==_iff hash hash,
      )
