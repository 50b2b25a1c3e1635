-- ===== src/Node/Waiting.antt =====
-- The callers that wait for an answer, and the ids of src/cluster/node.rs.
use horsie_actor.Base.{
  ℕ, ◌+◌, ◌%◌, ◌≡◌, ◌≤◌, ◌<◌, refl, ap, ◌∙◌, ◌⊎◌, inl, inr, none, some, [], ◌∷◌, ◌++◌, Bytes,
  nat_eq, arith, length, length-append, u64_mod,
}
use native.Mathlib.Decide.{dec_lt}
use horsie_actor.Map.{Map, get, get-remove, btree_insert}
use horsie_actor.Delivery.{Reply}
use horsie_actor.Node.{
  ClusterNode, mint, pop_over, register, deliver_reply, forget, abandon_waiting, waiting_capacity,
}

-- While counters are in the range of `u64`, two ids are equal only if one node minted both from one
-- value of its counter: no two nodes mint one id, and no node mints an id twice.
pub mint-injective :
    (local other m n : ℕ)
    → m < u64_mod
    → n < u64_mod
    → mint local m ≡ mint other n
    → (local ≡ other) × (m ≡ n)
unfolding mint
mint-injective local other m n p q e = (omega (arith, e), omega (arith, e))

next_id : (local n : ℕ) → n + 1 < u64_mod → mint local n + 1 ≡ mint local ((n + 1) % u64_mod)
unfolding mint
next_id local n room = omega arith

module _ {Deliver : Type 0} where
  abbrev pub AllBelow : ℕ → Map ℕ Deliver → Type 0
  AllBelow bound [] = Unit {0}
  AllBelow bound ((k, v) ∷ rest) = (k < bound) × AllBelow bound rest

  -- A new highest key goes to the end.
  btree_insert-end :
      (bound : ℕ) (m : Map ℕ Deliver) (v : Deliver)
      → AllBelow bound m
      → btree_insert m bound v ≡ m ++ (bound, v) ∷ []
  unfolding btree_insert
  btree_insert-end bound [] v h = refl
  btree_insert-end bound ((k, w) ∷ rest) v h = ground (arith, btree_insert-end bound rest v h.1)

  pop_over-fits : (m : Map ℕ Deliver) → length m ≤ waiting_capacity → pop_over m ≡ m
  unfolding pop_over
  pop_over-fits [] h = refl
  pop_over-fits (x ∷ rest) h = ground arith

  pop_over-one :
      (x : ℕ × Deliver) (rest : Map ℕ Deliver)
      → length (x ∷ rest) ≡ waiting_capacity + 1
      → pop_over (x ∷ rest) ≡ rest
  unfolding pop_over
  pop_over-one x rest h = ground (arith, pop_over-fits rest)

  AllBelow-push :
      (bound : ℕ) (m : Map ℕ Deliver) (v : Deliver)
      → AllBelow bound m
      → AllBelow (bound + 1) (m ++ (bound, v) ∷ [])
  AllBelow-push bound [] v h = ground arith
  AllBelow-push bound ((k, w) ∷ rest) v h = ground (arith, AllBelow-push bound rest v h.1)

  -- Every waiting caller is under an id that was minted before, and there are never too many.
  pub record IsWaiting (node : ClusterNode Deliver) : Type 0 where
    pub below : AllBelow (mint node.local node.correlations) node.waiting
    pub bounded : length node.waiting ≤ waiting_capacity
    pub in_range : node.correlations < u64_mod

  -- What a table loses to its bound: nothing, or its lowest id.
  pub data Dropped : Map ℕ Deliver → Map ℕ Deliver → Type 0 where
    kept : (m : Map ℕ Deliver) → length m ≤ waiting_capacity → Dropped m m
    oldest : (x : ℕ × Deliver) (m : Map ℕ Deliver) → length m ≡ waiting_capacity → Dropped (x ∷ m) m

  pop_over-Dropped :
      (m : Map ℕ Deliver) (x : ℕ × Deliver)
      → length m ≤ waiting_capacity
      → Dropped (m ++ x ∷ []) (pop_over (m ++ x ∷ []))
  pop_over-Dropped [] x h = rw (pop_over-fits (x ∷ []) (omega arith)) (kept (x ∷ []) (omega arith))
  pop_over-Dropped (y ∷ rest) x h = elim (dec_lt (length rest + 1) waiting_capacity) [
    | yes fits ↦
        let small : length (y ∷ rest ++ x ∷ []) ≤ waiting_capacity =
          omega (arith, length-append rest (x ∷ [])) in
        rw (pop_over-fits (y ∷ rest ++ x ∷ []) small) (kept (y ∷ rest ++ x ∷ []) small)
    | no full ↦
        rw (pop_over-one y (rest ++ x ∷ []) (omega (arith, length-append rest (x ∷ []))))
          (oldest y (rest ++ x ∷ []) (omega (arith, length-append rest (x ∷ []))))
  ]

  Dropped-AllBelow :
      (bound : ℕ) {m n : Map ℕ Deliver} → Dropped m n → AllBelow bound m → AllBelow bound n
  Dropped-AllBelow bound (kept m _) h = h
  Dropped-AllBelow bound (oldest x m _) h = h.1

  Dropped-bounded : {m n : Map ℕ Deliver} → Dropped m n → length n ≤ waiting_capacity
  Dropped-bounded (kept m h) = h
  Dropped-bounded (oldest x m h) = omega (arith, h)

  next_bound :
      (node : ClusterNode Deliver) (m : Map ℕ Deliver)
      → node.correlations + 1 < u64_mod
      → AllBelow (mint node.local node.correlations + 1) m
      → AllBelow (mint node.local ((node.correlations + 1) % u64_mod)) m
  unfolding mint
  next_bound node m room h = rw (next_id node.local node.correlations room) at h

  -- While the counter has not run out, a caller that registers is put last in the table under an id
  -- that no caller in it has; the caller that has waited longest is dropped exactly if the table
  -- would be over its bound; and the table goes on to hold earlier ids only, and not too many.
  pub register_lem :
      (node : ClusterNode Deliver) (deliver : Deliver)
      → IsWaiting node
      → node.correlations + 1 < u64_mod
      → AllBelow (register node deliver).0 node.waiting
        × Dropped
            (node.waiting ++ ((register node deliver).0, deliver) ∷ [])
            (register node deliver).1.waiting
        × IsWaiting (register node deliver).1
  unfolding register
  register_lem node deliver w room =
      let id = mint node.local node.correlations in
      let whole = btree_insert-end id node.waiting deliver w.below in
      let dropped : Dropped (node.waiting ++ (id, deliver) ∷ [])
          (pop_over (btree_insert node.waiting id deliver)) =
        rw whole (pop_over-Dropped node.waiting (id, deliver) w.bounded) in
      (
        w.below,
        dropped,
        record {
          below =
              next_bound node _ room
                (Dropped-AllBelow (id + 1) dropped (AllBelow-push id node.waiting deliver w.below));
          bounded = Dropped-bounded dropped;
          in_range = omega arith;
        },
      )

  get-pushed :
      (bound : ℕ) (m : Map ℕ Deliver) (v : Deliver)
      → AllBelow bound m
      → get (m ++ (bound, v) ∷ []) bound ≡ some v
  unfolding get
  get-pushed bound [] v h = ground arith
  get-pushed bound ((k, w) ∷ rest) v h = ground (arith, get-pushed bound rest v h.1)

  Dropped-cases :
      {m n : Map ℕ Deliver}
      → Dropped m n
      → (n ≡ m) ⊎ ((x : ℕ × Deliver) × (x ∷ n ≡ m) × (length n ≡ waiting_capacity))
  Dropped-cases (kept m h) = inl refl
  Dropped-cases (oldest x m h) = inr (x, refl, h)

  -- The new caller is not the one that is dropped.
  get-tail :
      (bound : ℕ) (x : ℕ × Deliver) (m : Map ℕ Deliver) (v : Deliver) (n : Map ℕ Deliver)
      → AllBelow bound m
      → x ∷ n ≡ m ++ (bound, v) ∷ []
      → length n ≡ waiting_capacity
      → get n bound ≡ some v
  get-tail bound x [] v [] h e full = ground arith
  get-tail bound x [] v (y ∷ n) h e full = ground arith
  get-tail bound x (y ∷ rest) v n h e full =
      let same : n ≡ rest ++ (bound, v) ∷ [] = ground arith in rw same (get-pushed bound rest v h.1)

  get-Dropped :
      (bound : ℕ) (m : Map ℕ Deliver) (v : Deliver) {n : Map ℕ Deliver}
      → AllBelow bound m
      → Dropped (m ++ (bound, v) ∷ []) n
      → get n bound ≡ some v
  get-Dropped bound m v h d = elim (Dropped-cases d) [
    | inl e ↦ rw e (get-pushed bound m v h)
    | inr (x, e, full) ↦ get-tail bound x m v _ h e full
  ]

  deliver_found :
      (node : ClusterNode Deliver) (id : ℕ) (payload : Bytes) (deliver : Deliver)
      → get node.waiting id ≡ some deliver
      → deliver_reply node (record { correlation = id; payload = some payload })
        ≡ (some (deliver, payload), forget node id)
  unfolding deliver_reply
  deliver_found node id payload deliver h = rw (h, deliver_reply)

  deliver_missing :
      (node : ClusterNode Deliver) (id : ℕ) (payload : Bytes)
      → get node.waiting id ≡ none
      → (deliver_reply node (record { correlation = id; payload = some payload })).0 ≡ none
  unfolding deliver_reply
  deliver_missing node id payload h = rw (h, deliver_reply)

  forgotten :
      (node : ClusterNode Deliver) (id : ℕ) (payload : Bytes)
      → (deliver_reply (forget node id) (record { correlation = id; payload = some payload })).0
        ≡ none
  unfolding forget
  forgotten node id payload =
      deliver_missing (forget node id) id payload (get-remove node.waiting id id ∙ ground arith)

  -- The caller that has just registered is handed what answers its id, once: another answer under
  -- that id finds nobody, and so does any answer after the caller has gone or the node stood down.
  pub answered_once :
      (node : ClusterNode Deliver) (deliver : Deliver) (payload again : Bytes)
      → IsWaiting node
      → let id : ℕ = (register node deliver).0 in
        let waits : ClusterNode Deliver = (register node deliver).1 in
        let answer : Reply = record { correlation = id; payload = some payload } in
        let second : Reply = record { correlation = id; payload = some again } in
        ((deliver_reply waits answer).0 ≡ some (deliver, payload))
        × ((deliver_reply (deliver_reply waits answer).1 second).0 ≡ none)
        × ((deliver_reply (forget waits id) answer).0 ≡ none)
        × ((deliver_reply (abandon_waiting waits) answer).0 ≡ none)
  unfolding register abandon_waiting
  answered_once node deliver payload again w =
      let id = mint node.local node.correlations in
      let waits = (register node deliver).1 in
      let found : get waits.waiting id ≡ some deliver =
        get-Dropped id node.waiting deliver w.below (
          rw (btree_insert-end id node.waiting deliver w.below)
            (pop_over-Dropped node.waiting (id, deliver) w.bounded)) in
      let handed = deliver_found waits id payload deliver found in
      (
        ap (λ r. r.0) handed,
        ap (λ r. (deliver_reply r.1 (record { correlation = id; payload = some again })).0) handed
            ∙ forgotten waits id again,
        forgotten waits id payload,
        deliver_missing (abandon_waiting waits) id payload (unfold get in refl),
      )
