-- ===== src/System/Receiving.antt =====
-- The receiver of a shard type, in src/system.rs: what it delivers and what it leaves alone.
use horsie_actor.Base.{
  ℕ, ◌≡◌, ◌⊎◌, refl, ap, some, [], ◌∷◌, ◌++◌, Bytes, Result, ok, err, nat_eq, arith, Bool-cases,
  Option-cases, Result-cases, inl, inr,
}
use horsie_actor.Map.{get}
use horsie_actor.ActorPath.{ActorPath, parent, name}
use horsie_actor.Shard.{address_of, context_of}
use horsie_actor.Registry.{Registry, ActorOfError, is_alive, resolve, get_or_create}
use horsie_actor.System.{
  System, Registered, Wire, DispatchError, no_actor, decode_failed, resolve_failed, mailbox_closed,
  is_serving, link_send, build_actor, find_or_build, receive,
}

module _ {Command EntityId ShardId Deliver : Type 0} where
  -- Nothing but the registry and what was delivered differs.
  abbrev pub Kept :
      System Command EntityId ShardId Deliver → System Command EntityId ShardId Deliver → Type 0
  Kept s t = (t.seen ≡ s.seen) × (t.cluster ≡ s.cluster)

  build_actor-registry :
      (s : System Command EntityId ShardId Deliver)
      (registered : Registered Command EntityId ShardId) (at : ActorPath)
      → (r : Registry) × ((build_actor s registered at).1 ≡ record s { registry = r })
  unfolding build_actor
  build_actor-registry s registered at = elim (Option-cases (parent at)) [
    | inl e ↦ (s.registry, rw (e, build_actor) refl)
    | inr (above, e) ↦ elim (Option-cases (name at)) [
      | inl f ↦ (s.registry, rw (e, f, build_actor) refl)
      | inr (last, f) ↦ (
        (get_or_create s.registry (is_serving s) above last registered.command_type).1,
        rw (e, f, build_actor) refl,
      )
    ]
  ]

  -- Finding or building changes the registry alone, and what it gives is resolved at the path.
  pub find_or_build-resolve :
      {E : Type 0} (failed : ActorOfError → E) (missing : ActorPath → E)
      (s : System Command EntityId ShardId Deliver)
      (registered : Registered Command EntityId ShardId) (at : ActorPath)
      → ((r : Registry) × ((find_or_build failed missing s registered at).1
            ≡ record s { registry = r }))
        × ((m : ℕ)
            → (find_or_build failed missing s registered at).0 ≡ ok m
            → resolve
                (find_or_build failed missing s registered at).1.registry
                registered.command_type
                at
              ≡ some m)
  unfolding find_or_build
  find_or_build-resolve failed missing s registered at =
      let (r, built) = build_actor-registry s registered at in
      let t = (build_actor s registered at).1 in
      elim (Option-cases (resolve s.registry registered.command_type at)) [
        | inr (m, e) ↦ (
          (s.registry, rw (e, find_or_build) refl),
          rw (e, find_or_build) (λ n h. ground (arith, h, e)),
        )
        | inl e ↦ elim (Result-cases (build_actor s registered at).0) [
          | inr (x, f) ↦ (
            (r, rw (e, find_or_build, f) built),
            rw (e, find_or_build, f) (λ n h. ground (arith, h)),
          )
          | inl (x, f) ↦ (
            (r, rw (e, find_or_build, f) built),
            rw (e, find_or_build, f)
                (λ n h. elim (Option-cases (resolve t.registry registered.command_type at)) [
                  | inl g ↦ absurd (ground (arith, h, g))
                  | inr (k, g) ↦ ground (arith, h, g)
                ]),
          )
        ]
      ]

  -- A payload that was decoded, and handed to the mailbox that is resolved at its address.
  pub record Delivery (s : System Command EntityId ShardId Deliver)
      (registered : Registered Command EntityId ShardId) (payload : Bytes)
      (t : System Command EntityId ShardId Deliver) : Type 0 where
    pub wire : Wire Command Deliver
    pub cmd : Command
    pub mailbox : ℕ
    pub on_wire : get s.wires registered.command_type ≡ some wire
    pub decoded : wire.decode payload ≡ some cmd
    pub resolved :
        resolve t.registry registered.command_type
          (address_of registered.shard (context_of registered.shard cmd))
        ≡ some mailbox
    pub delivered : t.delivered ≡ s.delivered ++ (mailbox, cmd) ∷ []

  -- A failure that delivered nothing, or a delivery.
  abbrev pub Received :
      System Command EntityId ShardId Deliver
      → Registered Command EntityId ShardId
      → Bytes
      → Result DispatchError (Unit {0}) × System Command EntityId ShardId Deliver
      → Type 0
  Received s registered payload got =
      Kept s got.1
      × (((e : DispatchError) × (got.0 ≡ err e) × (got.1.delivered ≡ s.delivered))
          ⊎ ((got.0 ≡ ok tt) × Delivery s registered payload got.1))

  pub receive-Received :
      (s : System Command EntityId ShardId Deliver)
      (registered : Registered Command EntityId ShardId) (id : ℕ) (payload : Bytes)
      → Received s registered payload (receive s registered id payload)
  unfolding receive
  receive-Received s registered id payload =
      let unknown = decode_failed registered.shard.type_name id in
      elim (Option-cases (get s.wires registered.command_type)) [
        | inl e ↦ rw (e, receive) ((refl, refl), inl (unknown, refl, refl))
        | inr (wire, e) ↦ elim (Option-cases (wire.decode payload)) [
          | inl f ↦ rw (e, f, receive) ((refl, refl), inl (unknown, refl, refl))
          | inr (cmd, f) ↦
              let at = address_of registered.shard (context_of registered.shard cmd) in
              let ((r, same), resolved) =
                find_or_build-resolve resolve_failed no_actor s registered at in
              let t = (find_or_build resolve_failed no_actor s registered at).1 in
              let kept : Kept s t = (ap (λ u. u.seen) same, ap (λ u. u.cluster) same) in
              let quiet : t.delivered ≡ s.delivered = ap (λ u. u.delivered) same in
              elim (Result-cases (find_or_build resolve_failed no_actor s registered at).0) [
                | inr (x, g) ↦ rw (e, f, receive, g) (kept, inl (x, refl, quiet))
                | inl (m, g) ↦ elim (Bool-cases (is_alive t.registry m)) [
                  | inr over ↦
                      rw (e, f, receive, g, link_send, over)
                        (kept, inl (mailbox_closed, refl, quiet))
                  | inl alive ↦
                      rw (e, f, receive, g, link_send, alive)
                        (
                          kept,
                          inr (
                            refl,
                            record {
                              wire = wire;
                              cmd = cmd;
                              mailbox = m;
                              on_wire = e;
                              decoded = f;
                              resolved = resolved m g;
                              delivered = ap (λ ds. ds ++ (m, cmd) ∷ []) quiet;
                            },
                          ),
                        )
                ]
              ]
        ]
      ]
