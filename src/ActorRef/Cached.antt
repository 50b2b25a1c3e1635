-- ===== src/ActorRef/Cached.antt =====
-- What a reference's cache changes, in src/runtime.rs, and what one `tell` delivers.
use horsie_actor.Base.{
  ℕ, ◌≡◌, refl, Bool, true, false, Option, none, some, [], ◌∷◌, ◌++◌, Result, ok, err, ==_refl,
  nat_eq, Bool-cases, Option-cases, Result-cases, inl, inr,
}
use horsie_actor.ActorPath.{ActorPath}
use horsie_actor.Registry.{path_eq, is_alive, resolve}
use horsie_actor.ActorRef.{
  TellError, mailbox_closed, Link, local, remote, World, is_same, forget, send, send_resolved, tell,
}

module _ {Command W : Type 0} (ship : ℕ → Command → W → Result TellError (Unit {0}) × W) where
  send-closed :
      (m : ℕ) (cmd : Command) (w : World Command W)
      → is_alive w.registry m ≡ false
      → send ship (local m) cmd w ≡ (err (mailbox_closed, some cmd), w)
  unfolding send
  send-closed m cmd w over = rw (send, over) refl

  send-open :
      (m : ℕ) (cmd : Command) (w : World Command W)
      → is_alive w.registry m ≡ true
      → send ship (local m) cmd w ≡ (ok tt, record w { delivered = w.delivered ++ (m, cmd) ∷ [] })
  unfolding send
  send-open m cmd w alive = rw (send, alive) refl

  forget_self : (m : ℕ) → forget (some (local m)) (local m) ≡ none
  unfolding forget is_same
  forget_self m = rw (==_refl m) refl

  tell-closed :
      (up : Bool) (ty : ℕ) (path : ActorPath) (m : ℕ) (cmd : Command) (w : World Command W)
      → is_alive w.registry m ≡ false
      → tell ship up ty path (some (local m)) cmd w ≡ send_resolved ship up ty path none cmd w
  unfolding tell
  tell-closed up ty path m cmd w over =
      rw (tell, send-closed m cmd w over, send-closed m cmd w over, forget_self m) refl

  pub tell-open :
      (up : Bool) (ty : ℕ) (path : ActorPath) (m : ℕ) (cmd : Command) (w : World Command W)
      → is_alive w.registry m ≡ true
      → tell ship up ty path (some (local m)) cmd w
        ≡ (ok tt, some (local m), record w { delivered = w.delivered ++ (m, cmd) ∷ [] })
  unfolding tell
  tell-open up ty path m cmd w alive =
      rw (tell, send-open m cmd w alive, send-open m cmd w alive) refl

  -- The command was delivered here, once, or given to one link to another node, once, or to nobody.
  pub data Told (cmd : Command) (w : World Command W)
      : Result TellError (Unit {0}) × Option Link × World Command W → Type 0 where
    here :
        (m : ℕ) (slot : Option Link)
        → is_alive w.registry m ≡ true
        → Told cmd w (ok tt, slot, record w { delivered = w.delivered ++ (m, cmd) ∷ [] })
    away :
        (link : ℕ) (slot : Option Link)
        → Told cmd w
            ((ship link cmd w.outside).0, slot, record w { outside = (ship link cmd w.outside).1 })
    nobody : (slot : Option Link) → Told cmd w (err mailbox_closed, slot, w)

  send_resolved-Told :
      (up : Bool) (ty : ℕ) (path : ActorPath) (slot : Option Link) (cmd : Command)
      (w : World Command W)
      → Told cmd w (send_resolved ship up ty path slot cmd w)
  unfolding send_resolved
  send_resolved-Told false ty path slot cmd w = nobody slot
  send_resolved-Told true ty path slot cmd w = elim (Option-cases (resolve w.registry ty path)) [
    | inl e ↦ rw (send_resolved, e) (nobody slot)
    | inr (m, e) ↦ elim (Bool-cases (is_alive w.registry m)) [
      | inl alive ↦ rw (send_resolved, e, send-open m cmd w alive) (here m (some (local m)) alive)
      | inr over ↦ rw (send_resolved, e, send-closed m cmd w over) (nobody (some (local m)))
    ]
  ]

  tell-away :
      (up : Bool) (ty : ℕ) (path : ActorPath) (link : ℕ) (cmd : Command) (w : World Command W)
      → tell ship up ty path (some (remote link)) cmd w ≡ (
        (ship link cmd w.outside).0,
        some (remote link),
        record w { outside = (ship link cmd w.outside).1 },
      )
  unfolding tell send
  tell-away up ty path link cmd w = elim (Result-cases (ship link cmd w.outside).0) [
    | inl (u, e) ↦ rw (tell, send, e) refl
    | inr (x, e) ↦ rw (tell, send, e) refl
  ]

  -- Whatever a reference has cached, a `tell` hands its command to one mailbox of this node, which
  -- takes it, and reports success, or to one link to another node, and reports what that link does, or
  -- to nobody, and reports that the mailbox is closed.
  pub tell-Told :
      (up : Bool) (ty : ℕ) (path : ActorPath) (slot : Option Link) (cmd : Command)
      (w : World Command W)
      → Told cmd w (tell ship up ty path slot cmd w)
  unfolding tell
  tell-Told up ty path none cmd w = send_resolved-Told up ty path none cmd w
  tell-Told up ty path (some (local m)) cmd w = elim (Bool-cases (is_alive w.registry m)) [
    | inl alive ↦ rw (tell-open up ty path m cmd w alive) (here m (some (local m)) alive)
    | inr over ↦ rw (tell-closed up ty path m cmd w over) (send_resolved-Told up ty path none cmd w)
  ]
  tell-Told up ty path (some (remote link)) cmd w =
      rw (tell-away up ty path link cmd w) (away link (some (remote link)))
