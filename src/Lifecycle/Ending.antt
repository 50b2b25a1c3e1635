-- ===== src/Lifecycle/Ending.antt =====
-- What one actor handles before its end, and what its end leaves, in src/runtime.rs.
use horsie_actor.Base.{
  ℕ, ◌≡◌, ◌⊎◌, refl, ap, ◌∙◌, Bool, true, false, not, ◌&&◌, ◌||◌, none, some, List, [], ◌∷◌, ◌++◌,
  foldl, ◌==◌, ==_refl, nat_eq, arith, if◌then◌else◌, Bool-cases, Option-cases, inl, inr,
}
use horsie_actor.Map.{get, get-remove}
use horsie_actor.ActorPath.{ActorPath, starts_with}
use horsie_actor.Effect.{Flow}
use horsie_actor.Registry.{
  Registry, RegistryEntry, path_eq, has_ended, is_alive, retire, stop_descendants, finish,
}
use horsie_actor.Registry.Stopping.{stop_descendants-get}
use horsie_actor.Registry.Order.{any-append}
use horsie_actor.Lifecycle.{
  Wait, received, closed, signalled, Race, completed, interrupted, serve, run_actor,
}

module _ {Actor Command : Type 0} (handle : Actor → Command → Flow × Actor) where
  abbrev pub arrived : List (Wait Command × Race) → List Command
  arrived [] = []
  arrived ((received cmd, race) ∷ rest) = cmd ∷ arrived rest
  arrived ((closed, race) ∷ rest) = arrived rest
  arrived ((signalled, race) ∷ rest) = arrived rest

  abbrev is_stop : Flow → Bool
  is_stop Flow.stop = true
  is_stop Flow.continue = false

  -- A turn that an actor does not go on after: the channel closes, a signal comes first or cuts the
  -- handler short, or the handler asks to stop.
  abbrev pub is_end : Actor → Wait Command × Race → Bool
  is_end actor (received cmd, completed) = is_stop (handle actor cmd).0
  is_end actor (received cmd, interrupted) = true
  is_end actor (closed, race) = true
  is_end actor (signalled, race) = true

  -- What the commands of these turns make of the actor.
  abbrev pub after : Actor → List (Wait Command × Race) → Actor
  after actor turns = foldl (λ a cmd. (handle a cmd).1) actor (arrived turns)

  Flow-cases : (f : Flow) → (f ≡ Flow.stop) ⊎ (f ≡ Flow.continue)
  Flow-cases Flow.stop = inl refl
  Flow-cases Flow.continue = inr refl

  -- The loop returns at the latest at a turn that ends it for the actor as the turns before left it.
  serve-returned :
      (actor : Actor) (before : List (Wait Command × Race)) (turn : Wait Command × Race)
      (rest : List (Wait Command × Race))
      → is_end (after actor before) turn ≡ true
      → (serve handle actor (before ++ turn ∷ rest)).returned ≡ true
  unfolding serve
  serve-returned actor [] (closed, race) rest h = refl
  serve-returned actor [] (signalled, race) rest h = refl
  serve-returned actor [] (received cmd, interrupted) rest h = refl
  serve-returned actor [] (received cmd, completed) rest h =
      elim (Flow-cases (handle actor cmd).0) [
        | inl e ↦ rw (serve, e) refl
        | inr e ↦ ground (arith, h, e)
      ]
  serve-returned actor ((closed, race) ∷ before) turn rest h = refl
  serve-returned actor ((signalled, race) ∷ before) turn rest h = refl
  serve-returned actor ((received cmd, interrupted) ∷ before) turn rest h = refl
  serve-returned actor ((received cmd, completed) ∷ before) turn rest h =
      elim (Flow-cases (handle actor cmd).0) [
        | inl e ↦ rw (serve, e) refl
        | inr e ↦ rw (serve, e) (serve-returned (handle actor cmd).1 before turn rest h)
      ]

  -- The commands whose handlers complete are the first of those that arrive, in order, and the actor,
  -- as the last of these handlers left it, is what they make of it one after the other.
  pub serve-handled :
      (actor : Actor) (turns : List (Wait Command × Race))
      → ((rest : List Command) × (arrived turns ≡ (serve handle actor turns).handled ++ rest))
        × ((serve handle actor turns).actor
            ≡ foldl (λ a cmd. (handle a cmd).1) actor (serve handle actor turns).handled)
  unfolding serve
  serve-handled actor [] = (([], refl), refl)
  serve-handled actor ((closed, race) ∷ rest) = ((arrived rest, refl), refl)
  serve-handled actor ((signalled, race) ∷ rest) = ((arrived rest, refl), refl)
  serve-handled actor ((received cmd, interrupted) ∷ rest) = ((cmd ∷ arrived rest, refl), refl)
  serve-handled actor ((received cmd, completed) ∷ rest) =
      let ((later, whole), same) = serve-handled (handle actor cmd).1 rest in
      elim (Flow-cases (handle actor cmd).0) [
        | inl e ↦ rw (serve, e) ((arrived rest, refl), refl)
        | inr e ↦ rw (serve, e) ((later, ap (λ cmds. cmd ∷ cmds) whole), same)
      ]

  finish-ended : (s : Registry) (path : ActorPath) (m : ℕ) → has_ended (finish s path m) m ≡ true
  unfolding finish has_ended
  finish-ended s path m =
      let quiet = stop_descendants (retire s path m) path in
      any-append (λ e. e.1 == m) quiet.ended ((path, m) ∷ []) ∙ ground (arith, ==_refl m)

  finish-get :
      (s : Registry) (path r : ActorPath) (m : ℕ)
      → get (finish s path m).live r
        ≡ (if starts_with r path && not (r == path) then none else get (retire s path m).live r)
  unfolding finish
  finish-get s path r m = stop_descendants-get (retire s path m) path r

  retire-mailbox :
      (s : Registry) (path : ActorPath) (m : ℕ) (x : RegistryEntry)
      → get (retire s path m).live path ≡ some x
      → (x.mailbox == m) ≡ false
  unfolding retire
  retire-mailbox s path m x h = elim (Option-cases (get s.live path)) [
    | inl e ↦ absurd (ground (arith, h, e))
    | inr (y, e) ↦ elim (Bool-cases (y.mailbox == m)) [
      | inl same ↦ absurd (ground (arith, h, e, same, get-remove s.live path path, ==_refl path))
      | inr other ↦ ground (arith, h, e, other)
    ]
  ]

  -- An actor that does not start ends, and so does one that gets to a turn where its channel closes, a
  -- signal comes first or cuts its handler short, or its handler, run on what the commands before made of
  -- the actor, asks to stop, whatever turns would follow: its mailbox is closed, nothing is live below
  -- its path, and its entry is gone.
  pub run_actor-ends :
      (on_start : Actor → Bool × Actor) (path : ActorPath) (m : ℕ) (actor : Actor)
      (before : List (Wait Command × Race)) (turn : Wait Command × Race)
      (rest : List (Wait Command × Race)) (s : Registry)
      → (not (on_start actor).0 || is_end (after (on_start actor).1 before) turn) ≡ true
      → let (over, t) = run_actor handle on_start path m actor (before ++ turn ∷ rest) s in
        (over ≡ true)
        × (is_alive t m ≡ false)
        × ((r : ActorPath) → starts_with r path && not (r == path) ≡ true → get t.live r ≡ none)
        × ((x : RegistryEntry) → get t.live path ≡ some x → (x.mailbox == m) ≡ false)
  unfolding run_actor is_alive
  run_actor-ends on_start path m actor before turn rest s h =
      let over : (not (on_start actor).0
            || (serve handle (on_start actor).1 (before ++ turn ∷ rest)).returned)
          ≡ true =
        ground (arith, h, serve-returned (on_start actor).1 before turn rest) in
      rw over (
        refl,
        ground (arith, finish-ended s path m),
        λ r under. ground (arith, finish-get s path r m, under),
        λ x there.
            retire-mailbox s path m x
              (ground (arith, there, finish-get s path path m, ==_refl path)),
      )
