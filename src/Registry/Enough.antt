-- ===== src/Registry/Enough.antt =====
-- The fuel of `halt`, in the model of src/system.rs.
use horsie_actor.Base.{
  ℕ, zero, suc, ◌≤◌, ◌≡◌, refl, ap, ◌∙◌, sym, List, [], ◌∷◌, foldl, length, arith, Option-cases,
  inl, inr,
}
use horsie_actor.Map.{get}
use horsie_actor.ActorPath.{ActorPath}
use horsie_actor.Registry.{Registry, path_eq, end_task, unregister, doomed, halt}
use horsie_actor.Registry.Stopping.{halt_missing, halt_found}
use horsie_actor.Registry.Shrinking.{get_empty, length-halt-le, length-remove-lt}

abbrev Agree : ℕ → ℕ → Type 0
Agree f g =
    (s : Registry) (p : ActorPath) → length s.live ≤ f → length s.live ≤ g → halt f s p ≡ halt g s p

foldl-Agree :
    (f g : ℕ)
    → Agree f g
    → (s : Registry) (ps : List ActorPath) → length s.live ≤ f
    → length s.live ≤ g
    → foldl (halt f) s ps ≡ foldl (halt g) s ps
foldl-Agree f g h s [] a b = refl
foldl-Agree f g h s (p ∷ ps) a b =
    let small = length-halt-le f s p in
    foldl-Agree f g h (halt f s p) ps (omega (arith, a, small)) (omega (arith, b, small))
    ∙ ap (λ t. foldl (halt g) t ps) (h s p a b)

halt-Agree : (f g : ℕ) → Agree f g
halt-Agree zero g s p a b =
    let gone = get_empty s.live p a in halt_missing zero s p gone ∙ sym (halt_missing g s p gone)
halt-Agree (suc f) zero s p a b =
    let gone = get_empty s.live p b in
    halt_missing (suc f) s p gone ∙ sym (halt_missing zero s p gone)
halt-Agree (suc f) (suc g) s p a b = elim (Option-cases (get s.live p)) [
  | inl e ↦ halt_missing (suc f) s p e ∙ sym (halt_missing (suc g) s p e)
  | inr (x, e) ↦
      let less = length-remove-lt s.live p x e in
      let rest =
        foldl-Agree f g (halt-Agree f g) (unregister s p) (doomed (unregister s p) p)
          (omega (arith, a, less)) (omega (arith, b, less)) in
      halt_found f s p x e ∙ ap (λ t. end_task t p x.mailbox) rest ∙ sym (halt_found g s p x e)
]

-- Halting an actor and what is below it comes to an end: from the number of the live actors on, more
-- fuel changes nothing.
pub halt_enough :
    (s : Registry) (p : ActorPath) (fuel : ℕ)
    → length s.live ≤ fuel
    → halt fuel s p ≡ halt (length s.live) s p
halt_enough s p fuel h = halt-Agree fuel (length s.live) s p h (omega arith)
