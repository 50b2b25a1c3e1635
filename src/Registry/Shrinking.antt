-- ===== src/Registry/Shrinking.antt =====
-- How many entries the registry of src/system.rs keeps, and which a halt leaves.
use horsie_actor.Base.{
  ℕ, zero, suc, ◌≤◌, ◌<◌, ◌≡◌, refl, ◌∙◌, Bool, true, false, ◌&&◌, not, none, some, List, [], ◌∷◌,
  foldl, any, retain, length, ◌==◌, arith, Bool-cases, Option-cases, inl, inr, ==_refl,
}
use horsie_actor.Map.{Map, get, remove, get-remove, length-remove-le}
use horsie_actor.ActorPath.{ActorPath, starts_with}
use horsie_actor.Registry.{
  Registry, RegistryEntry, path_eq, path_beq_iff, retire, doomed, unregister, halt,
}
use horsie_actor.Registry.Prefixes.{starts_with_refl, starts_with_trans, starts_with_antisym}

pub length-retire-le :
    (s : Registry) (p : ActorPath) (m : ℕ) → length (retire s p m).live ≤ length s.live
unfolding retire
length-retire-le s p m = elim (Option-cases (get s.live p)) [
  | inl e ↦ ground (arith, e)
  | inr (x, e) ↦ ground (arith, e, length-remove-le s.live p)
]

pub length-foldl-le :
    (step : Registry → ActorPath → Registry)
    → ((s : Registry) (p : ActorPath) → length (step s p).live ≤ length s.live)
    → (s : Registry) (ps : List ActorPath) → length (foldl step s ps).live ≤ length s.live
length-foldl-le step h s [] = omega arith
length-foldl-le step h s (p ∷ ps) = omega (arith, h s p, length-foldl-le step h (step s p) ps)

pub length-halt-le :
    (fuel : ℕ) (s : Registry) (p : ActorPath) → length (halt fuel s p).live ≤ length s.live
unfolding halt
length-halt-le zero s p = omega arith
length-halt-le (suc fuel) s p = elim (Option-cases (get s.live p)) [
  | inl e ↦ ground (arith, e)
  | inr (x, e) ↦
      let quiet = retire (unregister s p) p x.mailbox in
      ground (
        arith,
        e,
        length-foldl-le (halt fuel) (length-halt-le fuel) quiet (doomed quiet p),
        length-retire-le (unregister s p) p x.mailbox,
        length-remove-le s.live p,
      )
]

pub length-remove-lt :
    (m : Map ActorPath RegistryEntry) (p : ActorPath) (e : RegistryEntry)
    → get m p ≡ some e
    → length (remove m p) < length m
unfolding get remove
length-remove-lt [] p e h = ground arith
length-remove-lt ((q, x) ∷ m) p e h = ground (arith, length-remove-le m p, length-remove-lt m p e)

-- The entry is gone already when its task retires.
pub retire-unregister :
    (s : Registry) (p : ActorPath) (m : ℕ) → retire (unregister s p) p m ≡ unregister s p
unfolding retire
retire-unregister s p m =
    let gone : get (remove s.live p) p ≡ none = get-remove s.live p p ∙ rw (==_refl p) refl in
    rw (gone, retire)

pub any_same {ℓ} :
    {A : Type ℓ} (f g : A → Bool) (xs : List A) → ((x : A) → f x ≡ g x) → any f xs ≡ any g xs
any_same f g [] h = refl
any_same f g (x ∷ xs) h = ground (arith, h x, any_same f g xs h)

pub doomed_elsewhere :
    (here : ActorPath → Bool) (p r : ActorPath) (ps : List ActorPath)
    → starts_with r p ≡ false
    → any (λ q. here q && starts_with r q) (retain (λ q. starts_with q p && not (q == p)) ps)
      ≡ false
doomed_elsewhere here p r [] h = refl
doomed_elsewhere here p r (q ∷ ps) h =
    ground (arith, starts_with_trans r q p, doomed_elsewhere here p r ps h)

pub doomed_there :
    (here : ActorPath → Bool) (p r : ActorPath) (ps : List ActorPath)
    → here r ≡ true
    → starts_with r p ≡ true
    → (r == p) ≡ false
    → any (λ q. q == r) ps ≡ true
    → any (λ q. here q && starts_with r q) (retain (λ q. starts_with q p && not (q == p)) ps) ≡ true
doomed_there here p r [] a b c d = ground arith
doomed_there here p r (q ∷ ps) a b c d = elim (Bool-cases (q == r)) [
  | inl e ↦
      let same : q ≡ r = (path_beq_iff q r).0 e in rw same (ground (arith, starts_with_refl r))
  | inr e ↦ ground (arith, e, doomed_there here p r ps a b c)
]

pub doomed_self :
    (here : ActorPath → Bool) (p : ActorPath) (ps : List ActorPath)
    → any (λ q. here q && starts_with p q) (retain (λ q. starts_with q p && not (q == p)) ps)
      ≡ false
doomed_self here p [] = refl
doomed_self here p (q ∷ ps) =
    ground (arith, starts_with_antisym q p, path_beq_iff q p, doomed_self here p ps)

pub get_empty : (m : Map ActorPath RegistryEntry) (r : ActorPath) → length m ≤ 0 → get m r ≡ none
unfolding get
get_empty [] r h = refl
get_empty ((q, x) ∷ m) r h = absurd (omega arith)
