-- ===== src/Registry/Stopping.antt =====
-- What stopping takes out of the registry of src/system.rs.
use horsie_actor.Base.{
  ℕ, zero, suc, ◌≤◌, ◌≡◌, refl, Bool, true, false, ◌&&◌, not, none, some, List, [], ◌∷◌, foldl, any,
  length, ◌==◌, if◌then◌else◌, arith, Bool-cases, Option-cases, inl, inr,
}
use horsie_actor.Map.{Map, get, remove, keys, get-remove}
use horsie_actor.ActorPath.{ActorPath, starts_with}
use horsie_actor.Registry.{
  Registry, RegistryEntry, path_eq, path_beq_iff, is_here, doomed, unregister, end_task, halt,
  stop_descendants, stop_at,
}
use horsie_actor.Registry.Prefixes.{starts_with_refl, starts_with_trans}
use horsie_actor.Registry.Shrinking.{
  length-halt-le, length-remove-lt, retire-unregister, any_same, doomed_elsewhere, doomed_there,
  doomed_self, get_empty,
}

pub keys-get :
    (m : Map ActorPath RegistryEntry) (r : ActorPath)
    → is_here (get m r) ≡ true
    → any (λ q. q == r) (keys m) ≡ true
unfolding get
keys-get [] r h = ground arith
keys-get ((q, x) ∷ m) r h = ground (arith, keys-get m r)

abbrev Halts : ℕ → Type 0
Halts fuel =
    (s : Registry) (p r : ActorPath)
    → length s.live ≤ fuel
    → get (halt fuel s p).live r
      ≡ (if is_here (get s.live p) && starts_with r p then none else get s.live r)

foldl-halt :
    (fuel : ℕ)
    → Halts fuel
    → (s : Registry) (ps : List ActorPath) (r : ActorPath) → length s.live ≤ fuel
    → get (foldl (halt fuel) s ps).live r
      ≡ (if any (λ q. is_here (get s.live q) && starts_with r q) ps then none else get s.live r)
foldl-halt fuel h s [] r fits = refl
foldl-halt fuel h s (p ∷ ps) r fits =
    let after = halt fuel s p in
    let rest = foldl-halt fuel h after ps r (omega (arith, length-halt-le fuel s p)) in
    elim (Bool-cases (is_here (get s.live p) && starts_with r p)) [
      | inl under ↦ ground (arith, rest, h s p r fits, under)
      | inr apart ↦
          let same =
            any_same (λ q. is_here (get after.live q) && starts_with r q)
              (λ q. is_here (get s.live q) && starts_with r q) ps
              (λ q. ground (arith, h s p q fits, starts_with_trans r q p, apart)) in
          ground (arith, rest, h s p r fits, apart, same)
    ]

-- What is strictly under the path is what is doomed.
foldl-halt-doomed :
    (fuel : ℕ)
    → Halts fuel
    → (s : Registry) (p r : ActorPath) → length s.live ≤ fuel
    → get (foldl (halt fuel) s (doomed s p)).live r
      ≡ (if starts_with r p && not (r == p) then none else get s.live r)
unfolding doomed
foldl-halt-doomed fuel h s p r fits =
    let here : ActorPath → Bool = λ q. is_here (get s.live q) in
    let all = foldl-halt fuel h s (doomed s p) r fits in
    elim (Bool-cases (starts_with r p)) [
      | inr apart ↦ ground (arith, all, apart, doomed_elsewhere here p r (keys s.live) apart)
      | inl under ↦ elim (Bool-cases (r == p)) [
        | inl e ↦
            let same : r ≡ p = (path_beq_iff r p).0 e in
            let itself : any (λ q. here q && starts_with r q) (doomed s p) ≡ false =
              rw same (doomed_self here p (keys s.live)) in
            ground (arith, all, e, itself)
        | inr e ↦ elim (Option-cases (get s.live r)) [
          | inl gone ↦ ground (arith, all, gone)
          | inr (x, there) ↦ ground (
            arith,
            all,
            under,
            e,
            doomed_there here p r (keys s.live) (ground (arith, there)) under e
                (keys-get s.live r (ground (arith, there))),
          )
        ]
      ]
    ]

pub halt_found :
    (fuel : ℕ) (s : Registry) (p : ActorPath) (e : RegistryEntry)
    → get s.live p ≡ some e
    → halt (suc fuel) s p
      ≡ end_task (foldl (halt fuel) (unregister s p) (doomed (unregister s p) p)) p e.mailbox
unfolding halt
halt_found fuel s p e h = rw (h, halt, retire-unregister s p e.mailbox)

pub halt_missing :
    (fuel : ℕ) (s : Registry) (p : ActorPath) → get s.live p ≡ none → halt fuel s p ≡ s
unfolding halt
halt_missing zero s p h = refl
halt_missing (suc fuel) s p h = rw (h, halt)

pub halt-get : (fuel : ℕ) → Halts fuel
halt-get zero s p r fits = unfold halt in ground (arith, get_empty s.live r fits)
halt-get (suc fuel) s p r fits = elim (Option-cases (get s.live p)) [
  | inl e ↦ rw (halt_missing (suc fuel) s p e) (ground (arith, e))
  | inr (x, e) ↦
      let small : length (remove s.live p) ≤ fuel = omega (arith, length-remove-lt s.live p x e) in
      rw (halt_found fuel s p x e) (
        ground (
          arith,
          e,
          get-remove s.live p r,
          path_beq_iff p r,
          path_beq_iff r p,
          starts_with_refl p,
          foldl-halt-doomed fuel (halt-get fuel) (unregister s p) p r small,
        ))
]

pub stop_descendants-get :
    (s : Registry) (p r : ActorPath)
    → get (stop_descendants s p).live r
      ≡ (if starts_with r p && not (r == p) then none else get s.live r)
unfolding stop_descendants
stop_descendants-get s p r =
    foldl-halt-doomed (length s.live) (halt-get (length s.live)) s p r (omega arith)

-- After a stop at a path nothing is live there or anywhere below it, and every other path has the
-- entry that it had; the stop reports whether an actor was at the path itself.
pub stop_at-get :
    (s : Registry) (p : ActorPath)
    → ((r : ActorPath)
        → get (stop_at s p).1.live r ≡ (if starts_with r p then none else get s.live r))
      × ((stop_at s p).0 ≡ is_here (get s.live p))
unfolding stop_at
stop_at-get s p = (
  λ r. ground (
    arith,
    stop_descendants-get (halt (length s.live) s p) p r,
    halt-get (length s.live) s p r (omega arith),
    path_beq_iff r p,
  ),
  refl,
)
