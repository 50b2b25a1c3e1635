-- ===== src/Registry/Prefixes.antt =====
-- `starts_with` of src/path.rs as an order.
use horsie_actor.Base.{
  ◌≡◌, refl, sym, ap, ◌∙◌, true, List, [], ◌∷◌, ◌++◌, arith, length, length-append, Text,
}
use mathlib.Core.List.{append_assoc, append-nil}
use horsie_actor.ActorPath.{ActorPath, starts_with}
use horsie_actor.ActorPath.Prefix.{starts_with_iff}

pub starts_with_refl : (p : ActorPath) → starts_with p p ≡ true
starts_with_refl p = (starts_with_iff p p).1 ([], sym (append-nil p.segments))

pub starts_with_trans :
    (p q r : ActorPath) → starts_with p q ≡ true → starts_with q r ≡ true → starts_with p r ≡ true
starts_with_trans p q r h k =
    let (xs, e) = (starts_with_iff p q).0 h in
    let (ys, f) = (starts_with_iff q r).0 k in
    (starts_with_iff p r).1 (ys ++ xs, rw (e, f, append_assoc))

append_same : (xs ys : List Text) → xs ≡ xs ++ ys → ys ≡ []
append_same xs [] e = refl
append_same xs (y ∷ ys) e = absurd (omega (arith, ap length e, length-append xs (y ∷ ys)))

append_back : (xs ys zs : List Text) → xs ≡ (xs ++ ys) ++ zs → ys ≡ []
append_back xs [] zs e = refl
append_back xs (y ∷ ys) zs e =
    absurd (omega (arith, ap length e, length-append (xs ++ y ∷ ys) zs, length-append xs (y ∷ ys)))

pub starts_with_antisym :
    (p q : ActorPath) → starts_with p q ≡ true → starts_with q p ≡ true → p ≡ q
starts_with_antisym p q h k =
    let (xs, e) = (starts_with_iff p q).0 h in
    let (ys, f) = (starts_with_iff q p).0 k in
    let none_left : xs ≡ [] = append_back q.segments xs ys (f ∙ ap (λ z. z ++ ys) e) in
    let same : p.segments ≡ q.segments =
      e ∙ (ap (λ z. q.segments ++ z) none_left ∙ append-nil q.segments) in
    ground (arith, same)
