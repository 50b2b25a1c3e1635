-- ===== src/ActorPath/Prefix.antt =====
-- Ancestors and children in src/path.rs.
use horsie_actor.Base.{
  ◌≡◌, ◌↔◌, ◌⊎◌, refl, ap, true, none, some, List, [], ◌∷◌, ◌++◌, Text, list_eq, nat_eq,
  list_beq_iff, arith, length, length-append, ◌≤◌, inl, inr,
}
use horsie_actor.ActorPath.{
  ActorPath, child, parent, name, is_root, starts_with, split_last, zip_all,
}

split_last-append {ℓ} :
    {A : Type ℓ} (xs : List A) (x : A) → split_last (xs ++ x ∷ []) ≡ some (x, xs)
unfolding split_last
split_last-append [] x = refl
split_last-append (y ∷ xs) x = rw (split_last-append xs x, split_last)

split_last-eq {ℓ} :
    {A : Type ℓ} (xs : List A)
    → (split_last xs ≡ none) × (xs ≡ [])
      ⊎ ((x : A) × (front : List A) × (split_last xs ≡ some (x, front)) × (xs ≡ front ++ x ∷ []))
unfolding split_last
split_last-eq [] = inl (refl, refl)
split_last-eq (y ∷ xs) = elim (split_last-eq xs) [
  | inl (e, f) ↦ inr (y, [], rw (e, split_last), ap (◌∷◌ y) f)
  | inr (x, front, e, f) ↦ inr (x, y ∷ front, rw (e, split_last), ap (◌∷◌ y) f)
]

pub parent-child :
    (p : ActorPath) (n : Text) → (parent (child p n) ≡ some p) × (name (child p n) ≡ some n)
unfolding parent child name
parent-child p n =
    (rw (split_last-append p.segments n, parent), rw (split_last-append p.segments n, name))

-- The root has neither a parent nor a name, and every other path is the child of its parent under
-- its name.
pub parent_cases :
    (p : ActorPath)
    → ((is_root p ≡ true) × (parent p ≡ none) × (name p ≡ none))
      ⊎ ((q : ActorPath) × (n : Text) × (parent p ≡ some q) × (name p ≡ some n) × (p ≡ child q n))
unfolding parent name child is_root
parent_cases p = elim (split_last-eq p.segments) [
  | inl (e, f) ↦ inl (rw f, rw (e, parent), rw (e, name))
  | inr (x, front, e, f) ↦
      inr (record { segments = front }, x, rw (e, parent), rw (e, name), ground (arith, f))
]

zip_all-append : (xs rest : List Text) → zip_all xs (xs ++ rest) ≡ true
unfolding zip_all
zip_all-append [] rest = refl
zip_all-append (x ∷ xs) rest = ground (arith, list_beq_iff x x, zip_all-append xs rest)

zip_all-rest :
    (xs ys : List Text)
    → length xs ≤ length ys
    → zip_all xs ys ≡ true
    → (rest : List Text) × (ys ≡ xs ++ rest)
unfolding zip_all
zip_all-rest [] ys h e = (ys, refl)
zip_all-rest (x ∷ xs) [] h e = absurd (omega arith)
zip_all-rest (x ∷ xs) (y ∷ ys) h e =
    let (rest, f) = zip_all-rest xs ys (omega arith) (ground arith) in
    (rest, ground (arith, list_beq_iff x y))

-- `starts_with` is the ancestor relation by whole segments: the path is the prefix followed by
-- further segments.
pub starts_with_iff :
    (p prefix : ActorPath)
    → (starts_with p prefix ≡ true) ↔ ((rest : List Text) × (p.segments ≡ prefix.segments ++ rest))
unfolding starts_with
starts_with_iff p prefix = (
  λ h. zip_all-rest prefix.segments p.segments (ground arith) (ground arith),
  λ (rest, e).
      ground (arith, zip_all-append prefix.segments rest, length-append prefix.segments rest),
)
