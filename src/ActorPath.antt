-- ===== src/ActorPath.antt =====
-- src/path.rs: where an actor is in the tree. A segment is a text, its bytes.
pub mod Display
pub mod Prefix
use horsie_actor.Base.{
  ℕ, Bool, true, false, not, ◌&&◌, Option, none, some, List, [], ◌∷◌, ◌++◌, Text, Result, ok, err,
  ◌==◌, list_eq, nat_eq, list_beq, if◌then◌else◌, any, leb, length,
}

pub record ActorPath : Type 0 where
  pub segments : List Text

unfoldable pub root : ActorPath
root = record { segments = [] }

unfoldable pub child : ActorPath → Text → ActorPath
child p name = record { segments = p.segments ++ name ∷ [] }

abbrev pub is_empty : Text → Bool
is_empty [] = true
is_empty (c ∷ cs) = false

-- `str::split('/')` of the standard library: the pieces between the slashes, one more than slashes.
unfoldable pub split : Text → List Text
split [] = [] ∷ []
split (c ∷ cs) = elim (split cs) [
  | [] ↦ []
  | piece ∷ rest ↦ if c == b'/' then [] ∷ piece ∷ rest else (c ∷ piece) ∷ rest
]

pub data InvalidPath : Type 0 where
  invalid_path : Text → InvalidPath

-- What is left of an absolute path behind its slash.
parse_rest : Text → Text → Result InvalidPath ActorPath
unfolding root split
parse_rest text [] = ok root
parse_rest text (c ∷ cs) =
    if any is_empty (split (c ∷ cs))
    then err (invalid_path text)
    else ok (record { segments = split (c ∷ cs) })

unfoldable pub parse : Text → Result InvalidPath ActorPath
unfolding parse_rest
parse [] = err (invalid_path [])
parse (c ∷ cs) = if c == b'/' then parse_rest (c ∷ cs) cs else err (invalid_path (c ∷ cs))

-- `split_last` of the standard library: the last element and what stands before it.
unfoldable pub split_last {ℓ} : {A : Type ℓ} → List A → Option (A × List A)
split_last [] = none
split_last (x ∷ xs) = elim (split_last xs) [
  | none ↦ some (x, [])
  | some (last, front) ↦ some (last, x ∷ front)
]

unfoldable pub parent : ActorPath → Option ActorPath
unfolding split_last
parent p = elim (split_last p.segments) [
  | none ↦ none
  | some (last, front) ↦ some (record { segments = front })
]

abbrev pub no_elements {ℓ} : {A : Type ℓ} → List A → Bool
no_elements [] = true
no_elements (x ∷ xs) = false

unfoldable pub is_root : ActorPath → Bool
is_root p = no_elements p.segments

unfoldable pub name : ActorPath → Option Text
unfolding split_last
name p = elim (split_last p.segments) [ none ↦ none | some (last, front) ↦ some last ]

-- `prefix.iter().zip(self.iter()).all(|(a, b)| a == b)`.
unfoldable pub zip_all : List Text → List Text → Bool
zip_all [] ys = true
zip_all (x ∷ xs) [] = true
zip_all (x ∷ xs) (y ∷ ys) = if x == y then zip_all xs ys else false

unfoldable pub starts_with : ActorPath → ActorPath → Bool
unfolding zip_all
starts_with p prefix =
    leb (length prefix.segments) (length p.segments) && zip_all prefix.segments p.segments

unfoldable pub is_valid_name : Text → Bool
is_valid_name text = not (is_empty text) && not (any (λ c. c == b'/') text)

display_segments : List Text → Text
display_segments [] = []
display_segments (segment ∷ rest) = b'/' ∷ (segment ++ display_segments rest)

-- `fmt::Display`.
unfoldable pub to_string : ActorPath → Text
unfolding display_segments
to_string p = if no_elements p.segments then b'/' ∷ [] else display_segments p.segments

abbrev pub path_beq : ActorPath → ActorPath → Bool
path_beq p q = list_beq p.segments q.segments
