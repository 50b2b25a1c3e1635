-- ===== src/PersistenceId.antt =====
-- src/persistence_id.rs: the key of a log, an actor kind and an instance id.
use horsie_actor.Base.{
  ◌≡◌, ◌↔◌, Bool, true, false, ◌++◌, ◌∷◌, arith, EqTest, list_eq, nat_eq, list_beq, list_beq_iff,
  Text, if◌then◌else◌,
}

pub record PersistenceId : Type 0 where
  pub kind : Text
  pub id : Text

-- `fmt::Display`: the two parts with a slash between them.
unfoldable pub to_string : PersistenceId → Text
to_string p = p.kind ++ b'/' ∷ p.id

abbrev pub pid_beq : PersistenceId → PersistenceId → Bool
pid_beq p q = if list_beq p.kind q.kind then list_beq p.id q.id else false

pub pid_beq_iff : (p q : PersistenceId) → (pid_beq p q ≡ true) ↔ (p ≡ q)
pid_beq_iff p q = ground (arith, list_beq_iff p.kind q.kind, list_beq_iff p.id q.id)

instance abbrev pub pid_eq : EqTest PersistenceId
pid_eq = record { test = pid_beq; test_iff = pid_beq_iff }
