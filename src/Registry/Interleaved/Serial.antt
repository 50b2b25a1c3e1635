-- ===== src/Registry/Interleaved/Serial.antt =====
-- A stop of src/system.rs, or the end of a task, that is done in one go is one order of its steps.
use horsie_actor.Base.{ℕ, List}
use horsie_actor.ActorPath.{ActorPath}
use horsie_actor.Registry.{Registry, path_eq}
use horsie_actor.Registry.Instances as Whole
use horsie_actor.Registry.Interleaved.{Reach}

-- From any tasks with the first registry, steps lead to some with the second.
abbrev pub Leads : Registry → Registry → Type 0
Leads s t =
    (leaving : List ℕ)
    → Reach (record { registry = s; leaving = leaving })
    → (later : List ℕ) × Reach (record { registry = t; leaving = later })
