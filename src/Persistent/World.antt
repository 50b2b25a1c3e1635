-- ===== src/Persistent/World.antt =====
-- Any number of instances of one actor over one journal (src/persistent.rs): hosts that start, act
-- in any order, freeze and vanish.
use horsie_actor.Base.{
  ◌+◌, ◌<◌, ◌≡◌, sym, ap, ◌∙◌, List, [], ◌∷◌, ◌++◌, arith, ok, length, length-append, u64_mod, All,
  All-append, All-map,
}
use mathlib.Core.List.{append-nil, append_assoc}
use native.Mathlib.Decide.{ℕ_discrete}
use horsie_actor.PersistenceId.{PersistenceId}
use horsie_actor.Journal.{Journal}
use horsie_actor.Journal.Contract.{Contract}
use horsie_actor.Effect.{EventSourcedActor, RoundTrips}
use horsie_actor.Persistent.{Persistent, new, on_start_between, handle}
use horsie_actor.Persistent.History.{Holds, fold}
use horsie_actor.Persistent.Refinement.{Live, decided, outcome, accepted, handle-Live}
use horsie_actor.Persistent.Recovering.{on_start-Live, on_start_between-on_start}
use horsie_actor.Persistent.Fence.{stale_handle, pid-handle}

pub record World (Inner State J : Type 0) : Type 0 where
  pub journal : J
  pub instances : List (Persistent Inner State)

module _ {Inner Command Event State Ack J : Type 0}
    (a : EventSourcedActor Inner Command Event State Ack) (o : Journal J) (c : Contract o)
    (pid : PersistenceId) where
  -- An instance recovers and joins: it has read the snapshot in an earlier journal, which still has the
  -- snapshot of the one in which it reads the events. One of them handles a command, or one is gone.
  pub data Step (v : World Inner State J) : World Inner State J → Type 0 where
    starts :
        (inner : Inner) (q : Persistent Inner State) (earlier : J)
        → (new a inner).pid ≡ pid
        → o.latest_snapshot earlier pid ≡ o.latest_snapshot v.journal pid
        → on_start_between a o earlier v.journal (new a inner) ≡ ok q
        → Step v (record v { instances = q ∷ v.instances })
    handles :
        (before after : List (Persistent Inner State)) (p : Persistent Inner State) (cmd : Command)
        → v.instances ≡ before ++ p ∷ after
        → (c.view v.journal pid).last_seq + length (decided a o c p cmd).events < u64_mod
        → Step v (record {
          journal = (handle a o p cmd v.journal).journal;
          instances = before ++ (handle a o p cmd v.journal).actor ∷ after;
        })
    vanishes :
        (before after : List (Persistent Inner State)) (p : Persistent Inner State)
        → v.instances ≡ before ++ p ∷ after
        → Step v (record v { instances = before ++ after })

  pub data Reach (v : World Inner State J) : World Inner State J → Type 0 where
    here : Reach v v
    next : {w x : World Inner State J} → Reach v w → Step w x → Reach v x

  -- The instance stands where the history stood once: its state is the fold of a beginning of it.
  pub record IsPast (history : List Event) (p : Persistent Inner State) : Type 0 where
    pub past : List Event
    pub rest : List Event
    pub splits : history ≡ past ++ rest
    pub pid_eq : p.pid ≡ pid
    pub state : p.state ≡ fold a past
    pub seq_nr : p.seq_nr ≡ length past

  -- There is one history: the log stands for it, and every instance for a beginning of it.
  pub record IsLinear (w : World Inner State J) (history : List Event) : Type 0 where
    pub holds : Holds a (c.view w.journal pid) history
    pub instances : All (IsPast history) w.instances

  IsPast-more :
      (history more : List Event) (p : Persistent Inner State)
      → IsPast history p
      → IsPast (history ++ more) p
  IsPast-more history more p h = record {
    past = h.past;
    rest = h.rest ++ more;
    splits = rw (h.splits, append_assoc);
    pid_eq = h.pid_eq;
    state = h.state;
    seq_nr = h.seq_nr;
  }

  Live-IsPast :
      (history : List Event) (p : Persistent Inner State) (j : J)
      → p.pid ≡ pid
      → Live a o c p j history
      → IsPast history p
  Live-IsPast history p j same live = record {
    past = history;
    rest = [];
    splits = sym (append-nil history);
    pid_eq = same;
    state = live.state;
    seq_nr = live.seq_nr;
  }

  past_at_end :
      (past rest history : List Event)
      → history ≡ past ++ rest
      → length past ≡ length history
      → past ≡ history
  past_at_end past [] history e h = sym (append-nil past) ∙ sym e
  past_at_end past (x ∷ rest) history e h =
      absurd (omega (arith, length-append past (x ∷ rest), ap length e))

  -- One command handled by one instance, current or not.
  handled-IsPast :
      RoundTrips a.event_serde
      → RoundTrips a.state_serde
      → (p : Persistent Inner State) (cmd : Command) (j : J) (history : List Event)
      → (c.view j pid).last_seq + length (decided a o c p cmd).events < u64_mod
      → Holds a (c.view j pid) history
      → IsPast history p
      → (more : List Event) × Holds a (c.view (handle a o p cmd j).journal pid) (history ++ more)
        × IsPast (history ++ more) (handle a o p cmd j).actor
  handled-IsPast trips state_trips p cmd j history room holds h =
      elim (ℕ_discrete (c.view j p.pid).last_seq p.seq_nr) [
        | yes current ↦
            let there : (c.view j pid).last_seq ≡ p.seq_nr = rw h.pid_eq at current in
            let whole : h.past ≡ history =
              past_at_end h.past h.rest history h.splits (omega (arith, holds.count, h.seq_nr)) in
            let live : Live a o c p j history = record {
              holds = rw h.pid_eq holds;
              state = rw (← whole) h.state;
              seq_nr = omega (arith, holds.count);
            } in
            let grown =
              (handle-Live a o c trips state_trips p cmd j history (omega (arith, holds.count))
                live).0 in
            let same : (handle a o p cmd j).actor.pid ≡ pid = pid-handle a o c p cmd j ∙ h.pid_eq in
            (
              accepted a o c (outcome a o c p cmd j) (decided a o c p cmd).events,
              rw same at grown.holds,
              Live-IsPast _ _ _ same grown,
            )
        | no behind ↦
            let stale = stale_handle a o c p cmd j behind in
            (
              [],
              rw (append-nil history, stale.1 pid) holds,
              rw (append-nil history) (record {
                past = h.past;
                rest = h.rest;
                splits = h.splits;
                pid_eq = stale.4 ∙ h.pid_eq;
                state = stale.2 ∙ h.state;
                seq_nr = stale.3 ∙ h.seq_nr;
              }),
            )
      ]

  All-middle :
      (P : Persistent Inner State → Type 0) (before after : List (Persistent Inner State))
      (p : Persistent Inner State)
      → All P (before ++ p ∷ after)
      → All P before × P p × All P after
  All-middle P [] after p all = (tt, all.0, all.1)
  All-middle P (x ∷ before) after p all =
      let (b, q, r) = All-middle P before after p all.1 in ((all.0, b), q, r)

  Step-IsLinear :
      RoundTrips a.event_serde
      → RoundTrips a.state_serde
      → {v w : World Inner State J} (history : List Event) → Step v w
      → IsLinear v history
      → (more : List Event) × IsLinear w (history ++ more)
  Step-IsLinear trips state_trips {v} history (starts inner q earlier same first started) h =
      let there : o.latest_snapshot earlier (new a inner).pid
          ≡ o.latest_snapshot v.journal (new a inner).pid =
        rw same first in
      let whole = on_start_between-on_start a o c (new a inner) earlier v.journal there in
      let (live, kept) =
        on_start-Live a o c (new a inner) q v.journal history (rw same h.holds)
          (sym whole ∙ started) in
      (
        [],
        rw (append-nil history) (record {
          holds = h.holds;
          instances = (Live-IsPast history q v.journal (kept ∙ same) live, h.instances);
        }),
      )
  Step-IsLinear trips state_trips {v} history (handles before after p cmd e room) h =
      let (b, q, r) = All-middle (IsPast history) before after p (rw e at h.instances) in
      let (more, holds, past) =
        handled-IsPast trips state_trips p cmd v.journal history room h.holds q in
      let grown =
        λ (x : Persistent Inner State) (y : IsPast history x). IsPast-more history more x y in
      (
        more,
        record {
          holds = holds;
          instances =
              All-append (IsPast (history ++ more)) before _ (All-map before grown b)
                (past, All-map after grown r);
        },
      )
  Step-IsLinear trips state_trips {v} history (vanishes before after p e) h =
      let (b, q, r) = All-middle (IsPast history) before after p (rw e at h.instances) in
      (
        [],
        rw (append-nil history)
            (record { holds = h.holds; instances = All-append (IsPast history) before after b r }),
      )

  -- However many instances of one actor there are, and in whatever order they start, act, freeze
  -- and vanish, as long as no instance starts with a snapshot that another one replaces before it reads
  -- the events, there is one history: it only ever grows at its end, recovery from the log rebuilds
  -- the fold of all of it, and every instance, current or superseded, holds the fold of a beginning
  -- of it and counts that beginning.
  pub Reach-IsLinear :
      RoundTrips a.event_serde
      → RoundTrips a.state_serde
      → {v w : World Inner State J} (history : List Event) → IsLinear v history
      → Reach v w
      → (more : List Event) × IsLinear w (history ++ more)
  Reach-IsLinear trips state_trips history h here = ([], rw (append-nil history) h)
  Reach-IsLinear trips state_trips history h (next r step) =
      let (more, there) = Reach-IsLinear trips state_trips history h r in
      let (last, done) = Step-IsLinear trips state_trips (history ++ more) step there in
      (more ++ last, rw (← append_assoc) done)
