-- ===== src/TransportTcp/Peer/Accounts.antt =====
-- What becomes of the callers on one connection of src/transport_tcp.rs, for any interleaving.
use horsie_actor.Base.{
  ℕ, ◌+◌, ◌≡◌, refl, sym, true, Option, none, some, List, [], ◌∷◌, ◌++◌, map, Bytes, nat_eq, ◌==◌,
  if◌then◌else◌, arith, ==_iff, inl, inr, Bool-cases, if_both,
}
use horsie_actor.Map.{Map, get, insert, remove, get-remove}
use horsie_actor.TransportTcp.Peer.{
  Frame, Peer, new_peer, dropped, answered, begin_rpc, fail_rpc, stop_reading, reply_frame,
  while_reading,
}

-- What happens on a connection, in any order: a caller registers, a write fails, a frame arrives (none
-- where it cannot be decoded), and the peer closes.
pub data Event : Type 0 where
  calls : ℕ → Event
  fails : ℕ → Event
  arrives : Option Frame → Event
  closes : Event

unfoldable pub step : Peer → Event → Peer
unfolding begin_rpc fail_rpc stop_reading reply_frame
step p (calls caller) = (begin_rpc p caller).1
step p (fails id) = fail_rpc p id
step p (arrives frame) = while_reading (λ q. reply_frame q frame) p
step p closes = while_reading stop_reading p

unfoldable pub run : Peer → List Event → Peer
unfolding step
run p [] = p
run p (e ∷ es) = run (step p e) es

-- How often a caller called, waits and had its channel end.
abbrev pub made : ℕ → List Event → ℕ
made w [] = 0
made w (calls v ∷ es) = (if v == w then 1 else 0) + made w es
made w (fails _ ∷ es) = made w es
made w (arrives _ ∷ es) = made w es
made w (closes ∷ es) = made w es

abbrev pub waits : ℕ → Map ℕ ℕ → ℕ
waits w [] = 0
waits w ((id, v) ∷ m) = (if v == w then 1 else 0) + waits w m

abbrev pub ends : ℕ → List (ℕ × Option Bytes) → ℕ
ends w [] = 0
ends w ((v, a) ∷ l) = (if v == w then 1 else 0) + ends w l

-- No id is in the table twice.
abbrev pub IsTable : Map ℕ ℕ → Type 0
IsTable [] = Unit {0}
IsTable ((id, v) ∷ m) = (get m id ≡ none) × IsTable m

waited : ℕ → Option ℕ → ℕ
waited w none = 0
waited w (some v) = if v == w then 1 else 0

remove_absent : (m : Map ℕ ℕ) (id : ℕ) → get m id ≡ none → remove m id ≡ m
unfolding get remove
remove_absent [] id h = refl
remove_absent ((j, v) ∷ m) id h = ground (arith, remove_absent m id)

IsTable-remove : (m : Map ℕ ℕ) (id : ℕ) → IsTable m → IsTable (remove m id)
unfolding remove
IsTable-remove [] id h = tt
IsTable-remove ((j, v) ∷ m) id h = ground (arith, IsTable-remove m id h.1, get-remove m id j, h.0)

-- What a caller has in the table is what it has without an id, and what it has under that.
waits-remove :
    (m : Map ℕ ℕ) (id w : ℕ) → IsTable m → waits w m ≡ waits w (remove m id) + waited w (get m id)
unfolding get remove waited
waits-remove [] id w h = omega arith
waits-remove ((j, v) ∷ m) id w h = elim (Bool-cases (j == id)) [
  | inl e ↦
      let gone : get m id ≡ none = rw (sym ((==_iff j id).0 e)) h.0 in
      rw (e, remove_absent m id gone) (omega arith)
  | inr e ↦ rw e (omega (arith, waits-remove m id w h.1))
]

ends-dropped :
    (w : ℕ) (waiting : Option ℕ) (l : List (ℕ × Option Bytes))
    → ends w (dropped waiting l) ≡ waited w waiting + ends w l
unfolding waited
ends-dropped w none l = omega arith
ends-dropped w (some v) l = refl

ends-answered :
    (w : ℕ) (waiting : Option ℕ) (payload : Option Bytes) (l : List (ℕ × Option Bytes))
    → ends w (answered waiting payload l) ≡ waited w waiting + ends w l
unfolding waited
ends-answered w none payload l = omega arith
ends-answered w (some v) payload l = refl

ends-cleared :
    (w : ℕ) (m : Map ℕ ℕ) (l : List (ℕ × Option Bytes))
    → ends w (map (λ waiting. (waiting.1, none)) m ++ l) ≡ waits w m + ends w l
ends-cleared w [] l = omega arith
ends-cleared w ((id, v) ∷ m) l = omega (arith, ends-cleared w m l)

-- The calls of a caller that the connection has on record.
abbrev pub held : ℕ → Peer → ℕ
held w p = waits w p.pending + ends w p.ended

abbrev now : ℕ → Event → ℕ
now w (calls v) = if v == w then 1 else 0
now w (fails _) = 0
now w (arrives _) = 0
now w closes = 0

-- An answer, a failure and a call keep account of every call.
held-reply_frame :
    (w : ℕ) (p : Peer) (frame : Option Frame)
    → IsTable p.pending
    → IsTable (reply_frame p frame).pending × (held w (reply_frame p frame) ≡ held w p)
unfolding reply_frame stop_reading
held-reply_frame w p (some (Frame.response id payload)) h = (
  IsTable-remove p.pending id h,
  omega (arith, waits-remove p.pending id w h, ends-answered w (get p.pending id) payload p.ended),
)
held-reply_frame w p (some (Frame.message _)) h = (h, refl)
held-reply_frame w p (some (Frame.request _ _)) h = (h, refl)
held-reply_frame w p none h = (tt, omega (arith, ends-cleared w p.pending p.ended))

held-step :
    (w : ℕ) (p : Peer) (e : Event)
    → IsTable p.pending
    → IsTable (step p e).pending × (held w (step p e) ≡ held w p + now w e)
unfolding step begin_rpc fail_rpc insert stop_reading
held-step w p (calls caller) h = (
  (
    ground (
      arith,
      get-remove p.pending p.next_request p.next_request,
      ==_iff p.next_request p.next_request,
    ),
    IsTable-remove p.pending p.next_request h,
  ),
  omega (
    arith,
    waits-remove p.pending p.next_request w h,
    ends-dropped w (get p.pending p.next_request) p.ended,
  ),
)
held-step w p (fails id) h = (
  IsTable-remove p.pending id h,
  omega (arith, waits-remove p.pending id w h, ends-dropped w (get p.pending id) p.ended),
)
held-step w p (arrives frame) h =
    let (table, same) = held-reply_frame w p frame h in
    if_both (λ q. IsTable q.pending × (held w q ≡ held w p + 0)) p.reading
      (λ _. (table, omega (arith, same))) (λ _. (h, omega arith))
held-step w p closes h =
    if_both (λ q. IsTable q.pending × (held w q ≡ held w p + 0)) p.reading
      (λ _. (tt, omega (arith, ends-cleared w p.pending p.ended))) (λ _. (h, omega arith))

made-now : (w : ℕ) (e : Event) (es : List Event) → made w (e ∷ es) ≡ now w e + made w es
made-now w (calls v) es = refl
made-now w (fails _) es = omega arith
made-now w (arrives _) es = omega arith
made-now w closes es = omega arith

held-run :
    (w : ℕ) (p : Peer) (es : List Event)
    → IsTable p.pending
    → IsTable (run p es).pending × (held w (run p es) ≡ held w p + made w es)
unfolding run
held-run w p [] h = (h, omega arith)
held-run w p (e ∷ es) h =
    let (table, one) = held-step w p e h in
    let (later, rest) = held-run w (step p e) es table in
    (later, omega (arith, one, rest, made-now w e es))

closes-pending : (p : Peer) → p.reading ≡ true → (step p closes).pending ≡ []
unfolding step stop_reading
closes-pending p reads = rw reads refl

-- Every call on a connection waits or has ended, and only once: whatever happens and in any order, a
-- caller is in the table and among the ended as often as it called. Once the connection closes, if replies
-- were read until then, every call has ended as often as it was made and none waits.
pub calls-accounted :
    (w : ℕ) (es : List Event)
    → (waits w (run new_peer es).pending + ends w (run new_peer es).ended ≡ made w es)
      × ((run new_peer es).reading ≡ true
          → ((step (run new_peer es) closes).pending ≡ [])
            × (ends w (step (run new_peer es) closes).ended ≡ made w es))
calls-accounted w es =
    let (table, same) = held-run w new_peer es tt in
    (
      omega (arith, same),
      λ reads.
          let (_, closed) = held-step w (run new_peer es) closes table in
          let none_waits = closes-pending (run new_peer es) reads in
          (none_waits, omega (arith, same, rw none_waits at closed)),
    )
