-- ===== src/InProcess/Partition.antt =====
-- A node that is cut off from the network of src/transport.rs, and its return.
use horsie_actor.Base.{
  ℕ, ◌≡◌, refl, Bool, true, false, ◌||◌, none, some, err, ◌==◌, ==_refl, nat_eq, nat_beq_iff,
  if◌then◌else◌, arith, Option-cases, inl, inr,
}
use horsie_actor.Map.{get, remove, get-remove, get-insert, get-insert_self}
use horsie_actor.Delivery.{Message}
use horsie_actor.Node.Sending.{unreachable}
use horsie_actor.InProcess.{InProcessNetwork, detach, restore, contains, mailboxes, send}

detach-get :
    (net : InProcessNetwork) (id n : ℕ)
    → get (detach net id).nodes n ≡ (if id == n then none else get net.nodes n)
unfolding detach
detach-get net id n = elim (Option-cases (get net.nodes id)) [
  | inl e ↦ ground (arith, e, nat_beq_iff id n)
  | inr (inbox, e) ↦ ground (arith, e, get-remove net.nodes id n)
]

-- What `restore` puts back.
restore-detach-get :
    (net : InProcessNetwork) (id n inbox : ℕ)
    → get net.nodes id ≡ some inbox
    → get (restore (detach net id) id).nodes n ≡ get net.nodes n
unfolding detach restore
restore-detach-get net id n inbox e =
    let aside = get-insert_self net.detached id inbox in
    ground (
      arith,
      e,
      aside,
      get-insert (remove net.nodes id) id n inbox,
      get-remove net.nodes id n,
      nat_beq_iff id n,
    )

mailboxes-same :
    (a b : InProcessNetwork) (local to : ℕ)
    → get a.nodes local ≡ get b.nodes local
    → get a.nodes to ≡ get b.nodes to
    → mailboxes a local to ≡ mailboxes b local to
unfolding mailboxes
mailboxes-same a b local to f t = rw (mailboxes, f, t) refl

cut_off :
    (net : InProcessNetwork) (id local to : ℕ)
    → (local == id) || (to == id) ≡ true
    → mailboxes (detach net id) local to ≡ err (unreachable to)
unfolding mailboxes
cut_off net id local to h = ground (
  arith,
  h,
  detach-get net id local,
  detach-get net id to,
  nat_beq_iff local id,
  nat_beq_iff to id,
  nat_beq_iff id local,
  nat_beq_iff id to,
)

-- Whoever is cut off is not in the network, reaches nobody and is reached by nobody, and a message from
-- it or to it is taken by no inbox; between two others everything is as it was.
pub detach-send :
    (is_open : ℕ → Bool) (net : InProcessNetwork) (id local to : ℕ) (message : Message)
    → (contains (detach net id) id ≡ false)
      × ((local == id) || (to == id) ≡ true
          → send is_open (detach net id) local to message ≡ (err (unreachable to), detach net id))
      × ((local == id) || (to == id) ≡ false
          → mailboxes (detach net id) local to ≡ mailboxes net local to)
unfolding contains send
detach-send is_open net id local to message = (
  rw (detach-get net id id, ==_refl id) refl,
  λ h. rw (send, cut_off net id local to h) refl,
  λ h.
      let from : get (detach net id).nodes local ≡ get net.nodes local =
        ground (arith, h, detach-get net id local, nat_beq_iff id local) in
      let there : get (detach net id).nodes to ≡ get net.nodes to =
        ground (arith, h, detach-get net id to, nat_beq_iff id to) in
      mailboxes-same (detach net id) net local to from there,
)

-- A node of the network that is cut off and joined again is where it was: everybody sends to the same
-- inboxes.
pub restore-detach :
    (net : InProcessNetwork) (id local to : ℕ)
    → contains net id ≡ true
    → mailboxes (restore (detach net id) id) local to ≡ mailboxes net local to
unfolding contains
restore-detach net id local to h = elim (Option-cases (get net.nodes id)) [
  | inl e ↦ absurd (ground (arith, h, e))
  | inr (inbox, e) ↦
      mailboxes-same (restore (detach net id) id) net local to
        (restore-detach-get net id local inbox e) (restore-detach-get net id to inbox e)
]
