-- ===== src/Consensus/Results.antt =====
-- Which replies of src/cluster/network.rs a success comes from.
use horsie_actor.Base.{◌≡◌, refl, Text, Result, ok, err, map_err, ◌>>=◌}
use horsie_actor.Consensus.{Reply, replied}
use horsie_actor.Consensus.PeerLink.{append_reply, vote_reply, snapshot_reply}

module _ {Appended Voted Installed : Type 0} where
  pub append_reply-ok :
      (reply : Reply Appended Voted Installed) (r : Appended)
      → append_reply reply ≡ ok r
      → reply ≡ Reply.append r
  append_reply-ok (Reply.append a) r h = cc
  append_reply-ok (Reply.failed e) r h = cc
  append_reply-ok (Reply.vote _) r h = cc
  append_reply-ok (Reply.snapshot _) r h = cc

  pub vote_reply-ok :
      (reply : Reply Appended Voted Installed) (r : Voted)
      → vote_reply reply ≡ ok r
      → reply ≡ Reply.vote r
  vote_reply-ok (Reply.vote a) r h = cc
  vote_reply-ok (Reply.failed e) r h = cc
  vote_reply-ok (Reply.append _) r h = cc
  vote_reply-ok (Reply.snapshot _) r h = cc

  pub snapshot_reply-ok :
      (reply : Reply Appended Voted Installed) (r : Installed)
      → snapshot_reply reply ≡ ok r
      → reply ≡ Reply.snapshot r
  snapshot_reply-ok (Reply.snapshot a) r h = cc
  snapshot_reply-ok (Reply.failed e) r h = cc
  snapshot_reply-ok (Reply.append _) r h = cc
  snapshot_reply-ok (Reply.vote _) r h = cc

  -- A result is what it was wrapped from.
  pub replied-append :
      (result : Result Text Appended) (r : Appended)
      → replied {R = Reply Appended Voted Installed} Reply.append Reply.failed result
        ≡ Reply.append r
      → result ≡ ok r
  replied-append (ok a) r h = cc
  replied-append (err e) r h = cc

  pub replied-vote :
      (result : Result Text Voted) (r : Voted)
      → replied {R = Reply Appended Voted Installed} Reply.vote Reply.failed result ≡ Reply.vote r
      → result ≡ ok r
  replied-vote (ok a) r h = cc
  replied-vote (err e) r h = cc

  pub replied-snapshot :
      (result : Result Text Installed) (r : Installed)
      → replied {R = Reply Appended Voted Installed} Reply.snapshot Reply.failed result
        ≡ Reply.snapshot r
      → result ≡ ok r
  replied-snapshot (ok a) r h = cc
  replied-snapshot (err e) r h = cc

pub bind-ok {ℓ κ μ} :
    {E : Type κ} {A : Type ℓ} {B : Type μ} (m : Result E A) (f : A → Result E B) (b : B)
    → (m >>= f) ≡ ok b
    → (a : A) × (m ≡ ok a) × (f a ≡ ok b)
bind-ok (ok a) f b h = (a, refl, h)
bind-ok (err e) f b h = cc

pub map_err-ok {ℓ κ μ} :
    {E : Type κ} {F : Type μ} {A : Type ℓ} (f : E → F) (m : Result E A) (a : A)
    → map_err f m ≡ ok a
    → m ≡ ok a
map_err-ok f (ok b) a h = cc
map_err-ok f (err e) a h = cc
