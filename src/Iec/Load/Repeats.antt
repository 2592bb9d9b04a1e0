-- ===== src/Iec/Load/Repeats.antt =====
-- What send_file does with a block that the server repeats (c64iec.ino, tftp.cpp).
use c64iec.Base.{
  ℕ, ◌+◌, ◌<◌, ◌≡◌, ◌⊎◌, inl, inr, refl, sym, subst, ap, ◌∙◌, true, none, List, [], ◌∷◌, ◌++◌, All,
  arith, ◌==◌,
}
use c64iec.Tftp.{Tftp}
use c64iec.Tftp.Download.{Carries, get_block-stale}
use c64iec.Tftp.Guards.{recv_packet-foreign, recv_packet-repeated}
use c64iec.Iec.Drive.{Arrival, Drive, ethernet_probe_for_packet}
use c64iec.Iec.Load.{Vars, send_loop}
use c64iec.Iec.Load.Serve.{Expects, send_loop-round}

-- A probe that finds no packet, or one with the number of block b, as a server sends it again when it
-- gets no acknowledgement.
abbrev pub IsRepeat : ℕ → Arrival → Type 0
IsRepeat b a = (a.plen ≡ 0) ⊎ ((kind : ℕ) × (n : ℕ) × Carries a.ether a.plen kind b n)

-- The client has sent nothing and still waits for the block behind b.
pub record Unmoved (b : ℕ) (t u : Tftp) : Type 0 where
  pub sent : u.sent ≡ t.sent
  pub expects : Expects u (b + 1)

probe-Unmoved :
    (b : ℕ) (a : Arrival) (t : Tftp)
    → 0 < b
    → IsRepeat b a
    → Expects t (b + 1)
    → Unmoved b t (ethernet_probe_for_packet a t)
unfolding ethernet_probe_for_packet
probe-Unmoved b a t pos (inl none_came) w =
    subst (Unmoved b t) (sym (recv_packet-foreign t a.ether a.plen (inl none_came)))
      (record { sent = refl; expects = w })
probe-Unmoved b a t pos (inr (kind, n, c)) w =
    let same : t.lastblk ≡ b = ground (arith, w.before) in
    subst (Unmoved b t)
      (sym (ap (λ r. r.0) (recv_packet-repeated t a.ether a.plen kind b n c same)))
      (record { sent = refl; expects = ground (arith, w) })

send_loop-again :
    (b : ℕ) (a : Arrival) (later : List Arrival) (d : Drive) (v : Vars)
    → 0 < b
    → Expects (ethernet_probe_for_packet a d.tftp) (b + 1)
    → send_loop (a ∷ later) d v
      ≡ send_loop later (record d { tftp = ethernet_probe_for_packet a d.tftp }) v
send_loop-again b a later d v pos w =
    let t = ethernet_probe_for_packet a d.tftp in
    let active : (t.request_in_progress == 1) ≡ true = ground (arith, w.active) in
    send_loop-round a later d v t d.iobuf 0 w.fine
      (get_block-stale t d.iobuf v.iobuf_offset 0 (ground (arith, w.before, w.open_end)))
    ∙ rw active refl

-- While the client waits for the block behind block b, which it has fetched, any number of packets
-- with the number of block b, as a server repeats them when the acknowledgement is lost, and of probes
-- that find no packet make the loop of send_file go round without sending anything: it takes what
-- comes behind them in a state that still waits for the same block, with the same messages sent, and
-- while nothing else comes it does not end.
pub send_loop-repeated :
    (b : ℕ) (repeats later : List Arrival) (d : Drive) (v : Vars)
    → 0 < b
    → Expects d.tftp (b + 1)
    → All (IsRepeat b) repeats
    → (send_loop repeats d v ≡ none)
      × ((t : Tftp) × Unmoved b d.tftp t
          × (send_loop (repeats ++ later) d v ≡ send_loop later (record d { tftp = t }) v))
unfolding send_loop
send_loop-repeated b [] later d v pos w again =
    (refl, (d.tftp, record { sent = refl; expects = w }, refl))
send_loop-repeated b (a ∷ repeats) later d v pos w again =
    let t = ethernet_probe_for_packet a d.tftp in
    let one = probe-Unmoved b a d.tftp pos again.0 w in
    let (ended, (u, rest, runs)) =
      send_loop-repeated b repeats later (record d { tftp = t }) v pos one.expects again.1 in
    (
      send_loop-again b a repeats d v pos one.expects ∙ ended,
      (
        u,
        record { sent = rest.sent ∙ one.sent; expects = rest.expects },
        send_loop-again b a (repeats ++ later) d v pos one.expects ∙ runs,
      ),
    )
