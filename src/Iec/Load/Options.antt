-- ===== src/Iec/Load/Options.antt =====
-- The start of a LOAD: a server that knows the options of the request answers them first (c64iec.ino,
-- tftp.cpp).
use c64iec.Base.{pushed, ℕ, ◌-◌, ◌+◌, ◌≤◌, ◌<◌, ◌≡◌, inl, refl, ap, ◌∙◌, List, ◌∷◌, arith, length}
use c64iec.Tftp.{Tftp, Datagram, tftp_optack, packet_srvport, send_ack}
use c64iec.Tftp.Wire.{datagram, ack_bytes}
use c64iec.Tftp.Download.{Carries, noted, send_ack_lem, send_ack-keeps}
use c64iec.Tftp.Guards.{recv_packet-options, recv_packet-foreign}
use c64iec.Iec.Drive.{Arrival, Drive, ethernet_probe_for_packet}
use c64iec.Iec.Load.{Vars}
use c64iec.Iec.Load.Serve.{Serves, answers, Expects, Sends, send_loop-stale}
use c64iec.Iec.Load.Complete.{send_loop-Serves}

-- The arrivals bring `file`: its blocks at once, or an OACK and then its blocks. Probes that find no
-- packet may come before.
pub data Delivers : List ℕ → List Arrival → Type 0 where
  direct :
      {file : List ℕ} {arrivals : List Arrival} → Serves 1 file arrivals → Delivers file arrivals
  quiet :
      {file : List ℕ} {later : List Arrival} (a : Arrival)
      → a.plen ≡ 0
      → Delivers file later
      → Delivers file (a ∷ later)
  options :
      {file : List ℕ} {later : List Arrival} (a : Arrival) (n : ℕ)
      → Carries a.ether a.plen tftp_optack 0 n
      → Serves 1 file later
      → Delivers file (a ∷ later)

-- What the client answers: block 0 for the options, and the blocks.
unfoldable pub all_answers :
    {file : List ℕ} {arrivals : List Arrival} → Delivers file arrivals → List Datagram
unfolding answers
all_answers (Delivers.direct s) = answers s
all_answers (Delivers.quiet a none_came s) = all_answers s
all_answers (Delivers.options a n c s) =
    datagram (ack_bytes 0) (packet_srvport a.ether.buffer) ∷ answers s

-- The client when its request is out and nothing has come.
pub record Fresh (t : Tftp) : Type 0 where
  pub expects : Expects t 1
  pub no_data : t.data_available ≡ 0
  pub none_before : t.lastblk ≡ 65535

-- The client behind an OACK.
module _ (t : Tftp) (a : Arrival) (f : Fresh t) where
  abbrev agreed : Tftp
  agreed = send_ack (noted t a.ether) (packet_srvport a.ether.buffer) 0

  agreed-sent : agreed.sent ≡ datagram (ack_bytes 0) (packet_srvport a.ether.buffer) ∷ t.sent
  agreed-sent = send_ack_lem (noted t a.ether) (packet_srvport a.ether.buffer) 0

  agreed-Expects : (n : ℕ) → Carries a.ether a.plen tftp_optack 0 n → Expects agreed 1
  agreed-Expects n c =
      ground
        (arith, f, f.expects, c, send_ack-keeps (noted t a.ether) (packet_srvport a.ether.buffer) 0)

  agreed-empty : (agreed.data_available ≡ 0) × (agreed.end_of_data ≡ 0)
  agreed-empty =
      let kept = send_ack-keeps (noted t a.ether) (packet_srvport a.ether.buffer) 0 in
      (kept.3 ∙ f.no_data, kept.2 ∙ f.expects.open_end)

  came : (n : ℕ) → Carries a.ether a.plen tftp_optack 0 n → ethernet_probe_for_packet a t ≡ agreed
  unfolding ethernet_probe_for_packet
  came n c =
      ap (λ r. r.0)
        (recv_packet-options t a.ether a.plen n c f.expects.active (ground (arith, f.none_before)))

pub send_loop-Delivers :
    {file : List ℕ} {arrivals : List Arrival} (s : Delivers file arrivals) (d : Drive) (v : Vars)
    → Fresh d.tftp
    → v.iobuf_offset ≤ 1
    → v.at_start ≡ 1 - v.iobuf_offset
    → 0 < v.iobuf_offset + length file
    → Sends arrivals d v (all_answers s) file
unfolding all_answers
send_loop-Delivers (Delivers.direct s) d v f off start some_bytes =
    send_loop-Serves s d v f.expects off start some_bytes
send_loop-Delivers {file = file} (Delivers.quiet {later = later} a none_came s) d v f off start
      some_bytes =
    send_loop-stale a later d v d.tftp (all_answers s) (all_answers s) file
      (unfold ethernet_probe_for_packet in
        recv_packet-foreign d.tftp a.ether a.plen (inl none_came))
      refl f.expects.fine f.expects.active (inl (f.no_data, f.expects.open_end))
      (send_loop-Delivers s d v f off start some_bytes)
send_loop-Delivers {file = file} (Delivers.options {later = later} a n c s) d v f off start
      some_bytes =
    let w = agreed-Expects d.tftp a f n c in
    let log = ap (pushed (answers s)) (agreed-sent d.tftp a f) in
    let d1 = record d { tftp = agreed d.tftp a f } in
    send_loop-stale a later d v d1.tftp (answers s)
      (datagram (ack_bytes 0) (packet_srvport a.ether.buffer) ∷ answers s) file
      (came d.tftp a f n c) (unfold pushed in log) w.fine w.active (inl (agreed-empty d.tftp a f))
      (send_loop-Serves s d1 v w off start some_bytes)
