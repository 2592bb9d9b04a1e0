-- ===== src/Iec/Load/Serve.antt =====
-- A LOAD against a server that sends a file block by block (c64iec.ino, tftp.cpp).
use c64iec.Base.{
  ℕ, ◌+◌, ◌≤◌, ◌<◌, ◌≡◌, ◌≢◌, ◌⊎◌, refl, ap, ap₂, ◌∙◌, true, false, not, some, List, [], ◌∷◌, ◌++◌,
  arith, Memory, slice, pushed, slice-append, slice_ext, if◌then◌else◌, ◌==◌,
}
use c64iec.Tftp.{Tftp, Datagram, packet_srvport, tftp_data, get_block}
use c64iec.Tftp.Wire.{datagram, ack_bytes}
use c64iec.Tftp.Download.{
  Carries, recv_packet-data, received, fetched, delivered, slice-delivered, get_block-received,
  get_block-stale,
}
use native.Mathlib.Nat.{zero-add}
use c64iec.Iec.Drive.{Arrival, Drive, ethernet_probe_for_packet}
use c64iec.Iec.Load.{Vars, emit, carry, send_loop}
use c64iec.Iec.Load.Emit.{logged, eoi_calls}

-- The arrivals bring `file` from block b on, in order: probes that find no packet, repetitions of
-- the block before, whole blocks of 256 bytes, and a shorter last block.
pub data Serves : ℕ → List ℕ → List Arrival → Type 0 where
  idle :
      {b : ℕ} {file : List ℕ} {later : List Arrival} (a : Arrival)
      → a.plen ≡ 0
      → Serves b file later
      → Serves b file (a ∷ later)
  repeated :
      {b : ℕ} {file : List ℕ} {later : List Arrival} (a : Arrival) (kind prev n : ℕ)
      → Carries a.ether a.plen kind prev n
      → 0 < prev
      → prev + 1 ≡ b
      → Serves b file later
      → Serves b file (a ∷ later)
  block :
      {b next : ℕ} {file rest : List ℕ} {later : List Arrival} (a : Arrival)
      → Carries a.ether a.plen tftp_data b 256
      → file ≡ slice a.ether.buffer 46 256 ++ rest
      → next ≡ b + 1
      → Serves next rest later
      → Serves b file (a ∷ later)
  last :
      {b : ℕ} {file : List ℕ} {later : List Arrival} (a : Arrival) (n : ℕ)
      → Carries a.ether a.plen tftp_data b n
      → n < 256
      → file ≡ slice a.ether.buffer 46 n
      → Serves b file (a ∷ later)

-- What the client answers to these: it acknowledges each block as it first comes, to the port that the
-- block comes from.
unfoldable pub answers :
    {b : ℕ} {file : List ℕ} {arrivals : List Arrival} → Serves b file arrivals → List Datagram
answers (Serves.idle a none_came s) = answers s
answers (Serves.repeated a kind prev n c pos e s) = answers s
answers {b} (Serves.block a c e next_b s) =
    datagram (ack_bytes b) (packet_srvport a.ether.buffer) ∷ answers s
answers {b} (Serves.last a n c short e) =
    datagram (ack_bytes b) (packet_srvport a.ether.buffer) ∷ []

-- The client waits for block b.
pub record Expects (t : Tftp) (b : ℕ) : Type 0 where
  pub active : t.request_in_progress ≡ 1
  pub fine : t.error ≡ 0
  pub open_end : t.end_of_data ≡ 0
  pub before :
      ((b ≡ 1) × (t.data_available ≡ 0) × (t.lastgot ≡ 0) × (t.lastblk ≢ 1))
      ⊎ ((t.lastgot + 1 ≡ b) × (t.lastblk + 1 ≡ b) × (0 < t.lastgot) × (t.blknum ≡ t.lastgot))

-- One round of the loop, by what tftp_get_block returns.
pub send_loop-round :
    (a : Arrival) (later : List Arrival) (d : Drive) (v : Vars) (t' : Tftp) (buf : Memory) (n : ℕ)
    → (ethernet_probe_for_packet a d.tftp).error ≡ 0
    → get_block (ethernet_probe_for_packet a d.tftp) d.iobuf v.iobuf_offset 0 ≡ (t', buf, n)
    → send_loop (a ∷ later) d v ≡ (
        if not (t'.request_in_progress == 1)
        then some (emit v n 1 (record d { tftp = t'; iobuf = buf }), 1)
        else send_loop later
            (if n == 0
              then record d { tftp = t'; iobuf = buf }
              else carry v (emit v n 0 (record d { tftp = t'; iobuf = buf })))
            (if n == 0 then v else record { at_start = 0; iobuf_offset = 1 }))
unfolding send_loop
send_loop-round a later d v t' buf n fine got =
    let z : ◌≡◌ {A = ℕ} (if not (v.at_start == 0) then 0 else 0) 0 = ground arith in
    let e : ((ethernet_probe_for_packet a d.tftp).error == 0) ≡ true = ground arith in
    rw (z, e, got) refl

-- An error that the client has noticed ends the loop at once.
pub send_loop-error :
    (a : Arrival) (later : List Arrival) (d : Drive) (v : Vars) (t : Tftp)
    → ethernet_probe_for_packet a d.tftp ≡ t
    → t.error ≢ 0
    → send_loop (a ∷ later) d v ≡ some (record d { tftp = t }, 0)
unfolding send_loop
send_loop-error a later d v t came bad =
    let e : (t.error == 0) ≡ false = ground arith in rw (came, e) refl

-- The loop ends with result 1, the calls for `file` behind those for the bytes that wait in the
-- buffer, no request in progress, and the messages sent.
abbrev pub Sends : List Arrival → Drive → Vars → List Datagram → List ℕ → Type 0
Sends arrivals d v sends file =
    (d' : Drive) × (send_loop arrivals d v ≡ some (d', 1))
    × (d'.puts ≡ logged (eoi_calls (slice d.iobuf 0 v.iobuf_offset ++ file)) d.puts)
    × (d'.tftp.request_in_progress ≡ 0)
    × (d'.tftp.sent ≡ pushed sends d.tftp.sent)

-- The bytes that wait, and behind them the block that has come.
pub slice-buffer :
    (eb m iobuf : Memory) (off n : ℕ)
    → slice (delivered eb m n iobuf off) 0 (off + n) ≡ slice iobuf 0 off ++ slice eb 46 n
slice-buffer eb m iobuf off n =
    slice-append (delivered eb m n iobuf off) 0 off n
    ∙ ap₂ ◌++◌ (untouched n) (
        ap (λ i. slice (delivered eb m n iobuf off) i n) (zero-add off)
        ∙ slice-delivered eb m n iobuf off)
  where
    untouched : (k : ℕ) → slice (delivered eb m k iobuf off) 0 off ≡ slice iobuf 0 off
    untouched k = slice_ext (delivered eb m k iobuf off) iobuf 0 0 off λ i lt. ground arith

-- A round that has nothing new leaves the rest of the arrivals to do the work.
pub send_loop-stale :
    (a : Arrival) (later : List Arrival) (d : Drive) (v : Vars) (t : Tftp)
    (sends sends' : List Datagram) (file : List ℕ)
    → ethernet_probe_for_packet a d.tftp ≡ t
    → pushed sends t.sent ≡ pushed sends' d.tftp.sent
    → t.error ≡ 0
    → t.request_in_progress ≡ 1
    → ((t.data_available ≡ 0) × (t.end_of_data ≡ 0)) ⊎ ((t.lastgot ≢ 0) × (t.blknum ≤ t.lastgot))
    → Sends later (record d { tftp = t }) v sends file
    → Sends (a ∷ later) d v sends' file
send_loop-stale a later d v t sends sends' file came log fine active stale
      (d', run, puts, ended, sent) =
    (d', step ∙ run, puts, ended, sent ∙ log)
  where
    step : send_loop (a ∷ later) d v ≡ send_loop later (record d { tftp = t }) v
    step =
        send_loop-round a later d v t d.iobuf 0 (rw came fine)
          (rw came (get_block-stale t d.iobuf v.iobuf_offset 0 stale))
        ∙ (let e : (t.request_in_progress == 1) ≡ true = ground arith in rw e refl)

-- What tftp_get_block returns for a block that the client waits for.
pub got_block :
    (a : Arrival) (d : Drive) (off b n : ℕ)
    → Carries a.ether a.plen tftp_data b n
    → Expects d.tftp b
    → n ≤ 256
    → get_block (ethernet_probe_for_packet a d.tftp) d.iobuf off 0 ≡ (
      fetched (received d.tftp a.ether b n),
      delivered a.ether.buffer d.tftp.tftpdata n d.iobuf off,
      n,
    )
got_block a d off b n c w small =
    unfold ethernet_probe_for_packet in
    get_block-received d.tftp a.ether a.plen b n d.iobuf off c w.active (ground arith)
      (ground arith) w.open_end small

pub probe_fine :
    (a : Arrival) (d : Drive) (b n : ℕ)
    → Carries a.ether a.plen tftp_data b n
    → Expects d.tftp b
    → n ≤ 256
    → (ethernet_probe_for_packet a d.tftp).error ≡ 0
unfolding ethernet_probe_for_packet
probe_fine a d b n c w small =
    ap (λ r. r.0.error) (recv_packet-data d.tftp a.ether a.plen b n c w.active (ground arith) small)
    ∙ w.fine
