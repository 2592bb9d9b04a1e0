-- ===== src/Iec/Save/Wait.antt =====
-- Waiting for the server during a SAVE (c64iec.ino, tftp.cpp).
use c64iec.Base.{
  ℕ, ◌+◌, ◌≤◌, ◌≡◌, ◌≢◌, ◌⊎◌, inl, refl, ap, ap₂, ◌∙◌, false, none, some, List, [], ◌∷◌, arith,
  Memory, slice, ◌==◌, if◌then◌else◌, u16,
}
use c64iec.Tftp.{Tftp, tftp_wrq, tftp_ack, tftp_optack, put_block, packet_srvport}
use c64iec.Tftp.Wire.{datagram, data_bytes}
use c64iec.Tftp.Download.{Carries}
use c64iec.Tftp.Upload.{
  put_block-branches, put_block-held, put_block-goes, put_block-keeps, recv_packet-acknowledged,
  acknowledged, acked,
}
use c64iec.Tftp.Guards.{recv_packet-foreign, recv_packet-held}
use c64iec.Iec.Drive.{Arrival, ethernet_probe_for_packet}
use c64iec.Iec.Save.{put_wait}

-- Probes that find nothing, and then an acknowledgement of block `b` from `port` whose number is not
-- `seen`; `later` is left, and `number` is the acknowledgement's.
pub data Acked (seen b port number : ℕ) (later : List Arrival) : List Arrival → Type 0 where
  wait :
      {arrivals : List Arrival} (a : Arrival)
      → a.plen ≡ 0
      → Acked seen b port number later arrivals
      → Acked seen b port number later (a ∷ arrivals)
  now :
      (a : Arrival) (kind n : ℕ)
      → seen ≢ number
      → (kind ≡ tftp_ack) ⊎ (kind ≡ tftp_optack)
      → Carries a.ether a.plen kind number n
      → acked kind number ≡ b
      → packet_srvport a.ether.buffer ≡ port
      → Acked seen b port number later (a ∷ later)

-- The round of put_wait while the client may not send.
put_wait-held :
    (a : Arrival) (later : List Arrival) (t : Tftp) (m : Memory) (n : ℕ)
    → t.clear_to_send ≡ 0
    → put_wait (a ∷ later) t m n ≡ put_wait later (ethernet_probe_for_packet a t) m n
unfolding put_wait
put_wait-held a later t m n held = rw (put_block-held t m n held) refl

put_wait-sends :
    (arrivals : List Arrival) (t : Tftp) (m : Memory) (n : ℕ)
    → t.clear_to_send ≢ 0
    → put_wait arrivals t m n ≡ some ((put_block t m n).0, arrivals)
unfolding put_wait
put_wait-sends [] t m n clear = let e = put_block-goes t m n clear in rw e refl
put_wait-sends (a ∷ later) t m n clear = let e = put_block-goes t m n clear in rw e refl

-- Once a write request is over while a block waits, say since the server sent an ERROR packet, the
-- loop that waits in recv_file never ends: no packets whatever make tftp_put_block succeed.
pub put_wait-stuck :
    (arrivals : List Arrival) (t : Tftp) (m : Memory) (n : ℕ)
    → t.request_in_progress ≢ tftp_wrq
    → t.clear_to_send ≡ 0
    → put_wait arrivals t m n ≡ none
put_wait-stuck [] t m n stopped held = unfold put_wait in rw (put_block-held t m n held) refl
put_wait-stuck (a ∷ later) t m n stopped held =
    let (stopped', held') = recv_packet-held t a.ether a.plen stopped held in
    put_wait-held a later t m n held
    ∙ put_wait-stuck later (ethernet_probe_for_packet a t) m n
        (unfold ethernet_probe_for_packet in stopped') (unfold ethernet_probe_for_packet in held')

-- A block of n ≤ 256 bytes that waits is sent when the acknowledgement of block b arrives during a
-- write request, behind any number of empty probes: the loop ends, exactly the arrivals behind the
-- acknowledgement are left, and one datagram went out, the DATA block b + 1 modulo 2^16 with the
-- bytes of the buffer, to the port that acknowledged. The request goes on exactly when n is 256.
pub put_wait-Acked :
    (later : List Arrival) (t : Tftp) (m : Memory) (n b port number : ℕ) {arrivals : List Arrival}
    → Acked t.lastblk b port number later arrivals
    → n ≤ 256
    → t.request_in_progress ≡ tftp_wrq
    → t.clear_to_send ≡ 0
    → (t' : Tftp) × (put_wait arrivals t m n ≡ some (t', later))
      × (t'.sent ≡ datagram (data_bytes (u16 (b + 1)) (slice m 0 n)) port ∷ t.sent)
      × (t'.request_in_progress ≡ (if n == 256 then tftp_wrq else 0))
      × (t'.clear_to_send ≡ 0)
      × (t'.lastblk ≡ number)
      × (t'.error ≡ t.error)
put_wait-Acked later t m n b port number (wait {arrivals = arrivals} a none_came s) small busy
      held =
    let same : ethernet_probe_for_packet a t ≡ t =
      unfold ethernet_probe_for_packet in recv_packet-foreign t a.ether a.plen (inl none_came) in
    let (t', run, sent, active, clear, seen, fine) =
      put_wait-Acked later t m n b port number s small busy held in
    (
      t',
      put_wait-held a arrivals t m n held ∙ (ap (λ k. put_wait arrivals k m n) same ∙ run),
      sent,
      active,
      clear,
      seen,
      fine,
    )
put_wait-Acked later t m n b port number (now a kind size new which c e from) small busy held =
    let k = acknowledged t a.ether kind number in
    let got : ethernet_probe_for_packet a t ≡ k =
      unfold ethernet_probe_for_packet in
      ap (λ r. r.0) (recv_packet-acknowledged t a.ether a.plen kind number size which c busy new) in
    let goes : (k.clear_to_send == 0) ≡ false = refl in
    let (sent, one, clear, active) = put_block-branches k m n small in
    let (seen, fine) = put_block-keeps k m n in
    (
      (put_block k m n).0,
      put_wait-held a later t m n held
          ∙ (ap (λ k'. put_wait later k' m n) got ∙ put_wait-sends later k m n (omega arith)),
      sent ∙ ap₂ (λ x p. datagram (data_bytes (u16 (x + 1)) (slice m 0 n)) p ∷ t.sent) e from,
      ground arith,
      clear,
      seen,
      fine,
    )
