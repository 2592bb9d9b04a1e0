-- ===== src/Tftp/Download.antt =====
-- Receiving data: tftp_recv_packet and tftp_get_block (tftp.cpp).
use c64iec.Base.{
  ℕ, zero, suc, ap, sub16, ◌∙◌, u16, ◌+◌, ◌≤◌, ◌<◌, ◌≡◌, ◌≢◌, ◌⊎◌, refl, true, false, none, ◌∷◌,
  arith, Memory, copy, slice, slice-copy, if◌then◌else◌, ◌==◌, ltb,
}
use c64iec.Tftp.{
  Ether, Tftp, srcport, tftp_rrq, tftp_data, packet_blknum, packet_type, packet_datasize,
  packet_srvport, packet_dstport, send_ack, recv_packet, get_block, dispatch,
}
use c64iec.Tftp.Wire.{datagram, ack_bytes, slice-ack}

-- A received frame that passes the guards of tftp_recv_packet, with its type, its block number and
-- its data size.
pub record Carries (e : Ether) (plen kind blk n : ℕ) : Type 0 where
  pub arrived : 0 < plen
  pub mine : e.is_my_ip plen ≡ true
  pub udp : e.buffer 23 ≡ 17
  pub port : packet_dstport e.buffer ≡ srcport
  pub of_kind : packet_type e.buffer ≡ kind
  pub of_block : packet_blknum e.buffer ≡ blk
  pub of_size : packet_datasize e.buffer ≡ n

pub send_ack_lem :
    (t : Tftp) (port n : ℕ) → ((send_ack t port n).sent ≡ datagram (ack_bytes n) port ∷ t.sent)
unfolding send_ack
send_ack_lem t port n = ap (λ bs. datagram bs port ∷ t.sent) (slice-ack n t.tftpdata)

-- The globals after the packet's block number and source port have been noted.
abbrev pub noted : Tftp → Ether → Tftp
noted t e = record t {
  blknum = packet_blknum e.buffer;
  srvport = packet_srvport e.buffer;
  lastblk = packet_blknum e.buffer;
}

pub recv_packet-new :
    (t : Tftp) (e : Ether) (plen kind b n : ℕ)
    → Carries e plen kind b n
    → t.lastblk ≢ b
    → recv_packet t e plen ≡ (dispatch (noted t e) e.buffer, none)
unfolding recv_packet
recv_packet-new t e plen kind b n c new = ground arith

-- The globals after a DATA packet of n bytes that is block b.
abbrev pub received : Tftp → Ether → ℕ → ℕ → Tftp
received t e b n = record t {
  blknum = b;
  srvport = packet_srvport e.buffer;
  lastblk = b;
  filesize = u16 (t.filesize + n);
  tftpdata = if ltb 0 n then copy 0 e.buffer 46 n t.tftpdata else t.tftpdata;
  data_available = n;
  end_of_data = if n == 256 then t.end_of_data else 1;
}

pub recv_packet-data :
    (t : Tftp) (e : Ether) (plen b n : ℕ)
    → Carries e plen tftp_data b n
    → t.request_in_progress ≡ tftp_rrq
    → t.lastblk ≢ b
    → n ≤ 256
    → recv_packet t e plen ≡ (received t e b n, none)
recv_packet-data t e plen b n c busy new small =
    recv_packet-new t e plen tftp_data b n c new ∙ ap (λ t'. (t', none)) step
  where
    step : dispatch (noted t e) e.buffer ≡ received t e b n
    step = unfold dispatch in ground arith

-- What the receive buffer and the state are after a block of n bytes has been fetched.
abbrev pub fetched : Tftp → Tftp
fetched t = record (send_ack (record t { lastgot = t.blknum }) t.srvport t.blknum) {
  request_in_progress = if t.end_of_data == 0 then t.request_in_progress else 0;
}

pub get_block-fresh :
    (t : Tftp) (to : Memory) (at : ℕ)
    → (0 < t.data_available) ⊎ (t.end_of_data ≡ 1)
    → (t.lastgot ≡ 0) ⊎ (t.lastgot < t.blknum)
    → t.data_available ≤ 256
    → get_block t to at 0 ≡ (
      fetched t,
      if t.data_available == 0 then to else copy at t.tftpdata 0 t.data_available to,
      t.data_available,
    )
unfolding get_block
get_block-fresh t to at some_data fresh small =
    let e : sub16 t.data_available 0 ≡ t.data_available = omega arith in rw e (ground arith)

-- tftp_get_block has nothing to hand over and acknowledges nothing: no block has come, or the
-- current one has been fetched.
pub get_block-stale :
    (t : Tftp) (to : Memory) (at offset : ℕ)
    → ((t.data_available ≡ 0) × (t.end_of_data ≡ 0)) ⊎ ((t.lastgot ≢ 0) × (t.blknum ≤ t.lastgot))
    → get_block t to at offset ≡ (t, to, 0)
unfolding get_block
get_block-stale t to at offset h = ground arith

-- The caller's buffer after both copies, of the packet to tftpdata and from there to the buffer.
abbrev pub delivered : Memory → Memory → ℕ → Memory → ℕ → Memory
delivered buffer m n to at =
    if n == 0 then to else copy at (if ltb 0 n then copy 0 buffer 46 n m else m) 0 n to

pub slice-delivered :
    (buffer m : Memory) (n : ℕ) (to : Memory) (at : ℕ)
    → slice (delivered buffer m n to at) at n ≡ slice buffer 46 n
slice-delivered buffer m zero to at = unfold slice in refl
slice-delivered buffer m (suc k) to at =
    let some_data : (suc k == 0) ≡ false = ground arith in
    let to_copy : ltb 0 (suc k) ≡ true = ground arith in
    rw (some_data, to_copy)
      (slice-copy at (copy 0 buffer 46 (suc k) m) 0 (suc k) to ∙ slice-copy 0 buffer 46 (suc k) m)

-- The two calls in a row.
pub get_block-received :
    (t : Tftp) (e : Ether) (plen b n : ℕ) (to : Memory) (at : ℕ)
    → Carries e plen tftp_data b n
    → t.request_in_progress ≡ tftp_rrq
    → t.lastblk ≢ b
    → (t.lastgot ≡ 0) ⊎ (t.lastgot < b)
    → t.end_of_data ≡ 0
    → n ≤ 256
    → get_block (recv_packet t e plen).0 to at 0
      ≡ (fetched (received t e b n), delivered e.buffer t.tftpdata n to at, n)
get_block-received t e plen b n to at c busy new fresh open_end small =
    rw (recv_packet-data t e plen b n c busy new small)
      (get_block-fresh (received t e b n) to at (ground arith) fresh small)

-- When a DATA packet with a new block b of n ≤ 256 bytes, above the last one fetched or with none
-- fetched yet, passes the guards of tftp_recv_packet during a read request in which the end of the
-- data has not come yet (end_of_data is 0), then tftp_get_block at offset 0 writes exactly the
-- packet's n bytes to the buffer and returns n; it sends one datagram, the acknowledgement of b, to
-- the packet's source port; and the request ends exactly when n is not 256.
pub get_block-recv_packet :
    (t : Tftp) (e : Ether) (plen b n : ℕ) (to : Memory) (at : ℕ)
    → Carries e plen tftp_data b n
    → t.request_in_progress ≡ tftp_rrq
    → t.lastblk ≢ b
    → (t.lastgot ≡ 0) ⊎ (t.lastgot < b)
    → t.end_of_data ≡ 0
    → n ≤ 256
    → let r = get_block (recv_packet t e plen).0 to at 0 in
      (slice r.1 at n ≡ slice e.buffer 46 n)
      × (r.2 ≡ n)
      × (r.0.sent ≡ datagram (ack_bytes b) (packet_srvport e.buffer) ∷ t.sent)
      × (r.0.request_in_progress ≡ (if n == 256 then tftp_rrq else 0))
get_block-recv_packet t e plen b n to at c busy new fresh open_end small =
    let whole = get_block-received t e plen b n to at c busy new fresh open_end small in
    rw whole (
      slice-delivered e.buffer t.tftpdata n to at,
      refl,
      unfold send_ack in
          send_ack_lem (record (received t e b n) { lastgot = b }) (packet_srvport e.buffer) b,
      ground arith,
    )

-- The fields that the next round reads.
pub fetched_lem :
    (t : Tftp)
    → ((fetched t).request_in_progress ≡ (if t.end_of_data == 0 then t.request_in_progress else 0))
      × ((fetched t).error ≡ t.error)
      × ((fetched t).end_of_data ≡ t.end_of_data)
      × ((fetched t).lastgot ≡ t.blknum)
      × ((fetched t).lastblk ≡ t.lastblk)
      × ((fetched t).blknum ≡ t.blknum)
unfolding send_ack
fetched_lem t = (refl, refl, refl, refl, refl, refl)

-- Fetching a block acknowledges it, to the port that it came from.
pub fetched-sent : (t : Tftp) → (fetched t).sent ≡ datagram (ack_bytes t.blknum) t.srvport ∷ t.sent
fetched-sent t = send_ack_lem (record t { lastgot = t.blknum }) t.srvport t.blknum

-- An acknowledgement leaves the flags and the block numbers alone.
pub send_ack-keeps :
    (t : Tftp) (port n : ℕ)
    → ((send_ack t port n).request_in_progress ≡ t.request_in_progress)
      × ((send_ack t port n).error ≡ t.error)
      × ((send_ack t port n).end_of_data ≡ t.end_of_data)
      × ((send_ack t port n).data_available ≡ t.data_available)
      × ((send_ack t port n).lastgot ≡ t.lastgot)
      × ((send_ack t port n).lastblk ≡ t.lastblk)
unfolding send_ack
send_ack-keeps t port n = (refl, refl, refl, refl, refl, refl)
