-- ===== src/Tftp/Upload.antt =====
-- Sending data: the acknowledgement side of tftp_recv_packet, and tftp_put_block (tftp.cpp).
use c64iec.Base.{
  ℕ, Bool-cases, inl, inr, zero, suc, ◌+◌, ◌≤◌, ◌≡◌, ◌≢◌, ◌⊎◌, refl, true, none, ◌∷◌, ◌∙◌, ap,
  arith, Memory, write, copy, slice, u8, u16, high, if◌then◌else◌, ◌==◌, ltb, ◌||◌,
}
use c64iec.Tftp.{
  Ether, Tftp, tftp_wrq, tftp_ack, tftp_optack, packet_srvport, recv_packet, put_block, dispatch,
}
use c64iec.Tftp.Wire.{datagram, data_bytes, slice-data}
use c64iec.Tftp.Download.{Carries, noted, recv_packet-new}

-- The block that the server has acknowledged: an option acknowledgement stands for block 0.
abbrev pub acked : ℕ → ℕ → ℕ
acked kind b = if kind == tftp_optack then 0 else b

abbrev pub acknowledged : Tftp → Ether → ℕ → ℕ → Tftp
acknowledged t e kind b = record t {
  blknum = acked kind b;
  srvport = packet_srvport e.buffer;
  lastblk = b;
  clear_to_send = 1;
}

pub recv_packet-acknowledged :
    (t : Tftp) (e : Ether) (plen kind b n : ℕ)
    → (kind ≡ tftp_ack) ⊎ (kind ≡ tftp_optack)
    → Carries e plen kind b n
    → t.request_in_progress ≡ tftp_wrq
    → t.lastblk ≢ b
    → recv_packet t e plen ≡ (acknowledged t e kind b, none)
recv_packet-acknowledged t e plen kind b n which c busy new =
    recv_packet-new t e plen kind b n c new ∙ ap (λ t'. (t', none)) step
  where
    step : dispatch (noted t e) e.buffer ≡ acknowledged t e kind b
    step = unfold dispatch in ground arith

slice-put :
    (b : ℕ) (from m : Memory) (n : ℕ)
    → slice
        (write 3
          (u8 b)
          (write 2 (high b) (write 1 3 (write 0 0 (if ltb 0 n then copy 4 from 0 n m else m)))))
        0
        (n + 4)
      ≡ data_bytes b (slice from 0 n)
slice-put b from m zero = unfold slice in refl
slice-put b from m (suc k) =
    let to_copy : ltb 0 (suc k) ≡ true = ground arith in rw to_copy (slice-data b from m (suc k))

put_block-sent :
    (t : Tftp) (from : Memory) (n : ℕ)
    → n ≤ 256
    → t.clear_to_send ≢ 0
    → (put_block t from n).0.sent
      ≡ datagram (data_bytes (u16 (t.blknum + 1)) (slice from 0 n)) t.srvport ∷ t.sent
unfolding put_block
put_block-sent t from n small clear =
    let e : u16 (n + 4) ≡ n + 4 = omega arith in
    let b = u16 (t.blknum + 1) in ground (arith, e, slice-put b from t.tftpdata n)

-- A call of tftp_put_block for the n ≤ 256 bytes of the caller's buffer, on both branches. Once the
-- server has acknowledged a block b, it sends one datagram to the server's port, the DATA block
-- b + 1 modulo 2^16 with exactly those bytes, returns 1 and ends the request unless n is 256.
-- Before that it sends nothing, returns 0 and leaves the request. After the call the client waits
-- for an acknowledgement in both cases.
pub put_block-branches :
    (t : Tftp) (from : Memory) (n : ℕ)
    → n ≤ 256
    → let r = put_block t from n in
      (r.0.sent ≡ (
        if t.clear_to_send == 0
        then t.sent
        else datagram (data_bytes (u16 (t.blknum + 1)) (slice from 0 n)) t.srvport ∷ t.sent))
      × (r.1 ≡ (if t.clear_to_send == 0 then 0 else 1))
      × (r.0.clear_to_send ≡ 0)
      × (r.0.request_in_progress
          ≡ (if t.clear_to_send == 0 || n == 256 then t.request_in_progress else 0))
put_block-branches t from n small = elim (Bool-cases (t.clear_to_send == 0)) [
  | inl held ↦ unfold put_block in rw held (refl, refl, ground arith, refl)
  | inr clear ↦ rw clear (
    put_block-sent t from n small (ground arith),
    unfold put_block in ground arith,
    unfold put_block in ground arith,
    unfold put_block in ground arith,
  )
]

pub put_block-held :
    (t : Tftp) (from : Memory) (n : ℕ) → t.clear_to_send ≡ 0 → put_block t from n ≡ (t, 0)
unfolding put_block
put_block-held t from n held = ground arith

pub put_block-goes :
    (t : Tftp) (from : Memory) (n : ℕ) → t.clear_to_send ≢ 0 → (put_block t from n).1 ≡ 1
unfolding put_block
put_block-goes t from n clear = ground arith

pub put_block-keeps :
    (t : Tftp) (from : Memory) (n : ℕ)
    → ((put_block t from n).0.lastblk ≡ t.lastblk) × ((put_block t from n).0.error ≡ t.error)
unfolding put_block
put_block-keeps t from n = ground arith
