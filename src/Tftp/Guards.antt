-- ===== src/Tftp/Guards.antt =====
-- What tftp_recv_packet refuses, repeats and overruns (tftp.cpp).
use c64iec.Base.{
  ℕ, ◌≤◌, ◌≡◌, ◌≢◌, ◌⊎◌, Bool, false, not, ◌&&◌, leb, ltb, ◌==◌, none, some, ◌∷◌, ◌∙◌, ap, arith,
}
use c64iec.Tftp.{
  Ether, Tftp, srcport, tftp_rrq, tftp_wrq, tftp_data, tftp_error, tftp_optack, packet_type,
  packet_blknum, packet_datasize, packet_srvport, packet_dstport, recv_packet, dispatch, send_ack,
}
use c64iec.Tftp.Wire.{datagram, ack_bytes}
use c64iec.Tftp.Download.{Carries, noted, recv_packet-new, send_ack_lem}

-- A packet with the block number of the last one that was taken, say a DATA block that the server
-- repeats since its acknowledgement was lost, is not acknowledged again: whatever its type is, the
-- function returns 0, and notes the block number and the source port and changes nothing else.
pub recv_packet-repeated :
    (t : Tftp) (e : Ether) (plen kind b n : ℕ)
    → Carries e plen kind b n
    → t.lastblk ≡ b
    → recv_packet t e plen ≡ (record t { blknum = b; srvport = packet_srvport e.buffer }, some 0)
unfolding recv_packet
recv_packet-repeated t e plen kind b n c same = ground arith

-- A frame that is empty, not for this host, not UDP or for another port changes nothing.
pub recv_packet-foreign :
    (t : Tftp) (e : Ether) (plen : ℕ)
    → (plen ≡ 0)
      ⊎ (e.is_my_ip plen ≡ false)
      ⊎ (e.buffer 23 ≢ 17)
      ⊎ (packet_dstport e.buffer ≢ srcport)
    → (recv_packet t e plen).0 ≡ t
unfolding recv_packet
recv_packet-foreign t e plen h = ground arith

-- An ERROR packet with a new number ends the request and sets the error flag.
pub recv_packet-error :
    (t : Tftp) (e : Ether) (plen b n : ℕ)
    → Carries e plen tftp_error b n
    → t.lastblk ≢ b
    → recv_packet t e plen ≡ (record (noted t e) { error = 1; request_in_progress = 0 }, none)
recv_packet-error t e plen b n c new =
    recv_packet-new t e plen tftp_error b n c new ∙ ap (λ t'. (t', none)) step
  where
    step : dispatch (noted t e) e.buffer ≡ record (noted t e) { error = 1; request_in_progress = 0 }
    step = unfold dispatch in ground arith

-- Of every packet: tftp_recv_packet sends nothing, or the packet acknowledges the options of a
-- request that is no write request and one acknowledgement of block 0 goes to its source port.
pub recv_packet-sent :
    (t : Tftp) (e : Ether) (plen : ℕ)
    → ((recv_packet t e plen).0.sent ≡ t.sent)
      ⊎ ((packet_type e.buffer ≡ tftp_optack)
          × (t.request_in_progress ≢ tftp_wrq)
          × ((recv_packet t e plen).0.sent
              ≡ datagram (ack_bytes 0) (packet_srvport e.buffer) ∷ t.sent))
unfolding recv_packet
recv_packet-sent t e plen = ground (arith, send_ack_lem (noted t e) (packet_srvport e.buffer) 0)

-- A packet whose DATA size is at most 260 leaves the memory behind the 260 bytes of tftpdata.
pub recv_packet-within :
    (t : Tftp) (e : Ether) (plen i : ℕ)
    → packet_datasize e.buffer ≤ 260
    → 260 ≤ i
    → (recv_packet t e plen).0.tftpdata i ≡ t.tftpdata i
unfolding recv_packet
recv_packet-within t e plen i small far = ground arith

-- Does a packet bring more data than tftpdata has room for, past all the guards?
abbrev overruns : Tftp → Ether → ℕ → Bool
overruns t e plen =
    not (leb plen 0)
    && e.is_my_ip plen
    && e.buffer 23 == 17
    && packet_dstport e.buffer == srcport
    && packet_type e.buffer == tftp_data
    && t.request_in_progress == tftp_rrq
    && not (t.lastblk == packet_blknum e.buffer)
    && ltb 260 (packet_datasize e.buffer)

-- Outside of a write request no packet lets the client send.
pub recv_packet-held :
    (t : Tftp) (e : Ether) (plen : ℕ)
    → t.request_in_progress ≢ tftp_wrq
    → t.clear_to_send ≡ 0
    → ((recv_packet t e plen).0.request_in_progress ≢ tftp_wrq)
      × ((recv_packet t e plen).0.clear_to_send ≡ 0)
unfolding recv_packet
recv_packet-held t e plen stopped held = (λ h. ground arith, ground arith)

-- Without a request in progress no packet starts one.
pub recv_packet-idle :
    (t : Tftp) (e : Ether) (plen : ℕ)
    → t.request_in_progress ≡ 0
    → (recv_packet t e plen).0.request_in_progress ≡ 0
unfolding recv_packet
recv_packet-idle t e plen idle = ground arith

-- The answer to the options of a read request is acknowledged as block 0.
pub recv_packet-options :
    (t : Tftp) (e : Ether) (plen n : ℕ)
    → Carries e plen tftp_optack 0 n
    → t.request_in_progress ≡ tftp_rrq
    → t.lastblk ≢ 0
    → recv_packet t e plen ≡ (send_ack (noted t e) (packet_srvport e.buffer) 0, none)
recv_packet-options t e plen n c busy new =
    recv_packet-new t e plen tftp_optack 0 n c new ∙ ap (λ t'. (t', none)) step
  where
    step : dispatch (noted t e) e.buffer ≡ send_ack (noted t e) (packet_srvport e.buffer) 0
    step = unfold dispatch in ground arith
