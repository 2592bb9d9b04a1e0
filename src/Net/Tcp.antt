-- ===== src/Net/Tcp.antt =====
-- The TCP part of EtherCard/tcpip.cpp: headers, acknowledgements, and the client's state. The firmware
-- opens no connection.
use c64iec.Base.{
  ℕ, zero, suc, ◌+◌, ◌*◌, ◌/◌, Bool, true, false, ◌&&◌, ◌||◌, not, leb, ◌==◌, if◌then◌else◌, fill,
  u8, u16, high, word, sub16,
}
use c64iec.Net.{
  Net, ◌▸◌, poke, load, iphdr, packet_send, fill_checksum, fill_ip_hdr_checksum, make_eth_ip,
  set_mac_and_ips,
}

-- The loop of step_seq, for the bytes below index i.
pub step_seq : ℕ → ℕ → Bool → Net → Net
step_seq zero rel_ack_num cp_seq n = n
step_seq (suc i) rel_ack_num cp_seq n =
    let rel = u16 (n.buffer (38 + i) + rel_ack_num) in
    let tseq = n.buffer (42 + i) in
    step_seq i (rel / 256) cp_seq
      (n ▸ poke (42 + i) (u8 rel) ▸ poke (38 + i) (if cp_seq then tseq else 0))

pub make_tcphead : ℕ → Bool → Net → Net
unfolding step_seq
make_tcphead rel_ack_num cp_seq n =
    let i = n.buffer 36 in
    let j = n.buffer 37 in
    step_seq 4 rel_ack_num cp_seq
      (n ▸ poke 36 (n.buffer 34) ▸ poke 34 i ▸ poke 37 (n.buffer 35) ▸ poke 35 j)
    ▸ poke 50 0
    ▸ poke 51 0
    ▸ poke 46 0x50

unfoldable pub make_tcp_synack_from_syn : Net → Net
unfolding make_tcphead
make_tcp_synack_from_syn n =
    make_eth_ip (n ▸ poke 16 0 ▸ poke 17 44)
    ▸ poke 47 0x12
    ▸ make_tcphead 1 false
    ▸ poke 38 0
    ▸ poke 39 0
    ▸ poke 40 n.seqnum
    ▸ poke 41 0
    ▸ (λ k. record k { seqnum = u8 (k.seqnum + 3) })
    ▸ poke 54 2
    ▸ poke 55 4
    ▸ poke 56 5
    ▸ poke 57 0
    ▸ poke 46 0x60
    ▸ poke 48 5
    ▸ poke 49 0x78
    ▸ fill_checksum 50 26 32 2
    ▸ packet_send 58

-- The length as a signed word; a value that is not positive gives 0.
pub get_tcp_data_len : Net → ℕ
get_tcp_data_len n =
    let i = sub16 (sub16 (word (n.buffer 16) (n.buffer 17)) 20) (n.buffer 46 / 16 * 4) in
    if i == 0 || leb 32768 i then 0 else i

-- The additional flags do not have the bit of ACK, so | adds.
unfoldable pub make_tcp_ack_from_any : ℕ → ℕ → Net → Net
unfolding make_tcphead
make_tcp_ack_from_any datlentoack addflags n =
    let len = if not (addflags == 4) && datlentoack == 0 then 1 else datlentoack in
    make_eth_ip (make_tcphead len true (n ▸ poke 47 (16 + addflags)) ▸ poke 16 0 ▸ poke 17 40)
    ▸ poke 48 4
    ▸ poke 49 0
    ▸ fill_checksum 50 26 28 2
    ▸ packet_send 54

unfoldable pub make_tcp_ack_with_data_noflags : ℕ → Net → Net
make_tcp_ack_with_data_noflags dlen n =
    let j = u16 (40 + dlen) in
    n
    ▸ poke 16 (high j)
    ▸ poke 17 (u8 j)
    ▸ fill_ip_hdr_checksum
    ▸ poke 50 0
    ▸ poke 51 0
    ▸ fill_checksum 50 26 (28 + dlen) 2
    ▸ packet_send (54 + dlen)

unfoldable pub client_syn : ℕ → ℕ → ℕ → Net → Net
client_syn srcport dstport_h dstport_l n =
    set_mac_and_ips n.gwmacaddr n.hisip n
    ▸ poke 12 8
    ▸ poke 13 0
    ▸ load 14 iphdr
    ▸ poke 17 44
    ▸ poke 23 6
    ▸ fill_ip_hdr_checksum
    ▸ poke 36 dstport_h
    ▸ poke 37 dstport_l
    ▸ poke 34 11
    ▸ poke 35 srcport
    ▸ (λ k. record k { buffer = fill 38 0 8 k.buffer })
    ▸ poke 40 n.seqnum
    ▸ (λ k. record k { seqnum = u8 (k.seqnum + 3) })
    ▸ poke 46 0x60
    ▸ poke 47 2
    ▸ poke 48 3
    ▸ poke 49 0
    ▸ poke 50 0
    ▸ poke 51 0
    ▸ poke 52 0
    ▸ poke 53 0
    ▸ poke 54 2
    ▸ poke 55 4
    ▸ poke 56 2
    ▸ poke 57 38
    ▸ fill_checksum 50 26 32 2
    ▸ packet_send 58
