-- ===== src/Net/Requests.antt =====
-- The messages of EtherCard/tcpip.cpp that a sketch asks for itself: replies by UDP, echo requests, the
-- time protocol, Wake on LAN, and the start of a TCP session. The firmware asks for none of them.
use c64iec.Base.{
  ℕ, zero, suc, ◌+◌, ◌*◌, ◌%◌, ◌≡◌, refl, Bool, ◌&&◌, ◌||◌, not, Option, none, some, List, [], ◌∷◌,
  ◌++◌, ◌==◌, if◌then◌else◌, Memory, fill, slice, u8, high,
}
use c64iec.Net.{
  Net, ◌▸◌, poke, paste, load, has_bit, all_ones, iphdr, limited, packet_send, fill_checksum,
  fill_ip_hdr_checksum, make_eth_ip, set_mac_and_ips, check_ip_message_is_from,
}
use c64iec.Net.Tcp.{make_tcp_ack_from_any, make_tcp_ack_with_data_noflags}

pub make_udp_reply : Memory → ℕ → ℕ → Net → Net
make_udp_reply payload datalen port n =
    let len = limited datalen in
    make_eth_ip (n ▸ poke 16 (high (28 + len)) ▸ poke 17 (u8 (28 + len)))
    ▸ (λ k. poke 36 (k.buffer 34) k)
    ▸ (λ k. poke 37 (k.buffer 35) k)
    ▸ poke 34 (high port)
    ▸ poke 35 (u8 port)
    ▸ poke 38 (high (8 + len))
    ▸ poke 39 (u8 (8 + len))
    ▸ poke 40 0
    ▸ poke 41 0
    ▸ paste 42 payload len
    ▸ fill_checksum 40 26 (16 + len) 1
    ▸ packet_send (42 + len)

pub http_server_reply : ℕ → Net → Net
http_server_reply dlen n =
    make_tcp_ack_from_any n.info_data_len 0 n ▸ poke 47 0x19 ▸ make_tcp_ack_with_data_noflags dlen

-- The header of an IP packet from the firmware, with the low byte of its length and its protocol.
abbrev ip_header : ℕ → ℕ → Net → Net
ip_header len proto n =
    n ▸ poke 12 8 ▸ poke 13 0 ▸ load 14 iphdr ▸ poke 17 len ▸ poke 23 proto ▸ fill_ip_hdr_checksum

pub client_icmp_request : Memory → Net → Net
client_icmp_request destip n =
    set_mac_and_ips n.gwmacaddr destip n
    ▸ ip_header 0x54 1
    ▸ poke 34 8
    ▸ poke 35 0
    ▸ poke 36 0
    ▸ poke 37 0
    ▸ poke 38 5
    ▸ poke 39 (n.myip 3)
    ▸ poke 40 0
    ▸ poke 41 1
    ▸ (λ k. record k { buffer = fill 42 0x42 56 k.buffer })
    ▸ fill_checksum 36 34 64 0
    ▸ packet_send 98

abbrev pub ntpreqhdr : List ℕ
ntpreqhdr = 0xe3 ∷ 0 ∷ 4 ∷ 0xfa ∷ 0 ∷ 1 ∷ 0 ∷ 0 ∷ 0 ∷ 1 ∷ []

pub ntp_request : Memory → ℕ → Net → Net
ntp_request ntpip srcport n =
    set_mac_and_ips n.gwmacaddr ntpip n
    ▸ ip_header 0x4c 17
    ▸ poke 36 0
    ▸ poke 37 0x7b
    ▸ poke 34 10
    ▸ poke 35 srcport
    ▸ poke 38 0
    ▸ poke 39 56
    ▸ poke 40 0
    ▸ poke 41 0
    ▸ (λ k. record k { buffer = fill 42 0 48 k.buffer })
    ▸ load 42 ntpreqhdr
    ▸ fill_checksum 40 26 64 1
    ▸ packet_send 90

-- The time that the packet has, none where the result is 0. The bytes of *time are the word's, the low
-- one first.
pub ntp_process_answer : ℕ → Net → Option ℕ
ntp_process_answer dstport_l n =
    if (not (dstport_l == 0) && not (n.buffer 37 == dstport_l))
      || not (n.buffer 38 == 0)
      || not (n.buffer 39 == 56)
      || not (n.buffer 35 == 0x7b)
    then none
    else some
        (n.buffer 0x52 * 16777216 + n.buffer 0x53 * 65536 + n.buffer 0x54 * 256 + n.buffer 0x55)

-- The rounds that are left of the loop of sendWol, at position pos. `pos` stays below 256.
pub wol_loop : ℕ → ℕ → Memory → Net → Net
wol_loop zero pos wolmac n = n
wol_loop (suc m) pos wolmac n = wol_loop m (pos + 6) wolmac (n ▸ paste (pos + 6) wolmac 6)

pub send_wol : Memory → Net → Net
unfolding wol_loop
send_wol wolmac n =
    set_mac_and_ips all_ones all_ones n
    ▸ ip_header 0x82 17
    ▸ poke 36 0
    ▸ poke 37 9
    ▸ poke 34 10
    ▸ poke 35 0x42
    ▸ poke 38 0
    ▸ poke 39 110
    ▸ poke 40 0
    ▸ poke 41 0
    ▸ paste 42 all_ones 6
    ▸ wol_loop 16 42 wolmac
    ▸ fill_checksum 40 26 118 1
    ▸ packet_send 144

pub client_waiting_gw : Net → Bool
client_waiting_gw n = not (has_bit 1 n.waitgwmac)

-- The two callbacks are parameters of packet_loop.
pub client_tcp_req : ℕ → Net → Net × ℕ
client_tcp_req port n =
    let fd = (n.tcp_fd + 1) % 8 in
    (
      record n {
        tcp_client_port_h = high port;
        tcp_client_port_l = u8 port;
        tcp_client_state = 1;
        tcp_fd = fd;
      },
      fd,
    )

pub packet_loop_icmp_check_reply : Memory → Net → Bool
packet_loop_icmp_check_reply host n =
    n.buffer 23 == 1 && n.buffer 34 == 0 && n.buffer 42 == 0x42 && check_ip_message_is_from host n

-- The reply goes to the station, the address and the port that the packet came from, as one frame.
pub make_udp_reply-answers :
    (payload : Memory) (len port : ℕ) (n : Net)
    → let r = make_udp_reply payload len port n in
      (slice r.buffer 0 6 ≡ slice n.buffer 6 6)
      × (slice r.buffer 6 6 ≡ slice n.mymac 0 6)
      × (slice r.buffer 26 4 ≡ slice n.myip 0 4)
      × (slice r.buffer 30 4 ≡ slice n.buffer 26 4)
      × (r.sent ≡ slice r.buffer 0 (42 + limited len) ∷ n.sent)
unfolding make_udp_reply make_eth_ip packet_send slice fill_checksum
make_udp_reply-answers payload len port n = (refl, refl, refl, refl, refl)

-- n copies of a list.
abbrev repeated : ℕ → List ℕ → List ℕ
repeated zero xs = []
repeated (suc n) xs = xs ++ repeated n xs

-- Wake on LAN sends one frame, and its payload is six bytes of 255 and the address sixteen times.
pub send_wol-payload :
    (mac : Memory) (n : Net)
    → let r = send_wol mac n in
      (slice r.buffer 42 102 ≡ repeated 6 (255 ∷ []) ++ repeated 16 (slice mac 0 6))
      × (r.sent ≡ slice r.buffer 0 144 ∷ n.sent)
unfolding send_wol packet_send slice fill_checksum fill_ip_hdr_checksum set_mac_and_ips
send_wol-payload mac n = (refl, refl)
