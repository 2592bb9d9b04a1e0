-- ===== src/Net.antt =====
-- EtherCard/tcpip.cpp: Ethernet, ARP, IP and UDP frames. The statics of the file and the addresses of
-- the class EtherCard are the fields of Net; an address is an array that starts at index 0. A frame
-- that packetSend hands to the controller goes to `sent`, the newest in front.
pub mod Checksum
pub mod Tcp
pub mod Loop
pub mod Frames
pub mod Udp
pub mod Arp
pub mod Foreign
pub mod Keeps
pub mod Requests
pub mod ArpRequest
pub mod Tests
use c64iec.Base.{
  ℕ, zero, suc, ◌+◌, ◌-◌, ◌*◌, ◌/◌, ◌%◌, ◌^◌, Bool, true, false, ◌&&◌, not, List, [], ◌∷◌, ltb, leb,
  ◌==◌, if◌then◌else◌, Memory, write, copy, fill, store, slice, u8, u16, high, word, sub16,
}

pub record Net : Type 0 where
  pub buffer : Memory
  pub mymac : Memory
  pub myip : Memory
  pub mymask : Memory
  pub gwip : Memory
  pub dnsip : Memory
  pub dhcpip : Memory
  pub serverip : Memory
  pub hisip : Memory
  pub hisport : ℕ
  pub gwmacaddr : Memory
  pub servermacaddr : Memory
  pub servermac_known : ℕ
  pub waitgwmac : ℕ
  pub delaycnt : ℕ
  pub tcpclient_src_port_l : ℕ
  pub tcp_fd : ℕ
  pub tcp_client_state : ℕ
  pub tcp_client_port_h : ℕ
  pub tcp_client_port_l : ℕ
  pub info_data_len : ℕ
  pub seqnum : ℕ
  pub link_up : Bool
  pub sent : List (List ℕ)

-- Statements in the order of the source.
infixl 10 ◌▸◌
abbrev pub ◌▸◌ {ℓ κ} : {A : Type ℓ} {B : Type κ} → A → (A → B) → B
x ▸ f = f x

-- gPB[a] = v
abbrev pub poke : ℕ → ℕ → Net → Net
poke a v n = record n { buffer = write a v n.buffer }

-- memcpy(gPB + dst, src, k), for an array other than gPB, and for gPB + from
abbrev pub paste : ℕ → Memory → ℕ → Net → Net
paste dst src k n = record n { buffer = copy dst src 0 k n.buffer }

abbrev pub move : ℕ → ℕ → ℕ → Net → Net
move dst from k n = record n { buffer = copy dst n.buffer from k n.buffer }

-- memcmp(gPB + a, x, 4) == 0
abbrev pub equal_ip : ℕ → Memory → Net → Bool
equal_ip a x n =
    n.buffer a == x 0
    && n.buffer (a + 1) == x 1
    && n.buffer (a + 2) == x 2
    && n.buffer (a + 3) == x 3

-- x & (1 << k), as a test
abbrev pub has_bit : ℕ → ℕ → Bool
has_bit k x = x / 2 ^ k % 2 == 1

abbrev pub all_ones : Memory
all_ones i = 255

abbrev pub iphdr : List ℕ
iphdr = 0x45 ∷ 0 ∷ 0 ∷ 0x82 ∷ 0 ∷ 0 ∷ 0x40 ∷ 0 ∷ 0x20 ∷ []

abbrev pub arpreqhdr : List ℕ
arpreqhdr = 0 ∷ 1 ∷ 8 ∷ 0 ∷ 6 ∷ 4 ∷ 0 ∷ 1 ∷ []

-- memcpy_P(gPB + a, xs, length of xs)
abbrev pub load : ℕ → List ℕ → Net → Net
load a xs n = record n { buffer = store a xs n.buffer }

pub packet_send : ℕ → Net → Net
packet_send len n = record n { sent = slice n.buffer 0 len ∷ n.sent }

-- The loop that adds the 16-bit words from ptr on, and an odd byte at the end. No sum of at most 65535
-- bytes leaves the 32 bits of `sum`.
pub sum_words : Memory → ℕ → ℕ → ℕ → ℕ
sum_words m ptr zero sum = sum
sum_words m ptr (suc zero) sum = sum + m ptr * 256
sum_words m ptr (suc (suc len)) sum = sum_words m (ptr + 2) len (sum + word (m ptr) (m (ptr + 1)))

-- while (sum>>16) sum = (word) sum + (sum >> 16); at most `fuel` rounds.
pub fold_carry : ℕ → ℕ → ℕ
fold_carry zero sum = sum
fold_carry (suc fuel) sum =
    let rest = fold_carry fuel (u16 sum + sum / 65536) in if ltb 65535 sum then rest else sum

-- The value that the sum starts from, of the pseudo header.
abbrev pub checksum_start : ℕ → ℕ → ℕ
checksum_start len type =
    if type == 1 then sub16 (17 + len) 8 else if type == 2 then sub16 (6 + len) 8 else 0

-- The word ck of fill_checksum; three rounds are enough.
pub checksum : Memory → ℕ → ℕ → ℕ → ℕ
unfolding sum_words fold_carry
checksum m off len type = 65535 - u16 (fold_carry 3 (sum_words m off len (checksum_start len type)))

pub fill_checksum : ℕ → ℕ → ℕ → ℕ → Net → Net
unfolding checksum
fill_checksum dest off len type n =
    let ck = checksum n.buffer off len type in n ▸ poke dest (high ck) ▸ poke (dest + 1) (u8 ck)

-- `mac` is the array that the argument points into, at the index `at`.
pub set_macs : Memory → ℕ → Net → Net
set_macs mac at n = record n { buffer = copy 0 mac at 6 n.buffer } ▸ paste 6 n.mymac 6

pub set_mac_and_ips : Memory → Memory → Net → Net
unfolding set_macs
set_mac_and_ips mac dst n = set_macs mac 0 n ▸ paste 30 dst 4 ▸ paste 26 n.myip 4

pub check_ip_message_is_from : Memory → Net → Bool
check_ip_message_is_from ip n = equal_ip 26 ip n

unfoldable pub eth_type_is_arp_and_my_ip : ℕ → Net → Bool
eth_type_is_arp_and_my_ip len n =
    leb 41 len && n.buffer 12 == 8 && n.buffer 13 == 6 && equal_ip 38 n.myip n

unfoldable pub eth_type_is_ip_and_my_ip : ℕ → Net → Bool
eth_type_is_ip_and_my_ip len n =
    leb 42 len
    && n.buffer 12 == 8
    && n.buffer 13 == 0
    && n.buffer 14 == 0x45
    && equal_ip 30 n.myip n

pub fill_ip_hdr_checksum : Net → Net
unfolding fill_checksum
fill_ip_hdr_checksum n =
    n ▸ poke 24 0 ▸ poke 25 0 ▸ poke 20 0x40 ▸ poke 21 0 ▸ poke 22 64 ▸ fill_checksum 24 14 20 0

pub make_eth_ip : Net → Net
unfolding set_macs fill_ip_hdr_checksum
make_eth_ip n = set_macs n.buffer 6 n ▸ move 30 26 4 ▸ paste 26 n.myip 4 ▸ fill_ip_hdr_checksum

pub make_arp_answer_from_request : Net → Net
unfolding set_macs packet_send
make_arp_answer_from_request n =
    set_macs n.buffer 6 n
    ▸ poke 20 0
    ▸ poke 21 2
    ▸ move 32 22 6
    ▸ paste 22 n.mymac 6
    ▸ move 38 28 4
    ▸ paste 28 n.myip 4
    ▸ packet_send 42

-- The two statements on the checksum of an echo reply, a byte each.
pub bump_checksum : Net → Net
bump_checksum n =
    (if ltb 0xf7 (n.buffer 36) then n ▸ poke 37 (u8 (n.buffer 37 + 1)) else n)
    ▸ poke 36 (u8 (n.buffer 36 + 8))

pub make_echo_reply_from_request : ℕ → Net → Net
unfolding make_eth_ip bump_checksum packet_send
make_echo_reply_from_request len n = make_eth_ip n ▸ poke 34 0 ▸ bump_checksum ▸ packet_send len

unfoldable pub udp_prepare : ℕ → Memory → ℕ → Net → Net
unfolding set_mac_and_ips
udp_prepare sport dip dport n =
    set_mac_and_ips n.servermacaddr dip n
    ▸ (λ k. if dip 0 / 16 == 14 then k ▸ paste 0 all_ones 6 else k)
    ▸ poke 12 8
    ▸ poke 13 0
    ▸ load 14 iphdr
    ▸ poke 16 0
    ▸ poke 23 17
    ▸ poke 36 (high dport)
    ▸ poke 37 (u8 dport)
    ▸ poke 34 (high sport)
    ▸ poke 35 (u8 sport)
    ▸ poke 38 0
    ▸ poke 40 0
    ▸ poke 41 0

unfoldable pub udp_transmit : ℕ → Net → Net
unfolding fill_ip_hdr_checksum fill_checksum packet_send
udp_transmit datalen n =
    n
    ▸ poke 16 (high (28 + datalen))
    ▸ poke 17 (u8 (28 + datalen))
    ▸ fill_ip_hdr_checksum
    ▸ poke 38 (high (8 + datalen))
    ▸ poke 39 (u8 (8 + datalen))
    ▸ fill_checksum 40 26 (16 + datalen) 1
    ▸ packet_send (42 + datalen)

abbrev pub limited : ℕ → ℕ
limited datalen = if ltb 560 datalen then 560 else datalen

pub send_udp : Memory → ℕ → ℕ → Memory → ℕ → Net → Net
unfolding udp_prepare udp_transmit
send_udp payload datalen sport dip dport n =
    udp_prepare sport dip dport n
    ▸ paste 42 payload (limited datalen)
    ▸ udp_transmit (limited datalen)

pub client_arp_whohas : Memory → Net → Net
unfolding set_macs packet_send
client_arp_whohas ip n =
    set_macs all_ones 0 n
    ▸ poke 12 8
    ▸ poke 13 6
    ▸ load 14 arpreqhdr
    ▸ (λ k. record k { buffer = fill 32 0 6 k.buffer })
    ▸ paste 22 n.mymac 6
    ▸ paste 38 ip 4
    ▸ paste 28 n.myip 4
    ▸ (λ k. record k { waitgwmac = if has_bit 3 k.waitgwmac then k.waitgwmac else k.waitgwmac + 8 })
    ▸ packet_send 42

abbrev pub send_arp_request : Memory → Net → Net
send_arp_request ip n = client_arp_whohas ip n

pub client_store_gw_mac : Net → Net × Bool
client_store_gw_mac n =
    if not (equal_ip 28 n.gwip n)
    then (n, false)
    else (record n { gwmacaddr = copy 0 n.buffer 22 6 n.gwmacaddr }, true)

pub client_store_server_mac : Net → Net × Bool
client_store_server_mac n = if not (equal_ip 28 n.serverip n) then (n, false) else (
  record n { servermacaddr = copy 0 n.buffer 22 6 n.servermacaddr; servermac_known = 1 },
  true,
)

abbrev pub server_mac_known : Net → ℕ
server_mac_known n = n.servermac_known

pub set_gw_ip : Memory → Net → Net
set_gw_ip gwipaddr n = record n { waitgwmac = 1; gwip = copy 0 gwipaddr 0 4 n.gwip }

unfoldable pub is_my_ip : ℕ → Net → Bool
unfolding eth_type_is_arp_and_my_ip
is_my_ip plen n = not (eth_type_is_arp_and_my_ip plen n)
