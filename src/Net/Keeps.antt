-- ===== src/Net/Keeps.antt =====
-- What packetLoop leaves alone (EtherCard/tcpip.cpp): the addresses, and what is known of the server.
use c64iec.Base.{
  ℕ, ◌≡◌, refl, ◌∙◌, Bool, true, false, ◌&&◌, ◌||◌, ◌+◌, ◌*◌, ◌%◌, u8, u16, none, arith, ◌==◌,
  if◌then◌else◌, Memory, write, ltb, leb, ◌/◌, sub16, not, high,
}
use c64iec.Net.{
  Net, client_arp_whohas, make_echo_reply_from_request, eth_type_is_arp_and_my_ip,
  eth_type_is_ip_and_my_ip, has_bit, check_ip_message_is_from, packet_send, fill_checksum,
  fill_ip_hdr_checksum, set_mac_and_ips, make_eth_ip,
}
use c64iec.Net.Tcp.{
  client_syn, get_tcp_data_len, make_tcp_ack_from_any, make_tcp_ack_with_data_noflags,
  make_tcp_synack_from_syn,
}
use c64iec.Net.Loop.{idle, tcp_answer, tcp_data, tcp_rest, tcp_client, tcp_server, packet_loop}

pub record Kept (n k : Net) : Type 0 where
  pub myip : k.myip ≡ n.myip
  pub serverip : k.serverip ≡ n.serverip
  pub known : k.servermac_known ≡ n.servermac_known
  pub mac : k.servermacaddr ≡ n.servermacaddr

abbrev then_Kept : {n k l : Net} → Kept n k → Kept k l → Kept n l
then_Kept a b = record {
  myip = b.myip ∙ a.myip;
  serverip = b.serverip ∙ a.serverip;
  known = b.known ∙ a.known;
  mac = b.mac ∙ a.mac;
}

pub whohas-Kept : (ip : Memory) (n : Net) → Kept n (client_arp_whohas ip n)
unfolding client_arp_whohas
whohas-Kept ip n = record { myip = refl; serverip = refl; known = refl; mac = refl }

echo-Kept : (len : ℕ) (n : Net) → Kept n (make_echo_reply_from_request len n)
unfolding make_echo_reply_from_request
echo-Kept len n = ground arith

syn-Kept : (s h l : ℕ) (n : Net) → Kept n (client_syn s h l n)
unfolding client_syn packet_send fill_checksum fill_ip_hdr_checksum set_mac_and_ips
syn-Kept s h l n = record { myip = refl; serverip = refl; known = refl; mac = refl }

ack-Kept : (len flags : ℕ) (n : Net) → Kept n (make_tcp_ack_from_any len flags n)
unfolding make_tcp_ack_from_any packet_send fill_checksum make_eth_ip
ack-Kept len flags n = record { myip = refl; serverip = refl; known = refl; mac = refl }

data-Kept : (len : ℕ) (n : Net) → Kept n (make_tcp_ack_with_data_noflags len n)
unfolding make_tcp_ack_with_data_noflags packet_send fill_checksum fill_ip_hdr_checksum
data-Kept len n = record { myip = refl; serverip = refl; known = refl; mac = refl }

synack-Kept : (n : Net) → Kept n (make_tcp_synack_from_syn n)
unfolding make_tcp_synack_from_syn packet_send fill_checksum make_eth_ip
synack-Kept n = record { myip = refl; serverip = refl; known = refl; mac = refl }

if-Kept : {n x y : Net} (c : Bool) → Kept n x → Kept n y → Kept n (if c then x else y)
if-Kept true a b = a
if-Kept false a b = b

-- The same of a state with a result.
data Gives (n : Net) : Net × ℕ → Type 0 where
  gives : {k : Net} (r : ℕ) → Kept n k → Gives n (k, r)

if-Gives :
    {n : Net} {x y : Net × ℕ} (c : Bool) → Gives n x → Gives n y → Gives n (if c then x else y)
if-Gives true a b = a
if-Gives false a b = b

Gives-Kept : {n : Net} {x : Net × ℕ} → Gives n x → Kept n x.0
Gives-Kept (gives r a) = a

-- Fields that packetLoop sets itself.
abbrev unchanged : (n : Net) → Kept n n
unchanged n = record { myip = refl; serverip = refl; known = refl; mac = refl }

retold :
    {n k l : Net}
    → Kept n k
    → l.myip ≡ k.myip
    → l.serverip ≡ k.serverip
    → l.servermac_known ≡ k.servermac_known
    → l.servermacaddr ≡ k.servermacaddr
    → Kept n l
retold a m s k c = then_Kept a (record { myip = m; serverip = s; known = k; mac = c })

idle-Kept : (n : Net) → Kept n (idle n)
unfolding idle
idle-Kept n =
    let asked =
      if (has_bit 0 n.waitgwmac || has_bit 2 n.waitgwmac) && n.delaycnt == 0 && n.link_up
      then client_arp_whohas n.gwip n
      else n in
    let counted = record asked { delaycnt = u16 (asked.delaycnt + 1) } in
    let l = u8 (counted.tcpclient_src_port_l + 1) in
    let started = record counted { tcp_client_state = 2; tcpclient_src_port_l = l } in
    let a : Kept n asked =
      if-Kept ((has_bit 0 n.waitgwmac || has_bit 2 n.waitgwmac) && n.delaycnt == 0 && n.link_up)
        (whohas-Kept n.gwip n) (unchanged n) in
    let b : Kept n counted = retold a refl refl refl refl in
    if-Kept (counted.tcp_client_state == 1 && has_bit 1 counted.waitgwmac)
      (then_Kept (retold b refl refl refl refl) (
        syn-Kept (u8 (started.tcp_fd * 32 + l % 32)) started.tcp_client_port_h
          started.tcp_client_port_l started))
      b

ack_state-Kept :
    (len flags state : ℕ) (n : Net)
    → Kept n (record (make_tcp_ack_from_any len flags n) { tcp_client_state = state })
ack_state-Kept len flags state n = retold (ack-Kept len flags n) refl refl refl refl

answer-Kept : (n : Net) → Kept n (tcp_answer none none none n)
unfolding tcp_answer
answer-Kept n =
    let m = record (make_tcp_ack_from_any 0 0 n) {
      buffer = write 47 0x18 (make_tcp_ack_from_any 0 0 n).buffer;
    } in
    let a : Kept n m = retold (ack-Kept 0 0 n) refl refl refl refl in
    if-Kept (has_bit 1 (n.buffer 47) && has_bit 4 (n.buffer 47))
      (then_Kept (retold a refl refl refl refl) (data-Kept 0 (record m { tcp_client_state = 3 })))
      (then_Kept (retold (unchanged n) refl refl refl refl) (
        ack-Kept (if has_bit 4 (n.buffer 47) then 0 else u16 (get_tcp_data_len n + 1)) 4
          (record n { tcp_client_state = 1 })))

rest-Kept : (len : ℕ) (n : Net) → Kept n (tcp_rest none none none len n)
unfolding tcp_rest
rest-Kept len n = if-Kept (n.tcp_client_state == 5) (unchanged n) (
    if-Kept (has_bit 0 (n.buffer 47)) (ack_state-Kept (u16 (len + 1)) 9 5 n)
      (if-Kept (ltb 0 len) (ack-Kept len 0 n) (unchanged n)))

data_rest-Kept : (plen len : ℕ) (n : Net) → Kept n (tcp_data none none none plen len n)
unfolding tcp_data
data_rest-Kept plen len n = rest-Kept len n

client-Kept : (plen : ℕ) (n : Net) → Kept n (tcp_client none none none plen n)
unfolding tcp_client
client-Kept plen n =
    let len = get_tcp_data_len n in
    let rest = rest-Kept len n in
    if-Kept (not (check_ip_message_is_from n.hisip n)) (unchanged n) (
      if-Kept (has_bit 2 (n.buffer 47)) (retold (unchanged n) refl refl refl refl) (
        if-Kept (n.tcp_client_state == 2) (answer-Kept n) (
          if-Kept (n.tcp_client_state == 3 && ltb 0 len && false) (data_rest-Kept plen len n)
            rest)))

server-Gives : (plen : ℕ) (n : Net) → Gives n (tcp_server none none none plen n)
unfolding tcp_server
server-Gives plen n =
    let k = record n { info_data_len = get_tcp_data_len n } in
    let kept : Kept n k = retold (unchanged n) refl refl refl refl in
    let len = u16 (34 + n.buffer 46 / 16 * 4) in
    if-Gives (has_bit 1 (n.buffer 47)) (gives 0 (synack-Kept n)) (
      if-Gives (not (has_bit 4 (n.buffer 47))) (gives 0 (unchanged n)) (
        if-Gives (ltb 0 k.info_data_len) (gives (if leb len (sub16 plen 8) then len else 0) kept) (
          if-Gives (has_bit 0 (n.buffer 47)) (gives 0 (then_Kept kept (ack-Kept 0 0 k)))
            (gives 0 kept))))

packet_loop-Gives :
    (plen : ℕ) (n : Net)
    → eth_type_is_arp_and_my_ip plen n ≡ false
    → Gives n (packet_loop none none none plen n)
unfolding packet_loop
packet_loop-Gives plen n no_arp =
    let nothing = gives 0 (unchanged n) in
    if-Gives (plen == 0) (gives 0 (idle-Kept n)) (
      rw no_arp (
        if-Gives (not (eth_type_is_ip_and_my_ip plen n)) nothing (
          if-Gives (n.buffer 23 == 1 && n.buffer 34 == 8) (gives 0 (echo-Kept plen n)) (
            if-Gives (ltb plen 54 && not (n.buffer 23 == 6)) nothing (
              if-Gives (n.buffer 36 == 11) (gives 0 (client-Kept plen n)) (
                if-Gives (n.buffer 36 == high n.hisport && n.buffer 37 == u8 n.hisport)
                  (server-Gives plen n) nothing))))))

-- Of every packet but an ARP packet for the firmware.
pub packet_loop-Kept :
    (plen : ℕ) (n : Net)
    → eth_type_is_arp_and_my_ip plen n ≡ false
    → Kept n (packet_loop none none none plen n).0
packet_loop-Kept plen n no_arp = Gives-Kept (packet_loop-Gives plen n no_arp)
