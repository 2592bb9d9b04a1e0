-- ===== src/Net/Arp.antt =====
-- How the firmware learns the address of its server (EtherCard/tcpip.cpp).
use c64iec.Base.{ℕ, ◌<◌, ◌≡◌, refl, true, Option, arith, slice, slice-copy, if◌then◌else◌, ◌∙◌, ap}
use c64iec.Net.{
  Net, equal_ip, eth_type_is_arp_and_my_ip, client_store_server_mac, client_store_gw_mac,
  make_arp_answer_from_request,
}
use c64iec.Net.Loop.{ResultCb, DatafillCb, packet_loop, arp}

-- The answer and the gateway leave what is known of the server.
answer-server :
    (n : Net)
    → ((make_arp_answer_from_request n).servermac_known ≡ n.servermac_known)
      × ((make_arp_answer_from_request n).servermacaddr ≡ n.servermacaddr)
unfolding make_arp_answer_from_request
answer-server n = (refl, refl)

arp-server :
    (n : Net)
    → ((arp n).servermac_known ≡ (client_store_server_mac n).0.servermac_known)
      × ((arp n).servermacaddr ≡ (client_store_server_mac n).0.servermacaddr)
unfolding arp client_store_gw_mac
arp-server n = ground (arith, answer-server (client_store_server_mac n).0)

store-server :
    (n : Net)
    → ((client_store_server_mac n).0.servermac_known
        ≡ (if equal_ip 28 n.serverip n then 1 else n.servermac_known))
      × (slice (client_store_server_mac n).0.servermacaddr 0 6
          ≡ (if equal_ip 28 n.serverip n then slice n.buffer 22 6 else slice n.servermacaddr 0 6))
unfolding client_store_server_mac
store-server n = (ground arith, ground (arith, slice-copy 0 n.buffer 22 6 n.servermacaddr))

arp-addresses : (n : Net) → ((arp n).myip ≡ n.myip) × ((arp n).serverip ≡ n.serverip)
unfolding arp client_store_gw_mac client_store_server_mac make_arp_answer_from_request
arp-addresses n = ground arith

packet_loop-arp :
    (result_cb : Option ResultCb) (datafill_cb : Option DatafillCb) (icmp_cb : Option (Net → Net))
    (plen : ℕ) (n : Net)
    → 0 < plen
    → eth_type_is_arp_and_my_ip plen n ≡ true
    → packet_loop result_cb datafill_cb icmp_cb plen n ≡ (arp n, 0)
unfolding packet_loop
packet_loop-arp result_cb datafill_cb icmp_cb plen n some_bytes is_arp = ground arith

-- When an ARP packet for the firmware's address comes, packetLoop learns the server's MAC address, the
-- six bytes of the sender's, exactly if the sender's address is the server's, and else keeps what it
-- knew; it returns 0. Whatever the callbacks do, they have no part in it.
pub packet_loop-learns :
    (result_cb : Option ResultCb) (datafill_cb : Option DatafillCb) (icmp_cb : Option (Net → Net))
    (plen : ℕ) (n : Net)
    → 0 < plen
    → eth_type_is_arp_and_my_ip plen n ≡ true
    → let r = packet_loop result_cb datafill_cb icmp_cb plen n in
      (r.1 ≡ 0)
      × (r.0.servermac_known ≡ (if equal_ip 28 n.serverip n then 1 else n.servermac_known))
      × (slice r.0.servermacaddr 0 6
          ≡ (if equal_ip 28 n.serverip n then slice n.buffer 22 6 else slice n.servermacaddr 0 6))
packet_loop-learns result_cb datafill_cb icmp_cb plen n some_bytes is_arp =
    rw (packet_loop-arp result_cb datafill_cb icmp_cb plen n some_bytes is_arp) (
      refl,
      (arp-server n).0 ∙ (store-server n).0,
      ap (λ m. slice m 0 6) (arp-server n).1 ∙ (store-server n).1,
    )

-- The addresses stay.
pub packet_loop-addresses :
    (result_cb : Option ResultCb) (datafill_cb : Option DatafillCb) (icmp_cb : Option (Net → Net))
    (plen : ℕ) (n : Net)
    → 0 < plen
    → eth_type_is_arp_and_my_ip plen n ≡ true
    → let k = (packet_loop result_cb datafill_cb icmp_cb plen n).0 in
      (k.myip ≡ n.myip) × (k.serverip ≡ n.serverip)
packet_loop-addresses result_cb datafill_cb icmp_cb plen n some_bytes is_arp =
    rw (packet_loop-arp result_cb datafill_cb icmp_cb plen n some_bytes is_arp) (arp-addresses n)
