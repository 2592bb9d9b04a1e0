-- ===== src/Net/Tests.antt =====
-- Frames of a small network (EtherCard/tcpip.cpp).
use c64iec.Base.{◌≡◌, refl, true, none, [], arith, Memory, write, slice, if◌then◌else◌}
use c64iec.Net.{Net, ◌▸◌, poke, eth_type_is_arp_and_my_ip, equal_ip}
use c64iec.Net.Loop.{packet_loop}
use c64iec.Net.Arp.{packet_loop-learns}

abbrev zeros : Memory
zeros i = 0

abbrev pub net : Net
net = record {
  buffer = zeros;
  mymac = λ i. 66;
  myip = λ i. 10;
  mymask = zeros;
  gwip = zeros;
  dnsip = zeros;
  dhcpip = zeros;
  serverip = λ i. 7;
  hisip = zeros;
  hisport = 80;
  gwmacaddr = zeros;
  servermacaddr = λ i. 33;
  servermac_known = 0;
  waitgwmac = 0;
  delaycnt = 1;
  tcpclient_src_port_l = 1;
  tcp_fd = 0;
  tcp_client_state = 0;
  tcp_client_port_h = 0;
  tcp_client_port_l = 0;
  info_data_len = 0;
  seqnum = 10;
  link_up = true;
  sent = [];
}

abbrev carries : Net
carries = net ▸ poke 36 0xf9 ▸ poke 37 255

-- An ARP packet from the server, for the firmware's address.
abbrev heard : Net
heard = record net {
  buffer = write 12 8 (
      write 13 6 (
        write 38 10 (
          write 39 10 (
            write 40 10
              (write 41 10 (write 28 7 (write 29 7 (write 30 7 (write 31 7 (λ i. 99))))))))));
}

heard-arp : eth_type_is_arp_and_my_ip 42 heard ≡ true
unfolding eth_type_is_arp_and_my_ip
heard-arp = refl

packet_loop-learns_example :
    let r = packet_loop none none none 42 heard in
    (r.1 ≡ 0)
    × (r.0.servermac_known
        ≡ (if equal_ip 28 heard.serverip heard then 1 else heard.servermac_known))
    × (slice r.0.servermacaddr 0 6 ≡ (
        if equal_ip 28 heard.serverip heard
        then slice heard.buffer 22 6
        else slice heard.servermacaddr 0 6))
packet_loop-learns_example = packet_loop-learns none none none 42 heard (omega arith) heard-arp
