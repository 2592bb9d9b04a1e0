-- ===== src/Iec/Probe/Undefined.antt =====
-- The two handlers of a packet, one behind the other (c64iec.ino).
use c64iec.Base.{
  ℕ, ◌<◌, ◌≡◌, ◌≢◌, inl, inr, refl, sym, ap, true, false, Bool-cases, none, arith, ◌==◌, word,
  IsByte, IsWord, store,
}
use c64iec.Net.{Net, is_my_ip}
use c64iec.Net.Loop.{packet_loop}
use c64iec.Net.Foreign.{same_ip, packet_loop-ignores, packet_loop-send_udp, is_my_ip-not_arp}
use c64iec.Tftp.{Tftp, srcport, recv_packet, packet_srvport}
use c64iec.Tftp.Wire.{ack_bytes}
use c64iec.Tftp.Guards.{recv_packet-sent}
use c64iec.Tftp.Log.{emptied, recv_packet-emptied}
use c64iec.Iec.Drive.{Arrival, ethernet_probe_for_packet}
use c64iec.Iec.Probe.{
  Host, Received, fetch, ether_of, no_bytes, put_datagram, put_datagrams, take_packet, probe,
  value_of,
}

abbrev pub arrival_of : Received → Net → Arrival
arrival_of p n = record { ether = ether_of (fetch p n); plen = p.plen }

-- What the client does with a packet.
abbrev pub client : Received → Host → Tftp
client p h = (recv_packet (emptied h.tftp) (ether_of (fetch p h.net)) p.plen).0

pub take_packet-tftp :
    (p : Received) (h : Host)
    → (take_packet p.plen (record h { net = fetch p h.net })).0.tftp
      ≡ ethernet_probe_for_packet (arrival_of p h.net) h.tftp
unfolding take_packet ethernet_probe_for_packet
take_packet-tftp p h =
    sym (ap (λ r. r.0) (recv_packet-emptied h.tftp (ether_of (fetch p h.net)) p.plen))

-- Of every packet: the state of the TFTP client behind a probe is the one of the client alone, as
-- send_file and recv_file are modelled with it. What packetLoop does has no part in it, nor has the
-- value that tftp_recv_packet returns where it runs off its end.
pub probe-ethernet_probe_for_packet :
    (undefined : ℕ) (p : Received) (h : Host)
    → (probe undefined p h).tftp ≡ ethernet_probe_for_packet (arrival_of p h.net) h.tftp
unfolding probe
probe-ethernet_probe_for_packet undefined p h =
    let h' = record h { net = fetch p h.net } in
    elim (Bool-cases (value_of undefined (take_packet p.plen h').1 == 0)) [
      | inl on ↦ rw on (take_packet-tftp p h)
      | inr stop ↦ rw stop (take_packet-tftp p h)
    ]

-- A UDP packet for the port of the TFTP client that passes its guards.
pub record IsTftp (p : Received) (n : Net) : Type 0 where
  pub arrived : 0 < p.plen
  pub mine : is_my_ip p.plen (fetch p n) ≡ true
  pub udp : p.frame 23 ≡ 17
  pub port : word (p.frame 36) (p.frame 37) ≡ srcport
  pub high_byte : IsByte (p.frame 36)
  pub low_byte : IsByte (p.frame 37)

-- The port of the TCP server is not the client's, and the server is another host.
pub record IsSetUp (n : Net) : Type 0 where
  pub tcp_port : IsWord n.hisport
  pub no_clash : n.hisport ≢ srcport
  pub elsewhere : same_ip n.serverip n.myip ≡ false

passed_over :
    (p : Received) (n : Net)
    → IsTftp p n
    → IsSetUp n
    → packet_loop none none none p.plen (fetch p n) ≡ (fetch p n, 0)
passed_over p n t s =
    packet_loop-ignores p.plen (fetch p n) t.arrived (is_my_ip-not_arp p.plen (fetch p n) t.mine)
      (inr (t.udp, ground arith, ground arith))

passed_over-sent :
    (p : Received) (h : Host)
    → IsTftp p h.net
    → IsSetUp h.net
    → let n = put_datagrams (client p h).sent (fetch p h.net) in
      packet_loop none none none p.plen n ≡ (n, 0)
unfolding put_datagrams put_datagram
passed_over-sent p h t s =
    elim (recv_packet-sent (emptied h.tftp) (ether_of (fetch p h.net)) p.plen) [
      | inl nothing ↦ rw nothing (passed_over p h.net t s)
      | inr (_, _, ack) ↦ rw ack (
          packet_loop-send_udp (store 0 (ack_bytes 0) no_bytes) 4 srcport h.net.serverip
            (packet_srvport p.frame) p.plen (fetch p h.net) t.arrived s.elsewhere)
    ]

-- A packet for the TFTP client is the client's alone, when the server is another host and the port of
-- the TCP server is not the client's. Whatever value tftp_recv_packet returns where it runs off its
-- end, and so whether or not packetLoop gets the packet too, or the acknowledgement that now stands
-- in its place, the probe ends with the client's state and with the frames of its datagrams.
pub probe-take_packet :
    (undefined : ℕ) (p : Received) (h : Host)
    → IsTftp p h.net
    → IsSetUp h.net
    → probe undefined p h ≡ (take_packet p.plen (record h { net = fetch p h.net })).0
unfolding probe take_packet
probe-take_packet undefined p h t s =
    let (u, result) = recv_packet (emptied h.tftp) (ether_of (fetch p h.net)) p.plen in
    rw (passed_over-sent p h t s) (elim (Bool-cases (value_of undefined result == 0)) [
      | inl on ↦ rw on refl
      | inr stop ↦ rw stop refl
    ])
