-- ===== src/Iec/Probe.antt =====
-- ethernet_probe_for_packet (c64iec.ino) with the network of EtherCard/tcpip.cpp below the TFTP client:
-- the client reads the frame buffer, and its datagrams go out as frames.
pub mod Undefined
pub mod Frames
mod Tests
use c64iec.Base.{
  ℕ, Option, none, some, List, [], ◌∷◌, ◌++◌, length, ◌==◌, if◌then◌else◌, Memory, store,
}
use c64iec.Net.{Net, send_udp, is_my_ip}
use c64iec.Net.Loop.{packet_loop}
use c64iec.Tftp.{Ether, Datagram, Tftp, recv_packet}

pub record Host : Type 0 where
  pub net : Net
  pub tftp : Tftp

-- What ether.packetReceive leaves in the buffer, and the length that it returns.
pub record Received : Type 0 where
  pub frame : Memory
  pub plen : ℕ

abbrev pub fetch : Received → Net → Net
fetch p n = record n { buffer = p.frame }

-- The object `ether` as the TFTP client reads it.
abbrev pub ether_of : Net → Ether
ether_of n = record { buffer = n.buffer; is_my_ip = λ plen. is_my_ip plen n }

abbrev pub no_bytes : Memory
no_bytes i = 0

-- The arguments of ether.sendUdp: the payload, the ports and ether.serverip.
unfoldable pub put_datagram : Datagram → Net → Net
put_datagram d n =
    send_udp (store 0 d.payload no_bytes) (length d.payload) d.sport n.serverip d.dport n

-- The datagrams of a log, the oldest first.
unfoldable pub put_datagrams : List Datagram → Net → Net
unfolding put_datagram
put_datagrams [] n = n
put_datagrams (d ∷ log) n = put_datagram d (put_datagrams log n)

-- The call of tftp_recv_packet. It reads nothing of the frame buffer behind its call of sendUdp.
unfoldable pub take_packet : ℕ → Host → Host × Option ℕ
unfolding put_datagrams
take_packet plen h =
    let (t, result) = recv_packet (record h.tftp { sent = [] }) (ether_of h.net) plen in
    (
      record { net = put_datagrams t.sent h.net; tftp = record t { sent = t.sent ++ h.tftp.sent } },
      result,
    )

-- The value of a call, where `undefined` is what a call without a return statement gives.
abbrev pub value_of : ℕ → Option ℕ → ℕ
value_of undefined none = undefined
value_of undefined (some r) = r

unfoldable pub probe : ℕ → Received → Host → Host
unfolding take_packet
probe undefined p h =
    let (h', result) = take_packet p.plen (record h { net = fetch p h.net }) in
    let (n, position) = packet_loop none none none p.plen h'.net in
    if value_of undefined result == 0 then record h' { net = n } else h'
