-- ===== src/Iec/Probe/Frames.antt =====
-- The datagrams of the TFTP client as frames on the wire (c64iec.ino, EtherCard/tcpip.cpp).
use c64iec.Base.{
  ℕ, ◌+◌, ◌≤◌, ◌≡◌, refl, subst, ◌∙◌, List, [], ◌∷◌, length, All, arith, Memory, store, slice,
  slice-store, word, IsWord,
}
use c64iec.Net.{Net}
use c64iec.Net.Udp.{send_udp-frame}
use c64iec.Net.Foreign.{send_udp-serverip}
use c64iec.Tftp.{Tftp, Datagram, initial}
use c64iec.Tftp.Wire.{length-request_bytes}
use c64iec.Tftp.Invariant.{IsMessage, request, acknowledgement, block, Reach, Reach-Inv}
use c64iec.Iec.Probe.{no_bytes, put_datagram, put_datagrams}

-- A frame, the first bytes of a buffer, that carries a datagram to a host.
pub record IsFrame (server : Memory) (d : Datagram) (b : Memory) (frame : List ℕ) : Type 0 where
  pub whole : frame ≡ slice b 0 (42 + length d.payload)
  pub payload : slice b 42 (length d.payload) ≡ d.payload
  pub address : slice b 30 4 ≡ slice server 0 4
  pub source : word (b 34) (b 35) ≡ d.sport
  pub port : word (b 36) (b 37) ≡ d.dport
  pub udp_length : word (b 38) (b 39) ≡ 8 + length d.payload
  pub ip_length : word (b 16) (b 17) ≡ 28 + length d.payload

-- One frame for each datagram, in front of what has been sent before.
pub data Frames (server : Memory) (before : List (List ℕ))
    : List Datagram → List (List ℕ) → Type 0 where
  done : Frames server before [] before
  one :
      {d : Datagram} {log : List Datagram} {frame : List ℕ} {frames : List (List ℕ)} (b : Memory)
      → IsFrame server d b frame
      → Frames server before log frames
      → Frames server before (d ∷ log) (frame ∷ frames)

-- A datagram that fits: at most 560 bytes, and two ports.
pub record Fits (d : Datagram) : Type 0 where
  pub size : length d.payload ≤ 560
  pub source_port : IsWord d.sport
  pub target_port : IsWord d.dport

put_datagrams-serverip :
    (log : List Datagram) (n : Net) → (put_datagrams log n).serverip ≡ n.serverip
unfolding put_datagrams put_datagram
put_datagrams-serverip [] n = refl
put_datagrams-serverip (d ∷ log) n =
    let k = put_datagrams log n in
    send_udp-serverip (store 0 d.payload no_bytes) (length d.payload) d.sport k.serverip d.dport k
    ∙ put_datagrams-serverip log n

put_datagram-IsFrame :
    (d : Datagram) (n : Net)
    → Fits d
    → (frame : List ℕ) × ((put_datagram d n).sent ≡ frame ∷ n.sent)
      × IsFrame n.serverip d (put_datagram d n).buffer frame
unfolding put_datagram
put_datagram-IsFrame d n f =
    let bytes = store 0 d.payload no_bytes in
    let (log, payload, ip, source, target, udp, total) =
      send_udp-frame bytes (length d.payload) d.sport n.serverip d.dport n f.size f.source_port
        f.target_port in
    (
      slice (put_datagram d n).buffer 0 (42 + length d.payload),
      log,
      record {
        whole = refl;
        payload = payload ∙ slice-store 0 d.payload no_bytes;
        address = ip;
        source = source;
        port = target;
        udp_length = udp;
        ip_length = total;
      },
    )

message-Fits : (d : Datagram) → IsMessage d → Fits d
message-Fits d (request mode f which short) = record {
  size = omega (arith, length-request_bytes mode f);
  source_port = omega arith;
  target_port = omega arith;
}
message-Fits d (acknowledgement n port w) = record {
  size = omega arith;
  source_port = omega arith;
  target_port = w;
}
message-Fits d (block n port bytes small w) = record {
  size = omega arith;
  source_port = omega arith;
  target_port = w;
}

messages-Fit : (log : List Datagram) → All IsMessage log → All Fits log
messages-Fit [] a = tt
messages-Fit (d ∷ log) a = (message-Fits d a.0, messages-Fit log a.1)

-- Datagrams that fit go out as one frame each, in their order: the frame has the payload, the server's
-- address, both ports and the two lengths of its datagram.
put_datagrams-Frames :
    (log : List Datagram) (n : Net)
    → All Fits log
    → Frames n.serverip n.sent log (put_datagrams log n).sent
unfolding put_datagrams
put_datagrams-Frames [] n fits = Frames.done
put_datagrams-Frames (d ∷ log) n fits =
    let k = put_datagrams log n in
    let (frame, e, is) = put_datagram-IsFrame d k fits.0 in
    rw e (
      Frames.one (put_datagram d k).buffer
        (subst (λ s. IsFrame s d (put_datagram d k).buffer frame) (put_datagrams-serverip log n) is)
        (put_datagrams-Frames log n fits.1))

-- Everything that the TFTP client has sent, in any state that its operations reach from the initial
-- one, goes out as one frame for each message, in their order, whatever the state of the network
-- is: sendUdp cuts nothing off. The frame has the message, the server's address, both ports, and
-- the two lengths.
pub Reach-Frames :
    {m : Memory} {t : Tftp} (n : Net)
    → Reach (initial m) t
    → Frames n.serverip n.sent t.sent (put_datagrams t.sent n).sent
Reach-Frames {t = t} n r =
    put_datagrams-Frames t.sent n (messages-Fit t.sent (Reach-Inv r).messages)
