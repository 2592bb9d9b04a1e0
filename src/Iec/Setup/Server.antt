-- ===== src/Iec/Setup/Server.antt =====
-- How setup asks and waits for the server's MAC address (c64iec.ino).
use c64iec.Base.{
  ℕ, ◌≡◌, ◌<◌, refl, sym, ap, ap₂, ◌∙◌, Bool, true, false, Bool-cases, inl, inr, ◌&&◌, Option, none,
  some, List, [], ◌∷◌, leb, ◌==◌, if◌then◌else◌, Memory, slice, ◌+◌, arith,
}
use c64iec.Net.{Net, equal_ip, eth_type_is_arp_and_my_ip, client_arp_whohas}
use c64iec.Net.Loop.{packet_loop}
use c64iec.Net.Arp.{packet_loop-learns, packet_loop-addresses}
use c64iec.Net.ArpRequest.{arp_request, client_arp_whohas-sent}
use c64iec.Net.Keeps.{packet_loop-Kept, whohas-Kept}
use c64iec.Iec.Probe.{Received, fetch}
use c64iec.Dhcp.{Dhcp}
use c64iec.Dhcp.Machine.{Round, dhcp_setup}
use c64iec.Iec.Machine.{Machine, run}
use c64iec.Iec.Setup.{
  Firmware, begin, await_server, fetch_server, known_server, on_line, setup, setup_pins,
  clear_iobuf,
}

-- Four bytes of a frame that are an address.
abbrev has_ip : Memory → ℕ → Memory → Bool
has_ip b a x = b a == x 0 && b (a + 1) == x 1 && b (a + 2) == x 2 && b (a + 3) == x 3

-- An ARP packet from the server for the firmware.
unfoldable pub is_reply : Memory → Memory → Received → Bool
is_reply myip serverip p =
    (leb 41 p.plen && p.frame 12 == 8 && p.frame 13 == 6 && has_ip p.frame 38 myip)
    && has_ip p.frame 28 serverip

-- The MAC address in the first of them.
unfoldable pub first_reply : Memory → Memory → List Received → Option (List ℕ)
unfolding is_reply
first_reply myip serverip [] = none
first_reply myip serverip (p ∷ ps) =
    let rest = first_reply myip serverip ps in
    if is_reply myip serverip p then some (slice p.frame 22 6) else rest

is_reply_lem :
    (p : Received) (n : Net)
    → is_reply n.myip n.serverip p
      ≡ (eth_type_is_arp_and_my_ip p.plen (fetch p n) && equal_ip 28 n.serverip (fetch p n))
unfolding is_reply eth_type_is_arp_and_my_ip
is_reply_lem p n = refl

-- The MAC address that is known at the end.
abbrev pub server_mac : Option Net → Option (List ℕ)
server_mac none = none
server_mac (some n) = some (slice n.servermacaddr 0 6)

-- The state behind a packet.
abbrev behind : Received → Net → Net
behind p n = (packet_loop none none none p.plen (fetch p n)).0

await_server-next :
    (p : Received) (ps : List Received) (n : Net)
    → n.servermac_known ≡ 0
    → await_server (p ∷ ps) n ≡ await_server ps (behind p n)
unfolding await_server
await_server-next p ps n h = rw h refl

await_server-known :
    (ps : List Received) (n : Net) → n.servermac_known ≡ 1 → await_server ps n ≡ some n
unfolding await_server
await_server-known [] n h = rw h refl
await_server-known (p ∷ ps) n h = rw h refl

first_reply-next :
    (a b : Memory) (p : Received) (ps : List Received)
    → first_reply a b (p ∷ ps)
      ≡ (if is_reply a b p then some (slice p.frame 22 6) else first_reply a b ps)
unfolding first_reply
first_reply-next a b p ps = refl

arrived :
    (p : Received) (n : Net) → eth_type_is_arp_and_my_ip p.plen (fetch p n) ≡ true → 0 < p.plen
unfolding eth_type_is_arp_and_my_ip
arrived p n h = ground arith

-- What a packet that is no reply leaves.
record Waits (n k : Net) : Type 0 where
  myip : k.myip ≡ n.myip
  serverip : k.serverip ≡ n.serverip
  unknown : k.servermac_known ≡ n.servermac_known

and_false : (a b : Bool) → a ≡ true → (a && b) ≡ false → b ≡ false
and_false true b h k = k
and_false false b h k = absurd (cc)

and_true : (a b : Bool) → (a && b) ≡ true → (a ≡ true) × (b ≡ true)
and_true true b h = (refl, h)
and_true false b h = absurd (cc)

other-Waits : (p : Received) (n : Net) → is_reply n.myip n.serverip p ≡ false → Waits n (behind p n)
other-Waits p n other =
    let split = sym (is_reply_lem p n) ∙ other in
    elim (Bool-cases (eth_type_is_arp_and_my_ip p.plen (fetch p n))) [
      | inl is_arp ↦
          let e : equal_ip 28 n.serverip (fetch p n) ≡ false = and_false _ _ is_arp split in
          let some_bytes = arrived p n is_arp in
          let learns = packet_loop-learns none none none p.plen (fetch p n) some_bytes is_arp in
          let kept = packet_loop-addresses none none none p.plen (fetch p n) some_bytes is_arp in
          record { myip = kept.0; serverip = kept.1; unknown = learns.1 ∙ rw e refl }
      | inr no_arp ↦
          let kept = packet_loop-Kept p.plen (fetch p n) no_arp in
          record { myip = kept.myip; serverip = kept.serverip; unknown = kept.known }
    ]

reply-known :
    (p : Received) (n : Net)
    → is_reply n.myip n.serverip p ≡ true
    → ((behind p n).servermac_known ≡ 1)
      × (slice (behind p n).servermacaddr 0 6 ≡ slice p.frame 22 6)
reply-known p n reply =
    let both = sym (is_reply_lem p n) ∙ reply in
    let (is_arp, e) = and_true _ _ both in
    let learns = packet_loop-learns none none none p.plen (fetch p n) (arrived p n is_arp) is_arp in
    (learns.1 ∙ rw e refl, learns.2 ∙ rw e refl)

await_server-first_reply :
    (ps : List Received) (n : Net)
    → n.servermac_known ≡ 0
    → server_mac (await_server ps n) ≡ first_reply n.myip n.serverip ps
await_server-first_reply [] n h = unfold await_server first_reply in rw h refl
await_server-first_reply (p ∷ ps) n h =
    rw (await_server-next p ps n h, first_reply-next n.myip n.serverip p ps)
      (elim (Bool-cases (is_reply n.myip n.serverip p)) [
        | inl reply ↦
            let (known, mac) = reply-known p n reply in
            rw (reply, await_server-known ps (behind p n) known) (ap some mac)
        | inr other ↦
            let w = other-Waits p n other in
            rw other (
              await_server-first_reply ps (behind p n) (w.unknown ∙ h)
              ∙ ap₂ (λ a b. first_reply a b ps) w.myip w.serverip)
      ])

fetch_server-first_reply :
    (ps : List Received) (n : Net)
    → n.servermac_known ≡ 0
    → server_mac (fetch_server ps n) ≡ first_reply n.myip n.serverip ps
unfolding fetch_server
fetch_server-first_reply ps n h =
    let k = whohas-Kept n.serverip n in
    await_server-first_reply ps (client_arp_whohas n.serverip n) (k.known ∙ h)
    ∙ ap₂ (λ a b. first_reply a b ps) k.myip k.serverip

-- The MAC address of the server that the firmware has when setup ends.
abbrev pub firmware_mac : Option Firmware → Option (List ℕ)
firmware_mac none = none
firmware_mac (some f) = some (slice f.dhcp.net.servermacaddr 0 6)

known-mac :
    (m : Machine) (d : Dhcp) (o : Option Net)
    → firmware_mac (on_line m (known_server d o)) ≡ server_mac o
known-mac m d none = refl
known-mac m d (some n) = refl

-- The drive as setup leaves it.
abbrev pub reset : Machine → Machine
reset m = record {
  bus = run setup_pins m.bus;
  drive = record m.drive { iobuf = clear_iobuf m.drive.iobuf };
}

-- When DHCP ends with an address and the server's MAC address is not known yet, setup sends one frame
-- behind those of DHCP, the ARP request for the server's address, and waits from the state behind it.
-- It waits for the first ARP packet for the firmware's address whose sender has the server's address,
-- whatever comes before it, and ends with the MAC address of that sender. When no such packet comes,
-- it waits for ever.
pub setup-first_reply :
    (start : ℕ) (rounds : List Round) (ps : List Received) (f : Firmware) (d : Dhcp)
    → dhcp_setup start rounds (record f.dhcp { net = begin f.dhcp.net }) ≡ some (d, true)
    → d.net.servermac_known ≡ 0
    → (asking : Net) × (asking.sent ≡ arp_request d.net.serverip d.net ∷ d.net.sent)
      × (setup start rounds ps f
          ≡ on_line (reset f.machine) (known_server d (await_server ps asking)))
      × (firmware_mac (setup start rounds ps f) ≡ first_reply d.net.myip d.net.serverip ps)
unfolding setup fetch_server
setup-first_reply start rounds ps f d configured unknown = (
  client_arp_whohas d.net.serverip d.net,
  client_arp_whohas-sent d.net.serverip d.net,
  rw configured refl,
  rw configured (known-mac _ d (fetch_server ps d.net) ∙ fetch_server-first_reply ps d.net unknown),
)
