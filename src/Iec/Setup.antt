-- ===== src/Iec/Setup.antt =====
-- setup (c64iec.ino): the pins, the address of the firmware by DHCP, and the MAC address of the server.
-- Output on the serial line and the pins for debugging are left out.
pub mod Server
mod Tests
use c64iec.Base.{
  ℕ, Bool, true, false, Option, none, some, List, [], ◌∷◌, ◌==◌, if◌then◌else◌, Memory, copy, fill,
  get_or,
}
use c64iec.Net.{Net, send_arp_request, server_mac_known}
use c64iec.Net.Loop.{packet_loop}
use c64iec.Dhcp.{Dhcp}
use c64iec.Dhcp.Machine.{Round, dhcp_setup}
use c64iec.Iec.Bus.{
  M, ◌>>◌, act, atn, clock, data_pin, input, pull_clock, push_clock, release_clock, pull_data,
}
use c64iec.Iec.Machine.{Machine, run}
use c64iec.Iec.Probe.{Received, fetch}

pub record Firmware : Type 0 where
  pub machine : Machine
  pub dhcp : Dhcp
  pub dhcp_active : ℕ

abbrev pub mymac : List ℕ
mymac = 0x42 ∷ 0x42 ∷ 0x42 ∷ 1 ∷ 2 ∷ 3 ∷ []

pub clear_iobuf : Memory → Memory
clear_iobuf m = fill 0 0 257 m

-- The digitalWrite behind pull_clock finds CLOCK an output, as push_clock() leaves it.
abbrev pub setup_pins : M (Unit {0})
setup_pins =
    act (input atn)
    >> act (input clock)
    >> act (input data_pin)
    >> act pull_clock
    >> act push_clock
    >> act release_clock
    >> act pull_data

-- ether.begin sets the address; Stash::initMap and the driver touch nothing of Net.
abbrev pub begin : Net → Net
begin n = record n { mymac = copy 0 (λ i. get_or mymac i 0) 0 6 n.mymac }

-- while(!ether.serverMacKnown()) ether.packetLoop(ether.packetReceive()); none if it still waits behind
-- the packets.
pub await_server : List Received → Net → Option Net
await_server [] n = if server_mac_known n == 0 then none else some n
await_server (p ∷ ps) n =
    let rest = await_server ps (packet_loop none none none p.plen (fetch p n)).0 in
    if server_mac_known n == 0 then rest else some n

-- ether.sendArpRequest(ether.serverip), and the loop behind it.
pub fetch_server : List Received → Net → Option Net
unfolding await_server
fetch_server ps n = await_server ps (send_arp_request n.serverip n)

abbrev pub known_server : Dhcp → Option Net → Option (Dhcp × ℕ)
known_server d none = none
known_server d (some n) = some (record d { net = n }, 1)

abbrev configured : List Received → ℕ → Option (Dhcp × Bool) → Option (Dhcp × ℕ)
configured ps active none = none
configured ps active (some (d, false)) = some (d, active)
configured ps active (some (d, true)) = known_server d (fetch_server ps d.net)

-- The state of the network and dhcp_active behind the calls of the network library.
pub setup_network : ℕ → List Round → List Received → ℕ → Dhcp → Option (Dhcp × ℕ)
unfolding fetch_server
setup_network start rounds ps active d =
    configured ps active (dhcp_setup start rounds (record d { net = begin d.net }))

abbrev pub on_line : Machine → Option (Dhcp × ℕ) → Option Firmware
on_line m none = none
on_line m (some (d, active)) = some (record { machine = m; dhcp = d; dhcp_active = active })

pub setup : ℕ → List Round → List Received → Firmware → Option Firmware
unfolding setup_network clear_iobuf
setup start rounds ps f =
    let pins = run setup_pins f.machine.bus in
    let drive = record f.machine.drive { iobuf = clear_iobuf f.machine.drive.iobuf } in
    on_line (record { bus = pins; drive = drive })
      (setup_network start rounds ps f.dhcp_active f.dhcp)
