-- ===== src/Iec/Setup/Tests.antt =====
-- A setup: an address, and the server's answer (c64iec.ino).
use c64iec.Base.{ℕ, ◌≡◌, refl, true, none, some, Option, List, [], ◌∷◌, Memory, write, store, slice}
use c64iec.Net.ArpRequest.{arp_request}
use c64iec.Net.{Net, eth_type_is_arp_and_my_ip, eth_type_is_ip_and_my_ip, udp_prepare, udp_transmit}
use c64iec.Net.Loop.{packet_loop}
use c64iec.Net.Tests.{net}
use c64iec.Dhcp.{Dhcp, init}
use c64iec.Dhcp.Machine.{Round, dhcp_setup}
use c64iec.Tftp.{initial}
use c64iec.Tftp.Tests.{no_bytes}
use c64iec.Iec.Probe.{Received}
use c64iec.Iec.Setup.{Firmware, begin, setup, on_line, known_server, await_server}
use c64iec.Iec.Setup.Server.{first_reply, firmware_mac, reset, setup-first_reply}

-- A message of the kind, with transaction number 1: the address 10.0.0.1, and the server 10.0.0.2.
abbrev message : ℕ → Memory
message kind = write 17 244 (
    write 16 1 (
      write 23 17 (
        write 35 67 (
          write 42 2 (
            write 46 1 (
              store 58 (10 ∷ 0 ∷ 0 ∷ 1 ∷ 10 ∷ 0 ∷ 0 ∷ 2 ∷ [])
                (store 282 (53 ∷ 1 ∷ kind ∷ 255 ∷ []) no_bytes)))))))

abbrev round : ℕ → Round
round kind = record {
  link = true;
  frame = message kind;
  len = 300;
  clock = 0;
  first = 0;
  second = 1;
}

abbrev rounds : List Round
rounds = round 0 ∷ round 2 ∷ round 5 ∷ []

abbrev start : Firmware
start = record {
  machine = record {
    bus = record { tick = 0; actions = []; output = none };
    drive = record {
      tftp = initial no_bytes;
      iobuf = no_bytes;
      tftp_filename = no_bytes;
      device_mode = 0;
      secondary = 0;
      sent_to_c64 = 0;
      puts = [];
    };
  };
  dhcp = record {
    net = net;
    state = init;
    hostname = [];
    current_xid = 0;
    lease_start = 0;
    lease_time = 0;
  };
  dhcp_active = 0;
}

abbrev or_start : Option (Dhcp × c64iec.Base.Bool) → Dhcp
or_start none = start.dhcp
or_start (some (d, b)) = d

abbrev leased : Dhcp
leased = or_start (dhcp_setup 0 rounds (record start.dhcp { net = begin net }))

leased-dhcp_setup :
    dhcp_setup 0 rounds (record start.dhcp { net = begin net }) ≡ some (leased, true)
unfolding dhcp_setup packet_loop store eth_type_is_arp_and_my_ip eth_type_is_ip_and_my_ip
    udp_transmit udp_prepare
leased-dhcp_setup = refl

leased-unknown : leased.net.servermac_known ≡ 0
unfolding dhcp_setup packet_loop store eth_type_is_arp_and_my_ip eth_type_is_ip_and_my_ip
    udp_transmit udp_prepare
leased-unknown = refl

-- Nothing, and then an ARP reply of the server.
abbrev answers : List Received
answers =
    record { frame = no_bytes; plen = 0 }
    ∷ record {
      frame = store 12 (8 ∷ 6 ∷ []) (
          store 22 (1 ∷ 2 ∷ 3 ∷ 4 ∷ 5 ∷ 6 ∷ 10 ∷ 0 ∷ 0 ∷ 2 ∷ [])
            (store 38 (10 ∷ 0 ∷ 0 ∷ 1 ∷ []) no_bytes));
      plen = 42;
    }
    ∷ []

setup-first_reply_example :
    (asking : Net) × (asking.sent ≡ arp_request leased.net.serverip leased.net ∷ leased.net.sent)
    × (setup 0 rounds answers start
        ≡ on_line (reset start.machine) (known_server leased (await_server answers asking)))
    × (firmware_mac (setup 0 rounds answers start)
        ≡ first_reply leased.net.myip leased.net.serverip answers)
setup-first_reply_example =
    setup-first_reply 0 rounds answers start leased leased-dhcp_setup leased-unknown

learnt : first_reply leased.net.myip leased.net.serverip answers ≡ some (1 ∷ 2 ∷ 3 ∷ 4 ∷ 5 ∷ 6 ∷ [])
unfolding first_reply dhcp_setup packet_loop store eth_type_is_arp_and_my_ip
    eth_type_is_ip_and_my_ip udp_transmit udp_prepare slice
learnt = refl

-- The request that goes out, byte by byte.
asked :
    arp_request leased.net.serverip leased.net
    ≡ 255 ∷ 255 ∷ 255 ∷ 255 ∷ 255 ∷ 255 ∷ 0x42 ∷ 0x42 ∷ 0x42 ∷ 1 ∷ 2 ∷ 3 ∷ 8 ∷ 6 ∷ 0 ∷ 1 ∷ 8 ∷ 0 ∷ 6
      ∷ 4 ∷ 0 ∷ 1 ∷ 0x42 ∷ 0x42 ∷ 0x42 ∷ 1 ∷ 2 ∷ 3 ∷ 10 ∷ 0 ∷ 0 ∷ 1 ∷ 0 ∷ 0 ∷ 0 ∷ 0 ∷ 0 ∷ 0 ∷ 10 ∷ 0
      ∷ 0 ∷ 2 ∷ []
unfolding arp_request dhcp_setup packet_loop store eth_type_is_arp_and_my_ip
    eth_type_is_ip_and_my_ip udp_transmit udp_prepare slice
asked = refl
