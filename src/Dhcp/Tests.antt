-- ===== src/Dhcp/Tests.antt =====
-- Answers of a DHCP server (EtherCard/dhcp.cpp).
use c64iec.Base.{slice, ◌<◌, ◌≡◌, ◌⊎◌, refl, true, [], arith, Memory, write}
use c64iec.Dhcp.{
  parse_dhcpoffer, bad, bound, request, renew, rebind, Dhcp, scan, check_for_dhcp_answer,
  read_little,
}
use c64iec.Dhcp.Machine.{Round, fsm_switch}
use c64iec.Dhcp.Offer.{parse_dhcpoffer-addresses}
use c64iec.Dhcp.Options.{check_for_dhcp_answer-misread}
use c64iec.Dhcp.Fsm.{fsm_switch-bound}
use c64iec.Net.Tests.{net}

-- An acknowledgement with transaction number 1: the options are the message type 5 and the end.
abbrev ack_frame : Memory
ack_frame = write 17 244 (
    write 16 1 (
      write 35 67 (
        write 42 2
          (write 46 1 (write 282 53 (write 283 1 (write 284 5 (write 285 255 (λ i. 0)))))))))

abbrev asking : Dhcp
asking = record {
  net = record net { buffer = ack_frame };
  state = request;
  hostname = [];
  current_xid = 1;
  lease_start = 0;
  lease_time = 1000;
}

abbrev at_300 : Round
at_300 = record {
  link = true;
  frame = ack_frame;
  len = 300;
  clock = 300;
  first = 300;
  second = 300;
}

-- The server's address 10.0.0.255 comes before the message type.
abbrev hidden : Dhcp
hidden = record asking {
  net = record net {
    buffer = write 282 54 (
        write 283 4
          (write 284 10 (write 287 255 (write 288 53 (write 289 1 (write 290 5 ack_frame))))));
  };
}

check_for_dhcp_answer-misread_example : check_for_dhcp_answer 300 hidden ≡ bad
check_for_dhcp_answer-misread_example =
    check_for_dhcp_answer-misread 300 4 hidden (omega arith) refl refl

bound_now : (fsm_switch request 300 at_300 asking).state ≡ bound
unfolding fsm_switch check_for_dhcp_answer scan
bound_now = refl

fsm_switch-bound_example :
    ((request ≡ request) ⊎ (request ≡ renew) ⊎ (request ≡ rebind))
    × ((42 < 300) × (ack_frame 35 ≡ 67) × (ack_frame 42 ≡ 2) × (read_little ack_frame 46 ≡ 1))
    × ((fsm_switch request 300 at_300 asking).lease_start ≡ 300)
fsm_switch-bound_example = fsm_switch-bound request 300 at_300 asking refl (ground arith) bound_now

abbrev holding : Dhcp
holding = record asking { state = bound; lease_start = 300 }

parse_dhcpoffer-addresses_example :
    (slice (parse_dhcpoffer 290 asking).net.myip 0 4 ≡ slice ack_frame 58 4)
    × (slice (parse_dhcpoffer 290 asking).net.serverip 0 4 ≡ slice ack_frame 62 4)
parse_dhcpoffer-addresses_example = parse_dhcpoffer-addresses 290 asking
