-- ===== src/Dhcp/Machine.antt =====
-- The state machine and the lease timers of EtherCard/dhcp.cpp.
use c64iec.Base.{
  ℕ, ◌+◌, ◌-◌, ◌*◌, ◌/◌, ◌%◌, Bool, true, false, ◌||◌, not, Option, none, some, List, [], ◌∷◌, ltb,
  leb, ◌==◌, if◌then◌else◌, Memory, fill, u8,
}
use c64iec.Net.{set_gw_ip}
use c64iec.Net.Loop.{packet_loop}
use c64iec.Dhcp.{
  State, bad, init, select, request, bound, renew, rebind, Dhcp, same_state, u32, msg_discover,
  msg_request, dhcp_send, check_for_dhcp_answer, parse_dhcpoffer,
}

-- One round of the loop of dhcp_fsm: whether the link is up, what packetReceive leaves and returns,
-- and the values of millis() that the round may read, in their order.
pub record Round : Type 0 where
  pub link : Bool
  pub frame : Memory
  pub len : ℕ
  pub clock : ℕ
  pub first : ℕ
  pub second : ℕ

-- The branches that wait for an answer to a renewal.
unfoldable pub renewal : State → Round → Dhcp → Dhcp
renewal rc r d =
    if same_state rc bound
    then record d { state = bound; lease_start = r.first }
    else if same_state rc init
    then record d { state = init }
    else d

abbrev start_over : Round → Dhcp → Dhcp
start_over r d = record d {
  net = record d.net { myip = fill 0 0 4 d.net.myip; dhcpip = fill 0 0 4 d.net.dhcpip };
  current_xid = u32 (r.first * 65536 + r.second);
}

-- The switch, by the state.
unfoldable pub fsm_switch : State → ℕ → Round → Dhcp → Dhcp
unfolding dhcp_send check_for_dhcp_answer parse_dhcpoffer renewal
fsm_switch init len r d = record (dhcp_send msg_discover true (start_over r d)) {
  state = select;
  lease_start = 0;
}
fsm_switch select len r d =
    if same_state (check_for_dhcp_answer len d) select
    then record (dhcp_send msg_request false (parse_dhcpoffer len d)) { state = request }
    else record d { state = init }
fsm_switch request len r d =
    if same_state (check_for_dhcp_answer len d) request
    then record d { state = bound; lease_start = r.first }
    else record d { state = init }
fsm_switch bound len r d = d
fsm_switch renew len r d = renewal (check_for_dhcp_answer len d) r d
fsm_switch rebind len r d = renewal (check_for_dhcp_answer len d) r d
fsm_switch bad len r d = record d { state = init }

-- The frame is received and passes the tests, or the round ends with `continue`. No callback is
-- registered.
pub fsm_packet : Round → Dhcp → Dhcp
unfolding fsm_switch
fsm_packet r d =
    let (net, position) = packet_loop none none none r.len (record d.net { buffer = r.frame }) in
    let d' = record d { net = net } in
    let switched = fsm_switch d.state r.len r d' in
    if r.len == 0
    then record d { net = record d.net { buffer = r.frame } }
    else if ltb 0 position || not (net.buffer 23 == 17)
    then d'
    else switched

pub fsm_round : Round → Dhcp → Dhcp
unfolding fsm_packet
fsm_round r d =
    let d' = record d { net = record d.net { link_up = r.link } } in
    if not r.link
    then d'
    else if same_state d.state init
    then fsm_switch init 0 r d'
    else fsm_packet r d'

-- while (dhcpState != DHCP_STATE_BOUND && millis() < end); none if it still runs when the rounds end.
pub fsm_loop : List Round → ℕ → Dhcp → Option Dhcp
unfolding fsm_round
fsm_loop [] end d = if same_state d.state bound then some d else none
fsm_loop (r ∷ rs) end d =
    let rest = fsm_loop rs end (fsm_round r d) in
    if same_state d.state bound || not (ltb r.clock end) then some d else rest

-- The end of dhcp_fsm. The broadcast filter of the controller is left out.
abbrev fsm_result : Option Dhcp → Option (Dhcp × Bool)
fsm_result none = none
fsm_result (some d) =
    if d.net.myip 0 == 0
    then some (d, false)
    else if d.net.gwip 0 == 0
    then some (d, true)
    else some (record d { net = set_gw_ip d.net.gwip d.net }, true)

-- `start` is the value of millis() at the start.
pub dhcp_fsm : ℕ → List Round → Dhcp → Option (Dhcp × Bool)
unfolding fsm_loop
dhcp_fsm start rounds d = fsm_result (fsm_loop rounds (u32 (start + 20000)) d)

-- The times of dhcpLease, after the test for a counter that has wrapped.
pub record Times : Type 0 where
  pub renew_at : ℕ
  pub rebind_at : ℕ
  pub restart_at : ℕ
  pub new_start : ℕ

abbrev pub plain_times : Dhcp → Times
plain_times d = record {
  renew_at = u32 (d.lease_start + d.lease_time / 2);
  rebind_at = u32 (d.lease_start + d.lease_time / 8 * 7);
  restart_at = u32 (d.lease_start + d.lease_time);
  new_start = d.lease_start;
}

pub lease_times : ℕ → Dhcp → Times
lease_times now d =
    let again = d.lease_time - (4294967295 - d.lease_start) % d.lease_time in
    let t = plain_times d in
    if leb d.lease_start now
    then t
    else if ltb now again
    then record t {
      renew_at = if ltb (d.lease_time / 2) now then again - d.lease_time / 2 else t.renew_at;
      rebind_at = if ltb (d.lease_time / 8) now then again - d.lease_time / 8 else t.rebind_at;
      restart_at = again;
    }
    else record t { new_start = again }

-- The switch of dhcpLease; the Boolean says whether dhcp_fsm is to run.
pub lease_switch : State → ℕ → Times → Dhcp → Dhcp × Bool
unfolding dhcp_send
lease_switch bound now t d = ((if ltb t.renew_at now then record d { state = renew } else d), false)
lease_switch renew now t d = (
  dhcp_send msg_request false (if ltb t.rebind_at now then record d { state = rebind } else d),
  true,
)
lease_switch rebind now t d = (
  (if ltb t.restart_at now then record d { state = init } else dhcp_send msg_request true d),
  true,
)
lease_switch _ now t d = (d, false)

unfoldable pub dhcp_lease : ℕ → ℕ → List Round → Dhcp → Option (Dhcp × Bool)
unfolding lease_times lease_switch dhcp_fsm
dhcp_lease now start rounds d =
    let t = lease_times now d in
    let (d', run) = lease_switch d.state now t (record d { lease_start = t.new_start }) in
    let result = dhcp_fsm start rounds d' in
    if d.lease_start == 0 then some (d, false) else if run then result else some (d', true)

-- dhcpSetup() with the default name, of which the last two characters come from mymac[5].
unfoldable pub dhcp_setup : ℕ → List Round → Dhcp → Option (Dhcp × Bool)
unfolding dhcp_fsm
dhcp_setup start rounds d = dhcp_fsm start rounds (record d {
  hostname =
      b'A'
      ∷ b'r'
      ∷ b'd'
      ∷ b'u'
      ∷ b'i'
      ∷ b'n'
      ∷ b'o'
      ∷ b'-'
      ∷ u8 (b'A' + d.net.mymac 5 / 16)
      ∷ u8 (b'A' + d.net.mymac 5 % 16)
      ∷ [];
  state = init;
})
