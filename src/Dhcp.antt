-- ===== src/Dhcp.antt =====
-- EtherCard/dhcp.cpp: the DHCP client. Dhcp has the statics of the file and the state of the network.
-- The value of millis() at each call, and what packetReceive leaves, are inputs. An array of the
-- message is a range of the frame: DHCPdata starts at byte 42 and the options at byte 282.
pub mod Options
pub mod Offer
pub mod Machine
pub mod Fsm
mod Tests
use c64iec.Base.{
  ℕ, zero, suc, ◌+◌, ◌*◌, ◌/◌, ◌%◌, Bool, true, false, ◌&&◌, ◌||◌, not, List, [], ◌∷◌, ◌++◌, ltb,
  ◌==◌, if◌then◌else◌, length, Memory, copy, fill, slice, u8, word, sub16,
}
use c64iec.Net.{Net, ◌▸◌, poke, paste, load, all_ones, udp_prepare, udp_transmit}

pub data State : Type 0 where
  bad init select request bound renew rebind : State

abbrev pub same_state : State → State → Bool
same_state bad bad = true
same_state init init = true
same_state select select = true
same_state request request = true
same_state bound bound = true
same_state renew renew = true
same_state rebind rebind = true
same_state _ _ = false

abbrev pub msg_discover : ℕ
msg_discover = 1

abbrev pub msg_offer : ℕ
msg_offer = 2

abbrev pub msg_request : ℕ
msg_request = 3

abbrev pub msg_ack : ℕ
msg_ack = 5

abbrev pub msg_nack : ℕ
msg_nack = 6

pub record Dhcp : Type 0 where
  pub net : Net
  pub state : State
  pub hostname : List ℕ
  pub current_xid : ℕ
  pub lease_start : ℕ
  pub lease_time : ℕ

abbrev pub u32 : ℕ → ℕ
u32 n = n % 4294967296

-- The bytes of a 32-bit word in the order of the machine, the low byte first.
abbrev pub little : ℕ → List ℕ
little x = u8 x ∷ u8 (x / 256) ∷ u8 (x / 65536) ∷ u8 (x / 16777216) ∷ []

pub dhcp_valid : Dhcp → Bool
dhcp_valid d = same_state d.state bound || same_state d.state renew || same_state d.state rebind

-- The bytes that addToBuf and addBytes write, from the magic cookie on.
pub message_options : ℕ → Dhcp → List ℕ
message_options kind d =
    99
    ∷ 130
    ∷ 83
    ∷ 99
    ∷ 53
    ∷ 1
    ∷ kind
    ∷ 61
    ∷ 7
    ∷ 1
    ∷ (slice d.net.mymac 0 6
        ++ (12
            ∷ u8 (length d.hostname)
            ∷ (d.hostname
                ++ ((if kind == msg_request
                      then 50 ∷ 4 ∷ (slice d.net.myip 0 4 ++ (54 ∷ 4 ∷ slice d.net.dhcpip 0 4))
                      else [])
                    ++ (55 ∷ 3 ∷ 1 ∷ 3 ∷ 6 ∷ 255 ∷ [])))))

-- The frame before udpTransmit.
pub dhcp_message : ℕ → Bool → Dhcp → Net
unfolding message_options
dhcp_message kind flg d =
    udp_prepare 68 d.net.myip 67 (record d.net { buffer = fill 0 0 282 d.net.buffer })
    ▸ paste 6 d.net.mymac 6
    ▸ paste 0 all_ones 6
    ▸ poke 17 0x82
    ▸ poke 23 17
    ▸ paste 30 (if flg then all_ones else d.net.dhcpip) 4
    ▸ poke 42 1
    ▸ poke 43 1
    ▸ poke 44 6
    ▸ poke 45 0
    ▸ load 46 (little d.current_xid)
    ▸ poke 50 0
    ▸ poke 51 0
    ▸ poke 52 (if flg then 0x80 else 0)
    ▸ poke 53 0
    ▸ paste 70 d.net.mymac 6
    ▸ load 278 (message_options kind d)

pub dhcp_send : ℕ → Bool → Dhcp → Dhcp
unfolding dhcp_message
dhcp_send kind flg d = if not d.net.link_up then d else record d {
  net = udp_transmit (236 + length (message_options kind d)) (dhcp_message kind flg d);
}

-- What an option of an offer does; `at` is the index of its value in the frame.
pub take_option : ℕ → ℕ → Dhcp → Dhcp
take_option option at d =
    let b = d.net.buffer in
    if option == 1
    then record d { net = record d.net { mymask = copy 0 b at 4 d.net.mymask } }
    else if option == 3
    then record d { net = record d.net { gwip = copy 0 b at 4 d.net.gwip } }
    else if option == 6
    then record d { net = record d.net { dnsip = copy 0 b at 4 d.net.dnsip } }
    else if option == 51
    then record d {
      lease_time =
          u32 ((b at * 16777216 + b (at + 1) * 65536 + b (at + 2) * 256 + b (at + 3)) * 1000);
    }
    else if option == 54
    then record d { net = record d.net { dhcpip = copy 0 b at 4 d.net.dhcpip } }
    else d

-- The do loop at the index ptr. Each round advances ptr by 2 at least, so len rounds are enough.
pub option_loop : ℕ → ℕ → ℕ → Dhcp → Dhcp
unfolding take_option
option_loop zero ptr len d = d
option_loop (suc fuel) ptr len d =
    let next = ptr + 2 + d.net.buffer (ptr + 1) in
    let d' = take_option (d.net.buffer ptr) (ptr + 2) d in
    let rest = option_loop fuel next len d' in if ltb next len then rest else d'

pub parse_dhcpoffer : ℕ → Dhcp → Dhcp
unfolding option_loop
parse_dhcpoffer len d = option_loop (suc len) 282 len (record d {
  net = record d.net {
    myip = copy 0 d.net.buffer 58 4 d.net.myip;
    serverip = copy 0 d.net.buffer 62 4 d.net.serverip;
  };
})

abbrev pub ack_state : State → State
ack_state request = request
ack_state renew = bound
ack_state rebind = bound
ack_state _ = bad

-- What the message type says in the current state.
pub answer_state : ℕ → State → State
answer_state kind s =
    if kind == msg_offer
    then select
    else if kind == msg_ack
    then ack_state s
    else if kind == msg_nack
    then init
    else bad

-- The while loop at bp = sp + i. It moves on by *(bp + 1) + 1, so `offset` rounds are enough.
pub scan : ℕ → ℕ → ℕ → Memory → State → State
unfolding answer_state
scan zero i offset b s = bad
scan (suc fuel) i offset b s =
    let rest = scan fuel (i + b (282 + i + 1) + 1) offset b s in
    if b (282 + i) == 255 || not (ltb i offset)
    then bad
    else if b (282 + i) == 53
    then answer_state (b (282 + i + 2)) s
    else rest

abbrev pub read_little : Memory → ℕ → ℕ
read_little b a = b a + b (a + 1) * 256 + b (a + 2) * 65536 + b (a + 3) * 16777216

pub check_for_dhcp_answer : ℕ → Dhcp → State
unfolding scan
check_for_dhcp_answer len d =
    let b = d.net.buffer in
    let offset = sub16 (word (b 16) (b 17)) 268 in
    if ltb 42 len && b 35 == 67 && b 42 == 2 && read_little b 46 == d.current_xid
    then scan (suc offset) 0 offset b d.state
    else bad
