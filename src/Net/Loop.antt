-- ===== src/Net/Loop.antt =====
-- packetLoop (EtherCard/tcpip.cpp). The callbacks that a sketch may register are parameters, none
-- where it has registered none, as this firmware; a callback may change the state.
use c64iec.Base.{
  ℕ, ◌+◌, ◌*◌, ◌/◌, ◌%◌, Bool, true, false, ◌&&◌, ◌||◌, not, Option, none, some, ltb, leb, ◌==◌,
  if◌then◌else◌, u8, u16, high, sub16,
}
use c64iec.Net.{
  Net, ◌▸◌, poke, has_bit, eth_type_is_arp_and_my_ip, eth_type_is_ip_and_my_ip,
  check_ip_message_is_from, client_arp_whohas, client_store_server_mac, client_store_gw_mac,
  make_arp_answer_from_request, make_echo_reply_from_request,
}
use c64iec.Net.Tcp.{
  client_syn, get_tcp_data_len, make_tcp_ack_from_any, make_tcp_ack_with_data_noflags,
  make_tcp_synack_from_syn,
}

-- client_tcp_result_cb: the session, the status, the position and the length of the data.
abbrev pub ResultCb : Type 0
ResultCb = ℕ → ℕ → ℕ → ℕ → Net → Net × ℕ

abbrev pub DatafillCb : Type 0
DatafillCb = ℕ → Net → Net × ℕ

abbrev call_result : Option ResultCb → ℕ → ℕ → ℕ → ℕ → Net → Net × ℕ
call_result none fd status pos len n = (n, 0)
call_result (some cb) fd status pos len n = cb fd status pos len n

abbrev call_datafill : Option DatafillCb → ℕ → Net → Net × ℕ
call_datafill none fd n = (n, 0)
call_datafill (some cb) fd n = cb fd n

abbrev call_icmp : Option (Net → Net) → Net → Net
call_icmp none n = n
call_icmp (some cb) n = cb n

abbrev flags : Net → ℕ
flags n = n.buffer 47

-- The branch for no packet.
unfoldable pub idle : Net → Net
idle n =
    (if (has_bit 0 n.waitgwmac || has_bit 2 n.waitgwmac) && n.delaycnt == 0 && n.link_up
      then client_arp_whohas n.gwip n
      else n)
    ▸ (λ k. record k { delaycnt = u16 (k.delaycnt + 1) })
    ▸ (λ k.
        if k.tcp_client_state == 1 && has_bit 1 k.waitgwmac
        then (let l = u8 (k.tcpclient_src_port_l + 1) in
            client_syn (u8 (k.tcp_fd * 32 + l % 32)) k.tcp_client_port_h k.tcp_client_port_l
              (record k { tcp_client_state = 2; tcpclient_src_port_l = l }))
        else k)

-- The branch for an ARP packet.
unfoldable pub arp : Net → Net
arp n =
    (client_store_server_mac n).0
    ▸ (λ k. if k.buffer 21 == 1 then make_arp_answer_from_request k else k)
    ▸ (λ k.
        if has_bit 3 k.waitgwmac && k.buffer 21 == 2
        then (let (k', stored) = client_store_gw_mac k in
            if stored then record k' { waitgwmac = 2 } else k')
        else k)

module _ (result_cb : Option ResultCb) (datafill_cb : Option DatafillCb)
    (icmp_cb : Option (Net → Net)) where
  -- A packet for the client while it waits for SYN and ACK.
  unfoldable pub tcp_answer : Net → Net
  tcp_answer n =
      let len = get_tcp_data_len n in
      let m = make_tcp_ack_from_any 0 0 n ▸ poke 47 0x18 in
      if has_bit 1 (flags n) && has_bit 4 (flags n)
      then (let (k, filled) = call_datafill datafill_cb (m.buffer 35 / 32 % 8) m in
          make_tcp_ack_with_data_noflags filled (record k { tcp_client_state = 3 }))
      else make_tcp_ack_from_any (if has_bit 4 (flags n) then 0 else u16 (len + 1)) 4
          (record n { tcp_client_state = 1 })

  -- The end of the branch for the client, behind the data.
  unfoldable pub tcp_rest : ℕ → Net → Net
  tcp_rest len n =
      if n.tcp_client_state == 5
      then n
      else if has_bit 0 (flags n)
      then record (make_tcp_ack_from_any (u16 (len + 1)) 9 n) { tcp_client_state = 5 }
      else if ltb 0 len
      then make_tcp_ack_from_any len 0 n
      else n

  -- Data for the client.
  unfoldable pub tcp_data : ℕ → ℕ → Net → Net
  unfolding tcp_rest
  tcp_data plen len n =
      let start = u16 (34 + n.buffer 46 / 16 * 4) in
      let tcpstart = if ltb (sub16 plen 8) start then sub16 plen 8 else start in
      let save_len = if ltb plen (u16 (tcpstart + len)) then sub16 plen tcpstart else len in
      let (k, send_fin) = call_result result_cb (n.buffer 37 / 32 % 8) 0 tcpstart save_len n in
      if not (send_fin == 0)
      then record (make_tcp_ack_from_any len 9 k) { tcp_client_state = 5 }
      else tcp_rest len k

  abbrev is_registered : Option ResultCb → Bool
  is_registered none = false
  is_registered (some cb) = true

  -- The branch for a packet to the client's port.
  unfoldable pub tcp_client : ℕ → Net → Net
  unfolding tcp_answer tcp_data tcp_rest
  tcp_client plen n =
      let len = get_tcp_data_len n in
      if not (check_ip_message_is_from n.hisip n)
      then n
      else if has_bit 2 (flags n)
      then record (call_result result_cb (n.buffer 37 / 32 % 8) 3 0 0 n).0 { tcp_client_state = 5 }
      else if n.tcp_client_state == 2
      then tcp_answer n
      else if n.tcp_client_state == 3 && ltb 0 len && is_registered result_cb
      then tcp_data plen len n
      else tcp_rest len n

  -- The branch for a packet to the server's port.
  unfoldable pub tcp_server : ℕ → Net → Net × ℕ
  tcp_server plen n =
      let k = record n { info_data_len = get_tcp_data_len n } in
      let len = u16 (34 + n.buffer 46 / 16 * 4) in
      if has_bit 1 (flags n)
      then (make_tcp_synack_from_syn n, 0)
      else if not (has_bit 4 (flags n))
      then (n, 0)
      else if ltb 0 k.info_data_len
      then (k, if leb len (sub16 plen 8) then len else 0)
      else if has_bit 0 (flags n)
      then (make_tcp_ack_from_any 0 0 k, 0)
      else (k, 0)

  unfoldable pub packet_loop : ℕ → Net → Net × ℕ
  unfolding idle arp tcp_client tcp_server
  packet_loop plen n =
      if plen == 0
      then (idle n, 0)
      else if eth_type_is_arp_and_my_ip plen n
      then (arp n, 0)
      else if not (eth_type_is_ip_and_my_ip plen n)
      then (n, 0)
      else if n.buffer 23 == 1 && n.buffer 34 == 8
      then (make_echo_reply_from_request plen (call_icmp icmp_cb n), 0)
      else if ltb plen 54 && not (n.buffer 23 == 6)
      then (n, 0)
      else if n.buffer 36 == 11
      then (tcp_client plen n, 0)
      else if n.buffer 36 == high n.hisport && n.buffer 37 == u8 n.hisport
      then tcp_server plen n
      else (n, 0)
