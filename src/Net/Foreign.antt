-- ===== src/Net/Foreign.antt =====
-- What packetLoop passes over (EtherCard/tcpip.cpp).
use c64iec.Base.{
  ℕ, ◌/◌, ◌≤◌, ◌<◌, ◌≡◌, ◌≢◌, ◌⊎◌, inl, inr, refl, ap, ◌∙◌, Bool, true, false, none, Bool-cases,
  arith, Memory, store, high, u8, ◌==◌, ◌&&◌,
}
use c64iec.Net.{
  Net, ◌▸◌, paste, limited, equal_ip, eth_type_is_arp_and_my_ip, eth_type_is_ip_and_my_ip,
  udp_prepare, send_udp, is_my_ip,
}
use c64iec.Net.Udp.{udp_transmit-keeps, send_udp-limited}
use c64iec.Net.Loop.{packet_loop}

-- A frame that is no ARP packet, and either not addressed to the firmware or a UDP packet for a port
-- that belongs neither to the TCP client nor to the TCP server.
pub packet_loop-ignores :
    (plen : ℕ) (n : Net)
    → 0 < plen
    → eth_type_is_arp_and_my_ip plen n ≡ false
    → (eth_type_is_ip_and_my_ip plen n ≡ false)
      ⊎ ((n.buffer 23 ≡ 17)
          × (n.buffer 36 ≢ 11)
          × ((n.buffer 36 ≢ high n.hisport) ⊎ (n.buffer 37 ≢ u8 n.hisport)))
    → packet_loop none none none plen n ≡ (n, 0)
unfolding packet_loop
packet_loop-ignores plen n some_bytes no_arp h = ground arith

pub is_my_ip-not_arp :
    (plen : ℕ) (n : Net) → is_my_ip plen n ≡ true → eth_type_is_arp_and_my_ip plen n ≡ false
unfolding is_my_ip
is_my_ip-not_arp plen n h = ground arith

-- The header that udp_prepare writes.
udp_prepare-header :
    (sport : ℕ) (dip : Memory) (dport : ℕ) (n : Net)
    → let k = udp_prepare sport dip dport n in
      (k.buffer 12 ≡ 8)
      × (k.buffer 13 ≡ 0)
      × (k.buffer 23 ≡ 17)
      × (k.buffer 30 ≡ dip 0)
      × (k.buffer 31 ≡ dip 1)
      × (k.buffer 32 ≡ dip 2)
      × (k.buffer 33 ≡ dip 3)
unfolding udp_prepare store
udp_prepare-header sport dip dport n = elim (Bool-cases (dip 0 / 16 == 14)) [
  | inl multicast ↦ rw multicast (refl, refl, refl, refl, refl, refl, refl)
  | inr unicast ↦ rw unicast (refl, refl, refl, refl, refl, refl, refl)
]

send_udp-myip :
    (payload : Memory) (len sport : ℕ) (dip : Memory) (dport : ℕ) (n : Net)
    → (send_udp payload len sport dip dport n).myip ≡ n.myip
unfolding send_udp
send_udp-myip payload len sport dip dport n = elim (Bool-cases (dip 0 / 16 == 14)) [
  | inl multicast ↦ rw multicast refl
  | inr unicast ↦ rw unicast refl
]

pub send_udp-serverip :
    (payload : Memory) (len sport : ℕ) (dip : Memory) (dport : ℕ) (n : Net)
    → (send_udp payload len sport dip dport n).serverip ≡ n.serverip
unfolding send_udp
send_udp-serverip payload len sport dip dport n = elim (Bool-cases (dip 0 / 16 == 14)) [
  | inl multicast ↦ rw multicast refl
  | inr unicast ↦ rw unicast refl
]

send_udp-keeps :
    (payload : Memory) (len sport : ℕ) (dip : Memory) (dport : ℕ) (n : Net) (i : ℕ)
    → (i ≡ 12) ⊎ (i ≡ 13) ⊎ (i ≡ 23) ⊎ ((30 ≤ i) × (i ≤ 33))
    → (send_udp payload len sport dip dport n).buffer i ≡ (udp_prepare sport dip dport n).buffer i
send_udp-keeps payload len sport dip dport n i h =
    ap (λ k. k.buffer i) (send_udp-limited payload len sport dip dport n)
    ∙ (udp_transmit-keeps (limited len)
          (udp_prepare sport dip dport n ▸ paste 42 payload (limited len)) i (omega arith)
        ∙ ground arith)

not_arp : (plen : ℕ) (n : Net) → n.buffer 13 ≡ 0 → eth_type_is_arp_and_my_ip plen n ≡ false
unfolding eth_type_is_arp_and_my_ip
not_arp plen n h = ground arith

not_ip :
    (plen : ℕ) (n : Net) → equal_ip 30 n.myip n ≡ false → eth_type_is_ip_and_my_ip plen n ≡ false
unfolding eth_type_is_ip_and_my_ip
not_ip plen n h = ground arith

abbrev pub same_ip : Memory → Memory → Bool
same_ip x y = x 0 == y 0 && x 1 == y 1 && x 2 == y 2 && x 3 == y 3

-- A datagram that is still in the buffer, for another host than the firmware, is passed over.
pub packet_loop-send_udp :
    (payload : Memory) (len sport : ℕ) (dip : Memory) (dport plen : ℕ) (n : Net)
    → 0 < plen
    → same_ip dip n.myip ≡ false
    → let k = send_udp payload len sport dip dport n in packet_loop none none none plen k ≡ (k, 0)
packet_loop-send_udp payload len sport dip dport plen n some_bytes other =
    let k = send_udp payload len sport dip dport n in
    let keeps = send_udp-keeps payload len sport dip dport n in
    let (t0, t1, proto, d0, d1, d2, d3) = udp_prepare-header sport dip dport n in
    let elsewhere : equal_ip 30 k.myip k ≡ false =
      rw
        (
          send_udp-myip payload len sport dip dport n,
          keeps 30 (omega arith) ∙ d0,
          keeps 31 (omega arith) ∙ d1,
          keeps 32 (omega arith) ∙ d2,
          keeps 33 (omega arith) ∙ d3,
        )
        other in
    packet_loop-ignores plen k some_bytes (not_arp plen k (keeps 13 (omega arith) ∙ t1))
      (inl (not_ip plen k elsewhere))
