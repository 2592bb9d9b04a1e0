-- ===== src/Net/Udp.antt =====
-- The UDP sender (EtherCard/tcpip.cpp).
use c64iec.Base.{
  Bool-cases, ℕ, ◌+◌, ◌/◌, ◌≤◌, ◌<◌, ◌≡◌, ◌≢◌, ◌⊎◌, inl, inr, refl, ap, ◌∙◌, ◌∷◌, arith, Memory,
  write, store, slice, slice_ext, slice-copy, u8, high, word, ◌==◌,
}
use c64iec.Net.{
  Net, fill_checksum, fill_ip_hdr_checksum, udp_prepare, udp_transmit, send_udp, limited, ◌▸◌, poke,
  paste,
}

write-write : (m : Memory) (q a b i : ℕ) → i ≢ q → i ≢ q + 1 → write (q + 1) b (write q a m) i ≡ m i
write-write m q a b i h k = ground arith

-- Everything but the two bytes of the checksum stays.
fill_checksum-keeps :
    (q off len type : ℕ) (n : Net) (i : ℕ)
    → i ≢ q
    → i ≢ q + 1
    → (fill_checksum q off len type n).buffer i ≡ n.buffer i
unfolding fill_checksum
fill_checksum-keeps q off len type n i h k = write-write n.buffer q _ _ i h k

fill_ip_hdr_checksum-keeps :
    (n : Net) (i : ℕ)
    → (i < 20) ⊎ (i ≡ 23) ⊎ (26 ≤ i)
    → (fill_ip_hdr_checksum n).buffer i ≡ n.buffer i
unfolding fill_ip_hdr_checksum
fill_ip_hdr_checksum-keeps n i h =
    fill_checksum-keeps 24 14 20 0
      (n ▸ poke 24 0 ▸ poke 25 0 ▸ poke 20 0x40 ▸ poke 21 0 ▸ poke 22 64) i (omega arith)
      (omega arith)
    ∙ ground arith

fill_ip_hdr_checksum-sent : (n : Net) → (fill_ip_hdr_checksum n).sent ≡ n.sent
unfolding fill_ip_hdr_checksum
fill_ip_hdr_checksum-sent n = refl

-- The buffer of udp_transmit before its last checksum.
abbrev measured : ℕ → Net → Net
measured len n =
    fill_ip_hdr_checksum (n ▸ poke 16 (high (28 + len)) ▸ poke 17 (u8 (28 + len)))
    ▸ poke 38 (high (8 + len))
    ▸ poke 39 (u8 (8 + len))

measured-keeps :
    (len : ℕ) (n : Net) (i : ℕ)
    → (i < 16) ⊎ (i ≡ 23) ⊎ ((26 ≤ i) × (i < 38)) ⊎ (40 ≤ i)
    → (measured len n).buffer i ≡ n.buffer i
measured-keeps len n i h =
    let m = n ▸ poke 16 (high (28 + len)) ▸ poke 17 (u8 (28 + len)) in
    write-write (fill_ip_hdr_checksum m).buffer 38 (high (8 + len)) (u8 (8 + len)) i (omega arith)
      (omega arith)
    ∙ (fill_ip_hdr_checksum-keeps m i (omega arith)
        ∙ write-write n.buffer 16 (high (28 + len)) (u8 (28 + len)) i (omega arith) (omega arith))

udp_transmit-buffer :
    (len : ℕ) (n : Net)
    → (udp_transmit len n).buffer ≡ (fill_checksum 40 26 (16 + len) 1 (measured len n)).buffer
unfolding udp_transmit
udp_transmit-buffer len n = refl

udp_transmit-sent :
    (len : ℕ) (n : Net)
    → (udp_transmit len n).sent ≡ slice (udp_transmit len n).buffer 0 (42 + len) ∷ n.sent
unfolding udp_transmit
udp_transmit-sent len n = refl

udp_transmit-measured :
    (len : ℕ) (n : Net) (i : ℕ)
    → i ≢ 40
    → i ≢ 41
    → (udp_transmit len n).buffer i ≡ (measured len n).buffer i
udp_transmit-measured len n i h k =
    ap (λ m. m i) (udp_transmit-buffer len n)
    ∙ fill_checksum-keeps 40 26 (16 + len) 1 (measured len n) i h k

pub udp_transmit-keeps :
    (len : ℕ) (n : Net) (i : ℕ)
    → (i < 16) ⊎ (i ≡ 23) ⊎ ((26 ≤ i) × (i < 38)) ⊎ (42 ≤ i)
    → (udp_transmit len n).buffer i ≡ n.buffer i
udp_transmit-keeps len n i h =
    udp_transmit-measured len n i (omega arith) (omega arith) ∙ measured-keeps len n i (omega arith)

-- What udp_transmit stores, seen through the checksums.
udp_transmit-stored :
    (len : ℕ) (n : Net)
    → let b = (udp_transmit len n).buffer in
      (b 38 ≡ high (8 + len))
      × (b 39 ≡ u8 (8 + len))
      × (b 16 ≡ high (28 + len))
      × (b 17 ≡ u8 (28 + len))
udp_transmit-stored len n =
    let m = n ▸ poke 16 (high (28 + len)) ▸ poke 17 (u8 (28 + len)) in
    (
      udp_transmit-measured len n 38 (omega arith) (omega arith),
      udp_transmit-measured len n 39 (omega arith) (omega arith),
      udp_transmit-measured len n 16 (omega arith) (omega arith)
          ∙ fill_ip_hdr_checksum-keeps m 16 (omega arith),
      udp_transmit-measured len n 17 (omega arith) (omega arith)
          ∙ fill_ip_hdr_checksum-keeps m 17 (omega arith),
    )

-- What udp_prepare stores: the two ports and the address.
udp_prepare-stored :
    (sport : ℕ) (dip : Memory) (dport : ℕ) (n : Net)
    → let b = (udp_prepare sport dip dport n).buffer in
      (b 34 ≡ high sport)
      × (b 35 ≡ u8 sport)
      × (b 36 ≡ high dport)
      × (b 37 ≡ u8 dport)
      × (slice b 30 4 ≡ slice dip 0 4)
      × ((udp_prepare sport dip dport n).sent ≡ n.sent)
unfolding udp_prepare slice store
udp_prepare-stored sport dip dport n = elim (Bool-cases (dip 0 / 16 == 14)) [
  | inl multicast ↦ rw multicast (refl, refl, refl, refl, refl, refl)
  | inr unicast ↦ rw unicast (refl, refl, refl, refl, refl, refl)
]

pub send_udp-limited :
    (payload : Memory) (len sport : ℕ) (dip : Memory) (dport : ℕ) (n : Net)
    → send_udp payload len sport dip dport n
      ≡ udp_transmit (limited len) (udp_prepare sport dip dport n ▸ paste 42 payload (limited len))
unfolding send_udp
send_udp-limited payload len sport dip dport n = refl

send_udp_small :
    (payload : Memory) (len sport : ℕ) (dip : Memory) (dport : ℕ) (n : Net)
    → len ≤ 560
    → send_udp payload len sport dip dport n
      ≡ udp_transmit len (udp_prepare sport dip dport n ▸ paste 42 payload len)
send_udp_small payload len sport dip dport n small =
    send_udp-limited payload len sport dip dport n
    ∙ ap (λ k. udp_transmit k (udp_prepare sport dip dport n ▸ paste 42 payload k)) e
  where
    e : limited len ≡ len
    e = ground arith

-- A datagram of at most 560 bytes goes out as one frame. It has the bytes of the payload, the
-- address, both ports, and the two lengths.
pub send_udp-frame :
    (payload : Memory) (len sport : ℕ) (dip : Memory) (dport : ℕ) (n : Net)
    → len ≤ 560
    → sport < 65536
    → dport < 65536
    → let r = send_udp payload len sport dip dport n in
      (r.sent ≡ slice r.buffer 0 (42 + len) ∷ n.sent)
      × (slice r.buffer 42 len ≡ slice payload 0 len)
      × (slice r.buffer 30 4 ≡ slice dip 0 4)
      × (word (r.buffer 34) (r.buffer 35) ≡ sport)
      × (word (r.buffer 36) (r.buffer 37) ≡ dport)
      × (word (r.buffer 38) (r.buffer 39) ≡ 8 + len)
      × (word (r.buffer 16) (r.buffer 17) ≡ 28 + len)
send_udp-frame payload len sport dip dport n small s d =
    let k = udp_prepare sport dip dport n in
    let m = k ▸ paste 42 payload len in
    let (h0, h1, p0, p1, ip, log) = udp_prepare-stored sport dip dport n in
    let (l0, l1, t0, t1) = udp_transmit-stored len m in
    rw (send_udp_small payload len sport dip dport n small) (
      udp_transmit-sent len m ∙ ap (λ l. slice (udp_transmit len m).buffer 0 (42 + len) ∷ l) log,
      slice_ext (udp_transmit len m).buffer m.buffer 42 42 len
            (λ i lt. udp_transmit-keeps len m (42 + i) (omega arith))
          ∙ slice-copy 42 payload 0 len k.buffer,
      slice_ext (udp_transmit len m).buffer k.buffer 30 30 4
            (λ i lt. udp_transmit-keeps len m (30 + i) (omega arith) ∙ ground arith)
          ∙ ip,
      ground (arith, udp_transmit-keeps len m 34, udp_transmit-keeps len m 35, h0, h1),
      ground (arith, udp_transmit-keeps len m 36, udp_transmit-keeps len m 37, p0, p1),
      ground (arith, l0, l1),
      ground (arith, t0, t1),
    )
