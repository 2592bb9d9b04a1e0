-- ===== src/Net/Frames.antt =====
-- The frames that the firmware sends (EtherCard/tcpip.cpp).
use c64iec.Base.{
  ℕ, ◌+◌, ◌%◌, ◌≤◌, ◌<◌, ◌≡◌, ◌≢◌, ◌⊎◌, refl, true, false, ◌∷◌, ◌++◌, arith, slice, word, IsByte,
}
use c64iec.Net.{
  Net, sum_words, fold_carry, fill_ip_hdr_checksum, bump_checksum, make_arp_answer_from_request,
  is_my_ip, eth_type_is_ip_and_my_ip, equal_ip, ◌▸◌, poke,
}
use c64iec.Net.Checksum.{fill_checksum-valid}

-- fill_ip_hdr_checksum leaves a header whose ten words add up to 65535 with end-around carry, which is
-- what a receiver checks.
pub fill_ip_hdr_checksum-valid :
    (n : Net)
    → ((i : ℕ) → IsByte (n.buffer i))
    → fold_carry 3 (sum_words (fill_ip_hdr_checksum n).buffer 14 20 0) ≡ 65535
unfolding fill_ip_hdr_checksum
fill_ip_hdr_checksum-valid n bytes =
    fill_checksum-valid (n ▸ poke 24 0 ▸ poke 25 0 ▸ poke 20 0x40 ▸ poke 21 0 ▸ poke 22 64) 5 24 14
      20 0 refl (omega arith) (omega arith) refl refl λ i. ground (arith, bytes i)

-- The answer to an ARP request is one frame of 42 bytes with operation 2. Its Ethernet header and its
-- target are the station that asked, with the addresses that the request gave, and its sender has the
-- MAC and the IP address of the firmware.
pub make_arp_answer-reply :
    (n : Net)
    → let r = make_arp_answer_from_request n in
      (slice r.buffer 0 6 ≡ slice n.buffer 6 6)
      × (slice r.buffer 6 6 ≡ slice n.mymac 0 6)
      × (word (r.buffer 20) (r.buffer 21) ≡ 2)
      × (slice r.buffer 22 10 ≡ slice n.mymac 0 6 ++ slice n.myip 0 4)
      × (slice r.buffer 32 10 ≡ slice n.buffer 22 10)
      × (r.sent ≡ slice r.buffer 0 42 ∷ n.sent)
unfolding make_arp_answer_from_request slice
make_arp_answer-reply n = (refl, refl, refl, refl, refl, refl)

-- The reply to an echo request has type 0 in place of 8, so its checksum is larger by 0x0800 in one's
-- complement. make_echo_reply_from_request gets it right, modulo 65535, unless the low byte of the
-- checksum is 255 and the high byte carries.
pub bump_checksum-adds :
    (n : Net)
    → IsByte (n.buffer 36)
    → IsByte (n.buffer 37)
    → (n.buffer 37 < 255) ⊎ (n.buffer 36 ≤ 0xf7)
    → word ((bump_checksum n).buffer 36) ((bump_checksum n).buffer 37) % 65535
      ≡ (word (n.buffer 36) (n.buffer 37) + 0x800) % 65535
unfolding bump_checksum
bump_checksum-adds n h l fits = ground arith

-- When the low byte of the checksum is 255 and the high byte carries, the increment of the low byte
-- wraps and its carry is lost: the checksum of the echo reply is wrong.
pub bump_checksum-lost :
    (n : Net)
    → 0xf7 < n.buffer 36
    → IsByte (n.buffer 36)
    → n.buffer 37 ≡ 255
    → word ((bump_checksum n).buffer 36) ((bump_checksum n).buffer 37) % 65535
      ≢ (word (n.buffer 36) (n.buffer 37) + 0x800) % 65535
unfolding bump_checksum
bump_checksum-lost n big h l = ground arith

-- is_myIp does not look at the address of an IP packet: a frame for another host's address, which
-- packetLoop drops, passes it.
pub is_my_ip-foreign :
    (n : Net) (plen : ℕ)
    → n.buffer 13 ≡ 0
    → equal_ip 30 n.myip n ≡ false
    → (is_my_ip plen n ≡ true) × (eth_type_is_ip_and_my_ip plen n ≡ false)
unfolding is_my_ip eth_type_is_ip_and_my_ip
is_my_ip-foreign n plen h other = ground arith
