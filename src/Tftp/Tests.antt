-- ===== src/Tftp/Tests.antt =====
-- Packets of a small transfer, and the client of tftp.cpp run on them.
use c64iec.Base.{
  ℕ, ◌+◌, ◌≤◌, ◌≡◌, ◌≢◌, ◌⊎◌, inl, refl, ◌||◌, true, List, [], ◌∷◌, arith, length, Memory, write,
  store, slice, u16, if◌then◌else◌, ◌==◌,
}
use c64iec.Tftp.{
  Ether, Tftp, initial, packet_srvport, packet_type, packet_datasize, recv_packet, get_block,
  put_block, get_file,
}
use c64iec.Tftp.Wire.{datagram, ack_bytes, data_bytes}
use c64iec.Tftp.Download.{Carries, get_block-recv_packet}
use c64iec.Tftp.Upload.{put_block-branches}
use c64iec.Tftp.Invariant.{Step, Reach}
use c64iec.Tftp.Safe.{AllFit, Safe, Reach-Safe}
use c64iec.Tftp.Guards.{recv_packet-sent, recv_packet-within}

abbrev pub no_bytes : Memory
no_bytes i = 0

-- A UDP packet from port 1234 to port 53280.
abbrev pub packet : ℕ → ℕ → List ℕ → Memory
packet kind b bytes = write 23 17 (
    write 34 4 (
      write 35 210 (
        write 36 208 (
          write 37 32 (
            write 39 (length bytes + 12) (write 43 kind (write 45 b (store 46 bytes no_bytes))))))))

abbrev pub frame : ℕ → ℕ → List ℕ → Ether
frame kind b bytes = record { buffer = packet kind b bytes; is_my_ip = λ n. true }

-- A packet with the bytes 7, 8 and 9 as block b.
pub frame-Carries :
    (b : ℕ) → (kind : ℕ) → b ≤ 9 → kind ≤ 6 → Carries (frame kind b (7 ∷ 8 ∷ 9 ∷ [])) 60 kind b 3
unfolding store
frame-Carries b kind h k = ground arith

abbrev pub loading : Tftp
loading = record (initial no_bytes) { request_in_progress = 1 }

abbrev pub saving : Tftp
saving = record (initial no_bytes) { request_in_progress = 2; clear_to_send = 1; srvport = 1234 }

abbrev three : Ether
three = frame 3 1 (7 ∷ 8 ∷ 9 ∷ [])

get_block-recv_packet_example :
    let r = get_block (recv_packet loading three 60).0 no_bytes 5 0 in
    (slice r.1 5 3 ≡ slice three.buffer 46 3)
    × (r.2 ≡ 3)
    × (r.0.sent ≡ datagram (ack_bytes 1) (packet_srvport three.buffer) ∷ [])
    × (r.0.request_in_progress ≡ (if 3 == 256 then 1 else 0))
get_block-recv_packet_example =
    get_block-recv_packet loading three 60 1 3 no_bytes 5
      (frame-Carries 1 3 (omega arith) (omega arith)) refl (omega arith) (inl refl) refl
      (omega arith)

put_block-branches_example :
    let r = put_block saving three.buffer 50 in
    (r.0.sent ≡ (
      if saving.clear_to_send == 0
      then saving.sent
      else datagram (data_bytes (u16 1) (slice three.buffer 0 50)) 1234 ∷ []))
    × (r.1 ≡ (if saving.clear_to_send == 0 then 0 else 1))
    × (r.0.clear_to_send ≡ 0)
    × (r.0.request_in_progress
        ≡ (if saving.clear_to_send == 0 || 50 == 256 then saving.request_in_progress else 0))
put_block-branches_example = put_block-branches saving three.buffer 50 (omega arith)

abbrev pub name : List ℕ
name = b'8' ∷ b'/' ∷ b'A' ∷ []

recv_packet-sent_example :
    ((recv_packet loading (frame 6 2 []) 60).0.sent ≡ [])
    ⊎ ((packet_type (packet 6 2 []) ≡ 6)
        × (loading.request_in_progress ≢ 2)
        × ((recv_packet loading (frame 6 2 []) 60).0.sent
            ≡ datagram (ack_bytes 0) (packet_srvport (packet 6 2 [])) ∷ []))
recv_packet-sent_example = recv_packet-sent loading (frame 6 2 []) 60

recv_packet-within_example : (recv_packet loading three 60).0.tftpdata 260 ≡ 0
unfolding store
recv_packet-within_example = recv_packet-within loading three 60 260 size (omega arith)
  where
    size : packet_datasize three.buffer ≤ 260
    size = ground arith

-- A DATA packet of 261 bytes whose last byte is 77.
abbrev long : Ether
long = record {
  buffer = write 306 77 (write 38 1 (write 39 17 (packet 3 1 [])));
  is_my_ip = λ n. true;
}

long-Carries : Carries long 60 3 1 261
unfolding store
long-Carries = ground arith

-- A download of one block: the request, the packet, and the call that fetches it.
abbrev asked : Tftp
asked = (get_file (initial no_bytes) name).0

abbrev loaded : Tftp
loaded = (get_block (recv_packet asked three 60).0 no_bytes 5 0).0

asked-Reach : Reach (initial no_bytes) asked
asked-Reach = Reach.next Reach.here (Step.by_get_file name refl)

loaded-Reach : Reach (initial no_bytes) loaded
loaded-Reach =
    Reach.next (Reach.next asked-Reach (Step.by_recv_packet three 60 refl))
      (Step.by_get_block no_bytes 5 0 refl)

loaded-AllFit : AllFit loaded-Reach
unfolding store loaded-Reach asked-Reach
loaded-AllFit = (((tt, tt), omega arith), tt)

Reach-Safe_example : Safe no_bytes loaded
Reach-Safe_example = Reach-Safe loaded-Reach loaded-AllFit
