-- ===== src/Iec/Tests.antt =====
-- Runs of c64iec.ino: a LOAD of two blocks, a SAVE of two bytes, and what goes wrong.
use c64iec.Base.{
  pushed, ℕ, ◌≤◌, ◌<◌, ◌≡◌, inl, inr, refl, true, false, none, some, List, [], ◌∷◌, ◌++◌, arith,
  length, write, store, slice, c_string,
}
use c64iec.Tftp.{Tftp, initial, tftp_port}
use c64iec.Tftp.Wire.{datagram, request_bytes}
use c64iec.Tftp.Request.{cleared_for_get}
use c64iec.Tftp.Download.{Carries}
use c64iec.Tftp.Tests.{no_bytes, packet, frame, frame-Carries}
use c64iec.Iec.Drive.{Arrival, Drive}
use c64iec.Iec.FileName.{create_tftp_filename}
use c64iec.Iec.FileName.Result.{tftp_name, create_tftp_filename_lem}
use c64iec.Iec.Load.{send_file, send_loop}
use c64iec.Iec.Load.Repeats.{Unmoved, send_loop-repeated}
use c64iec.Iec.Load.Emit.{logged, eoi_calls}
use c64iec.Iec.Load.Serve.{Serves, Expects}
use c64iec.Iec.Load.Options.{Delivers, all_answers}
use c64iec.Iec.Load.File.{send_file-Serves, send_file-empty, send_file-refused}
use c64iec.Iec.Save.{BusByte, put_wait, recv_file}
use c64iec.Iec.Save.Wait.{Acked, put_wait-stuck}
use c64iec.Iec.Save.File.{recv_file-Serviced}
use c64iec.Iec.Save.Rounds.{Blocks, Serviced}

abbrev drive : Drive
drive = record {
  tftp = initial no_bytes;
  iobuf = no_bytes;
  tftp_filename = no_bytes;
  device_mode = 40;
  secondary = 0;
  sent_to_c64 = 0;
  puts = [];
}

abbrev silence : Arrival
silence = record { ether = frame 0 0 []; plen = 0 }

-- A DATA packet of 256 bytes as block 1.
abbrev whole : Arrival
whole = record {
  ether = record { buffer = write 38 1 (write 39 12 (packet 3 1 (7 ∷ []))); is_my_ip = λ n. true };
  plen = 302;
}

whole-Carries : Carries whole.ether 302 3 1 256
unfolding store
whole-Carries = ground arith

abbrev short : Arrival
short = record { ether = frame 3 2 (7 ∷ 8 ∷ 9 ∷ []); plen = 60 }

short-Carries : Carries short.ether 60 3 2 3
short-Carries = frame-Carries 2 3 (omega arith) (omega arith)

abbrev file : List ℕ
file = slice whole.ether.buffer 46 256 ++ slice short.ether.buffer 46 3

-- The answer to the options of the request.
abbrev options : Arrival
options = record { ether = frame 6 0 (7 ∷ 8 ∷ 9 ∷ []); plen = 60 }

options-Carries : Carries options.ether 60 6 0 3
options-Carries = frame-Carries 0 6 (omega arith) (omega arith)

file-Delivers : Delivers file (silence ∷ options ∷ whole ∷ whole ∷ short ∷ [])
file-Delivers = Delivers.quiet silence refl (
    Delivers.options options 3 options-Carries (
      Serves.block whole whole-Carries refl refl (
        Serves.repeated whole 3 1 256 whole-Carries (omega arith) refl
          (Serves.last short 3 short-Carries (omega arith) refl))))

file-bytes : 0 < length file
unfolding slice
file-bytes = omega arith

no_name : length (c_string 53 no_bytes 0) ≤ 20
unfolding c_string
no_name = omega arith

send_file-Serves_example :
    (d' : Drive) × (send_file (silence ∷ options ∷ whole ∷ whole ∷ short ∷ []) drive ≡ some (d', 1))
    × (d'.puts ≡ logged (eoi_calls file) [])
    × (d'.tftp.request_in_progress ≡ 0)
    × (d'.tftp.sent
        ≡ pushed
            (all_answers file-Delivers)
            (datagram (request_bytes 1 (c_string 53 no_bytes 0)) tftp_port ∷ []))
send_file-Serves_example =
    send_file-Serves (silence ∷ options ∷ whole ∷ whole ∷ short ∷ []) drive file refl no_name
      file-bytes file-Delivers

abbrev nothing : Arrival
nothing = record { ether = frame 3 1 []; plen = 60 }

nothing-Carries : Carries nothing.ether 60 3 1 0
unfolding store
nothing-Carries = ground arith

send_file-empty_example :
    (d' : Drive) × (send_file (nothing ∷ []) drive ≡ some (d', 1))
    × (d'.puts ≡ record { value = 0; eoi = 1 } ∷ [])
send_file-empty_example = send_file-empty nothing [] drive refl no_name nothing-Carries

-- The drive while a SAVE is in progress.
abbrev busy : Drive
busy = record drive { tftp = record (initial no_bytes) { request_in_progress = 2 } }

send_file-refused_example :
    send_file (nothing ∷ []) busy
    ≡ some (record busy { sent_to_c64 = 0; tftp = cleared_for_get busy.tftp }, 1)
send_file-refused_example = send_file-refused (nothing ∷ []) busy (inl (omega arith, omega arith))

abbrev failure : Arrival
failure = record { ether = frame 5 1 (7 ∷ 8 ∷ 9 ∷ []); plen = 60 }

-- An acknowledgement of block b.
abbrev ack : ℕ → Arrival
ack b = record { ether = frame 4 b (7 ∷ 8 ∷ 9 ∷ []); plen = 60 }

ack-Carries : (b : ℕ) → b ≤ 9 → Carries (ack b).ether 60 4 b 3
ack-Carries b h = frame-Carries b 4 h (omega arith)

put_wait-stuck_example : put_wait (ack 0 ∷ silence ∷ []) drive.tftp no_bytes 5 ≡ none
put_wait-stuck_example =
    put_wait-stuck (ack 0 ∷ silence ∷ []) drive.tftp no_bytes 5 (omega arith) refl

ack-Acked : Acked 65535 0 1234 0 [] (silence ∷ ack 0 ∷ [])
ack-Acked =
    Acked.wait silence refl
      (Acked.now (ack 0) 4 3 (omega arith) (inl refl) (ack-Carries 0 (omega arith)) refl refl)

-- Two bytes, the second one with eoi.
abbrev first_byte : BusByte
first_byte = record { atn = false; written = some 65; eoi = 0 }

abbrev last_byte : BusByte
last_byte = record { atn = false; written = some 66; eoi = 1 }

bytes-Serviced :
    Serviced 1234 65535 0 0
      (first_byte ∷ last_byte ∷ [])
      (65 ∷ 66 ∷ [])
      (silence ∷ silence ∷ silence ∷ ack 0 ∷ [])
bytes-Serviced =
    Serviced.more (record { quiet = refl; byte = refl; no_packet = refl }) refl (omega arith) refl
      (Serviced.last {left = []} (record { quiet = refl; byte = refl; no_packet = refl }) refl
        (omega arith) refl ack-Acked)

recv_file-Serviced_example :
    (d' : Drive) × (recv_file
        (first_byte ∷ last_byte ∷ [])
        (silence ∷ silence ∷ silence ∷ ack 0 ∷ [])
        drive
      ≡ some (d', 1))
    × Blocks 1234 0
        (65 ∷ 66 ∷ [])
        (datagram (request_bytes 2 (c_string 53 no_bytes 0)) tftp_port ∷ [])
        d'.tftp.sent
    × (d'.tftp.request_in_progress ≡ 0)
recv_file-Serviced_example =
    recv_file-Serviced (first_byte ∷ last_byte ∷ []) (silence ∷ silence ∷ silence ∷ ack 0 ∷ [])
      drive (65 ∷ 66 ∷ []) 1234 refl no_name bytes-Serviced

abbrev game : List ℕ
game = b'A' ∷ b'/' ∷ b' ' ∷ b'b' ∷ b' ' ∷ 0xa0 ∷ []

create_tftp_filename_lem_example :
    (c_string 53 (create_tftp_filename game 40 no_bytes) 0 ≡ tftp_name game 40)
    × (length (tftp_name game 40) ≤ 50)
create_tftp_filename_lem_example = create_tftp_filename_lem game 40 no_bytes

-- The client behind the whole block 1, whose acknowledgement the server has not got.
abbrev acknowledged : Drive
acknowledged = record drive {
  tftp = record (initial no_bytes) {
    request_in_progress = 1;
    blknum = 1;
    lastblk = 1;
    lastgot = 1;
    data_available = 256;
  };
}

acknowledged-Expects : Expects acknowledged.tftp 2
acknowledged-Expects = ground arith

send_loop-repeated_example :
    (send_loop (whole ∷ silence ∷ []) acknowledged (record { at_start = 0; iobuf_offset = 1 })
      ≡ none)
    × ((t : Tftp) × Unmoved 1 acknowledged.tftp t
        × (send_loop
              (whole ∷ silence ∷ short ∷ [])
              acknowledged
              (record { at_start = 0; iobuf_offset = 1 })
            ≡ send_loop
                (short ∷ [])
                (record acknowledged { tftp = t })
                (record { at_start = 0; iobuf_offset = 1 })))
send_loop-repeated_example =
    send_loop-repeated 1 (whole ∷ silence ∷ []) (short ∷ []) acknowledged
      (record { at_start = 0; iobuf_offset = 1 }) (omega arith) acknowledged-Expects
      (inr (3, 256, whole-Carries), (inl refl, tt))
