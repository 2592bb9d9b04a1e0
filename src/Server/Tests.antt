-- ===== src/Server/Tests.antt =====
-- A file on a device of the server, loaded and saved.
use c64iec.Base.{
  ℕ, ◌+◌, ◌/◌, ◌%◌, ◌≡◌, refl, sym, subst, true, false, ◌&&◌, none, some, List, [], ◌∷◌, arith,
  length, length-slice, inl, inr, take, map, pushed, write, store, slice, c_string, ◌==◌,
  if◌then◌else◌,
}
use c64iec.Tftp.Wire.{request_bytes, ack_bytes, data_bytes}
use c64iec.Tftp.Tests.{no_bytes}
use c64iec.Tftp.{tftp_port}
use c64iec.Iec.Save.Live.{bytes_of}
use c64iec.Iec.Save.Rounds.{Serviced}
use c64iec.Iec.Save.Wait.{Acked}
use c64iec.Iec.Bus.{wait_atn, wait_clock, get_byte, act, ◌>>◌, release_clock, release_data}
use c64iec.Iec.Drive.{Arrival, Drive, ethernet_probe_for_packet}
use c64iec.Iec.FileName.{create_tftp_filename}
use c64iec.Iec.FileName.Encoding.{kept}
use c64iec.Iec.FileName.Result.{tftp_name}
use c64iec.Iec.Load.Emit.{eoi_calls}
use c64iec.Iec.Machine.{Machine, run, play, next_byte, take_byte, atn_active}
use c64iec.Iec.Command.{loop}
use c64iec.Iec.Command.Tests.{silence}
use c64iec.Iec.Command.Scripts.{
  load_pins, save_pins, after_second, polled_at, load_opened-Opens, load_polled,
  load_polled-Between, load_polled-Calls, save_opened-Opens, save_polled, save_polled-Between,
  save_polled-Calls, load_name, save_name,
}
use c64iec.Iec.Command.Listener.{turned, heard}
use c64iec.Server.{
  Devices, Session, Status, Handle, decode, find_device, without_marks, text_eq, new, drop,
  option_text,
}
use c64iec.Server.Packet.{serve}
use c64iec.Server.Names.{plain_name, decode-create_tftp_filename}
use c64iec.Server.Blocks.{blocks, acks}
use c64iec.Server.Request.{oack, not_found, block_size}
use c64iec.Server.Serving.{Ends, serve-read}
use c64iec.Server.Transfer.{Brings, Brings-Carries, Brought, to_server}
use c64iec.Server.Writing.{Took, Holds}
use c64iec.Server.Saving.{serve-write_open}
use c64iec.Server.Reading.{Has}
use c64iec.Server.Repeats.{serve-ack_twice}
use c64iec.Server.Missing.{load_missing}
use c64iec.Server.Whole.{acks_for, read_session, replies, load_from_server}
use c64iec.Server.Stored.{save_to_server}

-- The byte 7 is the file A of device 8, and every device can create a file.
abbrev devices : Devices
devices = record {
  file_of = λ device name. if device == 8 && text_eq name (65 ∷ []) then some (7 ∷ []) else none;
  can_create = λ device name. true;
}

-- A UDP packet from port 53280 to port 53280.
abbrev arrival : List ℕ → Arrival
arrival message = record {
  ether = record {
    buffer = write 23 17 (
        write 34 208 (
          write 35 32 (
            write 36 208
              (write 37 32 (write 39 (length message + 8) (store 42 message no_bytes))))));
    is_my_ip = λ n. true;
  };
  plen = 60;
}

oack-Brings : Brings oack (arrival oack)
unfolding store slice
oack-Brings = record {
  arrived = omega arith;
  mine = refl;
  udp = refl;
  to_drive = refl;
  from_server = refl;
  udp_length = refl;
  payload = refl;
}

block-Brings : Brings (data_bytes 1 (7 ∷ [])) (arrival (data_bytes 1 (7 ∷ [])))
unfolding store slice
block-Brings = record {
  arrived = omega arith;
  mine = refl;
  udp = refl;
  to_drive = refl;
  from_server = refl;
  udp_length = refl;
  payload = refl;
}

abbrev arrivals : List Arrival
arrivals = arrival oack ∷ silence ∷ arrival (data_bytes 1 (7 ∷ [])) ∷ []

blocks-Brought : Brought (oack ∷ blocks 0 0 (7 ∷ [])) arrivals
unfolding blocks
blocks-Brought = Brought.message (arrival oack) oack-Brings (
    Brought.quiet silence refl
      (Brought.message (arrival (data_bytes 1 (7 ∷ []))) block-Brings Brought.done))

there : devices.file_of (0x48 % 16) (plain_name (65 ∷ [])) ≡ some (7 ∷ [])
unfolding without_marks kept
there = refl

serve-read_example : Ends (pushed (blocks 0 (1 / 256) (7 ∷ [])) (oack ∷ [])) (
    serve devices (request_bytes 1 (tftp_name (65 ∷ []) 0x48)) (ack_bytes 0 ∷ acks 0 (1 / 256)) new)
serve-read_example =
    serve-read devices (65 ∷ []) 0x48 (7 ∷ []) (omega arith, tt) (omega arith) there (omega arith)

heard_seven : play load_pins 9 (eoi_calls (7 ∷ [])) turned ≡ some heard.0
unfolding eoi_calls slice store
heard_seven = heard.1

load_from_server_example :
    (d : Drive) × (loop load_pins 9 1 silence arrivals load_polled
      ≡ some (record { bus = run (act release_data >> act release_clock) heard.0; drive = d }))
    × (d.tftp.request_in_progress ≡ 0)
    × (d.tftp.sent
        ≡ pushed
            (map to_server (request_bytes 1 (tftp_name (65 ∷ []) 0x48) ∷ acks_for 1))
            (ethernet_probe_for_packet silence load_polled.drive.tftp).sent)
    × ((read_session devices (65 ∷ []) 0x48 1).status ≡ Status.finished)
load_from_server_example =
    load_from_server load_pins devices 9 1 silence arrivals (65 ∷ []) (7 ∷ []) 0x48 0x60
      (after_second load_pins (polled_at load_pins)) heard.0 refl load_opened-Opens
      load_polled-Between load_polled-Calls refl refl (omega arith, tt) load_name (omega arith)
      there (omega arith) (omega arith)
      (subst (λ ms. Brought ms arrivals)
        (sym (replies devices (65 ∷ []) 0x48 (7 ∷ []) serve-read_once)) blocks-Brought)
      heard_seven
  where
    serve-read_once :
        Ends
          (pushed (blocks 0 (1 / 256) (7 ∷ [])) (oack ∷ []))
          (read_session devices (65 ∷ []) 0x48 1)
    serve-read_once =
        serve-read devices (65 ∷ []) 0x48 (7 ∷ []) (omega arith, tt) (omega arith) there
          (omega arith)

decode-create_tftp_filename_example :
    (rest : List ℕ) × (find_device true
        (c_string 53 (create_tftp_filename (b'@' ∷ b'0' ∷ b':' ∷ b'p' ∷ []) 0x29 no_bytes) 0)
      ≡ some (9, rest))
    × (decode rest ≡ plain_name (b'@' ∷ b'0' ∷ b':' ∷ b'p' ∷ []))
decode-create_tftp_filename_example =
    decode-create_tftp_filename (b'@' ∷ b'0' ∷ b':' ∷ b'p' ∷ []) 0x29 no_bytes (omega arith)
      (omega arith)

marks_go : plain_name (b'@' ∷ b'0' ∷ b':' ∷ b'p' ∷ []) ≡ b'p' ∷ []
unfolding without_marks kept
marks_go = refl

-- A file of 252 bytes.
abbrev zeros : List ℕ
zeros = slice no_bytes 0 252

serve-write_open_example : Holds devices (pushed (acks 0 (length zeros / 256)) (oack ∷ [])) zeros (
    serve devices
      (request_bytes 2 (tftp_name (65 ∷ []) 0x28))
      (blocks 0 (length zeros / 256) zeros)
      new)
serve-write_open_example =
    serve-write_open devices (65 ∷ []) 0x28 (omega arith, tt) (omega arith) refl zeros
      (omega (arith, length-slice no_bytes 0 252)) (omega (arith, length-slice no_bytes 0 252))

server-Serviced :
    Serviced tftp_port 65535 0 0
      (bytes_of save_pins 1
        (run (wait_atn save_pins true) (after_second save_pins (polled_at save_pins))))
      (65 ∷ [])
      (silence ∷ arrival oack ∷ [])
unfolding bytes_of next_byte get_byte wait_atn wait_clock take_byte atn_active
server-Serviced =
    Serviced.last {left = []} (record { quiet = refl; byte = refl; no_packet = refl }) refl
      (omega arith) refl
      (Acked.now (arrival oack) 6 12 (omega arith) (inr refl)
        (Brings-Carries (arrival oack) 6 0 (option_text block_size) (omega arith) (omega arith)
          (omega arith) oack-Brings)
        refl refl)

save_to_server_example :
    let request = request_bytes 2 (tftp_name (65 ∷ []) 0x28) in
    let packets = blocks 0 (1 / 256) (65 ∷ []) in
    (m' : Machine) × (loop save_pins 9 1 silence (silence ∷ arrival oack ∷ []) save_polled
      ≡ some m')
    × (m'.drive.tftp.request_in_progress ≡ 0)
    × (m'.drive.tftp.sent
        ≡ pushed
            (map to_server (request ∷ packets))
            (ethernet_probe_for_packet silence save_polled.drive.tftp).sent)
    × Took devices
        (pushed (acks 0 (1 / 256)) (oack ∷ []))
        (65 ∷ [])
        (serve devices request packets new)
save_to_server_example =
    save_to_server save_pins devices 9 1 silence (silence ∷ arrival oack ∷ []) (65 ∷ []) (65 ∷ [])
      0x28 0x61 (after_second save_pins (polled_at save_pins)) refl save_opened-Opens
      save_polled-Between save_polled-Calls refl refl refl (omega arith, tt) save_name (omega arith)
      refl (omega arith) (omega arith) server-Serviced

abbrev many_zeros : List ℕ
many_zeros = slice no_bytes 0 600

abbrev sending : Session
sending = record new { file = Handle.reading many_zeros }

sending-Has : Has sending many_zeros
sending-Has = record { open_file = refl; unfinished = refl; emptied = inl refl }

serve-ack_twice_example :
    let s' = serve devices (ack_bytes 0) (ack_bytes 0 ∷ []) sending in
    (s'.sent
      ≡ data_bytes (0 + 1) (take 256 (drop 256 many_zeros))
        ∷ data_bytes (0 + 1) (take 256 many_zeros)
        ∷ [])
    × (s'.file ≡ Handle.reading (drop 256 (drop 256 many_zeros)))
serve-ack_twice_example =
    serve-ack_twice devices 0 many_zeros sending sending-Has (omega arith)
      (omega (arith, length-slice no_bytes 0 600))

-- A server without files.
abbrev empty_devices : Devices
empty_devices = record { file_of = λ device name. none; can_create = λ device name. false }

not_found-Brings : Brings not_found (arrival not_found)
unfolding store slice
not_found-Brings = record {
  arrived = omega arith;
  mine = refl;
  udp = refl;
  to_drive = refl;
  from_server = refl;
  udp_length = refl;
  payload = refl;
}

load_missing_example :
    let s = serve empty_devices (request_bytes 1 (tftp_name (65 ∷ []) 0x48)) [] new in
    (s.sent ≡ not_found ∷ [])
    × (s.status ≡ Status.error)
    × ((d : Drive) × (loop load_pins 9 1 silence (arrival not_found ∷ []) load_polled
          ≡ some (record {
            bus =
                run
                  (act release_data >> act release_clock)
                  (run (act release_clock >> act release_data) turned);
            drive = d;
          }))
        × (d.tftp.request_in_progress ≡ 0))
load_missing_example =
    load_missing load_pins empty_devices 9 1 silence (arrival not_found) [] (65 ∷ []) 0x48 0x60
      (after_second load_pins (polled_at load_pins)) refl load_opened-Opens load_polled-Between
      load_polled-Calls refl refl (omega arith, tt) load_name (omega arith) refl not_found-Brings
