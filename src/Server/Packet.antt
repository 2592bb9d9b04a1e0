-- ===== src/Server/Packet.antt =====
-- The handlers of the server's packets, and its loop (tools/tftp.rb).
use c64iec.Base.{
  ℕ, ◌+◌, Bool, true, false, Option, none, some, List, [], ◌∷◌, ◌++◌, length, ltb, ◌==◌,
  if◌then◌else◌,
}
use c64iec.Server.{
  drop, uint16, cstring, decode, find_device, Status, Handle, Session, Devices, raise,
  file_not_found, send_err, send_ack, tftp_options, send_oack, send_data,
}

-- @device_num and @filename
abbrev pub with_name : List ℕ → Option (ℕ × List ℕ) → Session → Session
with_name name none s = record s { device_num = 8; filename = name }
with_name name (some (device, rest)) s = record s { device_num = device; filename = rest }

abbrev pub without_file : Session → Session
without_file s = send_err 1 file_not_found s

-- Is no option there?
abbrev pub no_options : Session → Bool
no_options s = length s.options == 0

-- What packet_rrq does with the file that the device has opened.
abbrev pub answer_read : Option (List ℕ) → Session → Session
answer_read none s = without_file s
answer_read (some file) s =
    let s' = record s { file = Handle.reading file } in
    if no_options s' then send_data false s' else send_oack Status.wait_for_ack s'

abbrev pub answer_write : Bool → Session → Session
answer_write false s = without_file s
answer_write true s =
    let s' = record s { file = Handle.writing [] } in
    if no_options s' then send_ack s' else send_oack Status.wait_for_data s'

-- with the options of a request
abbrev pub with_options : Option (List (List ℕ × List ℕ)) → (Session → Session) → Session → Session
with_options none k s = raise s
with_options (some os) k s = k (record s { options = os })

-- The start of packet_rrq and packet_wrq, which is the same: the name, the device and the options.
abbrev pub with_request : Option (List ℕ) → List ℕ → (Session → Session) → Session → Session
with_request none packet k s = raise s
with_request (some name) packet k s =
    with_options (tftp_options (length packet) (drop (2 + length name + 1) packet) []) k
      (with_name name (find_device true name) s)

-- The devices decode the name.
unfoldable pub packet_rrq : Devices → List ℕ → Session → Session
unfolding tftp_options find_device decode send_err send_data send_oack
packet_rrq devices packet s =
    with_request (cstring (drop 2 packet)) packet
      (λ s'. answer_read (devices.file_of s'.device_num (decode s'.filename)) s') s

unfoldable pub packet_wrq : Devices → List ℕ → Session → Session
unfolding tftp_options find_device decode send_err send_ack send_oack
packet_wrq devices packet s =
    with_request (cstring (drop 2 packet)) packet
      (λ s'. answer_write (devices.can_create s'.device_num (decode s'.filename)) s') s

-- @device.close
abbrev pub close : Handle → Session → Session
close Handle.shut s = raise s
close (Handle.reading left) s = record s { file = Handle.shut }
close (Handle.writing bytes) s = record s { file = Handle.shut; closed = some bytes }

abbrev pub close_at_end : Session → Session
close_at_end s = close s.file (record s { blocknum = 0; status = Status.finished })

abbrev pub after_ack : Option ℕ → Session → Session
after_ack none s = if s.last_packet then close_at_end s else raise s
after_ack (some number) s =
    if s.last_packet
    then close_at_end s
    else send_data s.send_empty (record s { blocknum = number })

unfoldable pub packet_ack : List ℕ → Session → Session
unfolding send_data
packet_ack packet s = after_ack (uint16 (drop 2 packet)) s

-- device.write of the bytes behind the header, and send_ack. A file that is open for reading takes no
-- bytes; the listing of a directory, which DeviceDir keeps in memory, would.
abbrev pub write_block : Handle → ℕ → List ℕ → Session → Session
write_block Handle.shut number packet s = raise s
write_block (Handle.reading left) number packet s = raise s
write_block (Handle.writing bytes) number packet s =
    let s' =
      send_ack (record s { blocknum = number; file = Handle.writing (bytes ++ drop 4 packet) }) in
    if ltb (length packet) 256 then close_at_end s' else s'

abbrev pub after_data : Option ℕ → List ℕ → Session → Session
after_data none packet s = raise s
after_data (some number) packet s = write_block s.file number packet s

unfoldable pub packet_data : List ℕ → Session → Session
unfolding send_ack
packet_data packet s = after_data (uint16 (drop 2 packet)) packet s

unfoldable pub packet_err : List ℕ → Session → Session
packet_err packet s = if ltb (length packet) 4 then raise s else record s { status = Status.error }

-- case OPCODES[@type]. packet_oack is not there, and a number above 6 is in no branch.
abbrev pub handle_kind : ℕ → Devices → List ℕ → Session → Session
handle_kind kind devices packet s =
    if kind == 1
    then packet_rrq devices packet s
    else if kind == 2
    then packet_wrq devices packet s
    else if kind == 3
    then packet_data packet s
    else if kind == 4
    then packet_ack packet s
    else if kind == 5
    then packet_err packet s
    else if kind == 6
    then raise s
    else s

abbrev pub handle_typed : Option ℕ → Devices → List ℕ → Session → Session
handle_typed none devices packet s = raise s
handle_typed (some kind) devices packet s = handle_kind kind devices packet s

unfoldable pub handle : Devices → List ℕ → Session → Session
unfolding packet_rrq packet_wrq packet_data packet_ack packet_err
handle devices packet s = handle_typed (uint16 packet) devices packet s

-- Does the session wait for another packet?
abbrev pub is_waiting : Status → Bool
is_waiting Status.wait_for_ack = true
is_waiting Status.wait_for_data = true
is_waiting s = false

-- The loop of packet. `later` are the packets that its waits find.
unfoldable pub serve : Devices → List ℕ → List (List ℕ) → Session → Session
unfolding handle
serve devices packet [] s = handle devices packet (record s { status = Status.ready })
serve devices packet (next ∷ later) s =
    let s' = handle devices packet (record s { status = Status.ready }) in
    let rest = serve devices next later s' in if is_waiting s'.status then rest else s'
