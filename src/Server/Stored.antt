-- ===== src/Server/Stored.antt =====
-- A SAVE with the server of the repository (c64iec.ino, tftp.cpp, tools/tftp.rb).
use c64iec.Base.{
  ℕ, zero, suc, ◌+◌, ◌*◌, ◌/◌, ◌%◌, ◌≤◌, ◌<◌, ◌≡◌, refl, sym, ap, ap₂, ◌∙◌, Bool, true, some, List,
  [], ◌∷◌, All, IsByte, arith, length, length-append, take, map, pushed, u16,
}
use c64iec.Tftp.{Datagram, tftp_port}
use c64iec.Tftp.Wire.{request_bytes, data_bytes}
use c64iec.Iec.Bus.{Pin, Bus, wait_atn}
use c64iec.Iec.Drive.{Arrival, ethernet_probe_for_packet}
use c64iec.Iec.FileName.Result.{tftp_name}
use c64iec.Iec.Machine.{Machine, run}
use c64iec.Iec.Save.Live.{bytes_of}
use c64iec.Iec.Save.Rounds.{Blocks, Serviced}
use c64iec.Iec.Command.{loop, mode_of, address_of, iec_listen, iec_data}
use c64iec.Iec.Command.Opening.{Calls, Between}
use c64iec.Iec.Command.Sessions.{Opens, save_session}
use c64iec.Server.{drop, Devices, new}
use c64iec.Server.Packet.{serve}
use c64iec.Server.Names.{plain_name}
use c64iec.Server.Blocks.{take-append, drop-append, blocks, acks}
use c64iec.Server.Request.{oack}
use c64iec.Server.Transfer.{to_server}
use c64iec.Server.Writing.{Took}
use c64iec.Server.Saving.{serve-write}

-- The DATA packets that the drive sends are those that the server takes.
pub Blocks-blocks :
    (n : ℕ) {k : ℕ} {bytes : List ℕ} {log out : List Datagram}
    → Blocks tftp_port k bytes log out
    → n ≡ length bytes / 256
    → k + n + 1 < 65536
    → out ≡ pushed (map to_server (blocks k n bytes)) log
unfolding blocks pushed
Blocks-blocks zero (Blocks.final k bytes log out short e) size small =
    let number : u16 (k + 1) ≡ k + 1 = omega arith in
    e ∙ ap (λ b. to_server (data_bytes b bytes) ∷ log) number
Blocks-blocks (suc n) (Blocks.final k bytes log out short e) size small = absurd (omega arith)
Blocks-blocks zero (Blocks.whole k bytes block rest log out whole parts s) size small =
    absurd (omega (arith, ap length parts, length-append block rest))
Blocks-blocks (suc n) (Blocks.whole k bytes block rest log out whole parts s) size small =
    let left : length bytes ≡ length block + length rest =
      ap length parts ∙ length-append block rest in
    let number : u16 (k + 1) ≡ k + 1 = omega arith in
    let first : block ≡ take 256 bytes =
      sym (ap (take 256) parts ∙ take-append 256 block rest whole) in
    let behind : rest ≡ drop 256 bytes =
      sym (ap (drop 256) parts ∙ drop-append 256 block rest whole) in
    Blocks-blocks n s (omega arith) (omega arith)
    ∙ ap₂ (λ xs x. pushed (map to_server (blocks (k + 1) n xs)) (x ∷ log)) behind
        (ap₂ (λ b bs. to_server (data_bytes b bs)) number first)

module _ (level : Pin → ℕ → Bool) (devices : Devices) where
  -- A file of the computer comes to the server. No request is in progress; the computer sends OPEN with a
  -- name of at most 256 bytes, none of them 0, any passes in between, and a LISTEN with data at address
  -- 1, as in save_session, for a device whose number is 8
  -- to 15 in its lowest four bits; the server's name for the file has at most 20 characters, and this
  -- device of the server can create it. Behind ATN the pins give the bytes of a file of less than
  -- 65535 * 256 bytes, whose last block has fewer than 252, with eoi at the last one, and from the
  -- port of the server each packet is acknowledged while the drive waits. Then the last pass ends with
  -- no request in progress; it has sent, behind its probe, the write request for the name and the
  -- DATA packets of the file and nothing else; and a session of the server that gets exactly these
  -- answers with the OACK and an acknowledgement of each block, ends, and has closed a file with
  -- exactly these bytes.
  pub save_to_server :
      (patience rounds : ℕ) (p : Arrival) (arrivals : List Arrival) {m n k : Machine}
      (name file : List ℕ) (device sec : ℕ) (b : Bus)
      → m.drive.tftp.request_in_progress ≡ 0
      → Opens level m name n
      → Between level n k
      → Calls level k.bus device sec b
      → mode_of device ≡ iec_listen
      → mode_of sec ≡ iec_data
      → address_of sec ≡ 1
      → All IsByte name
      → length (tftp_name name device) ≤ 20
      → 8 ≤ device % 16
      → devices.can_create (device % 16) (plain_name name) ≡ true
      → length file < 65535 * 256
      → length file % 256 < 252
      → Serviced tftp_port 65535 0 0
          (bytes_of level rounds (run (wait_atn level true) b))
          file
          arrivals
      → let request = request_bytes 2 (tftp_name name device) in
        let packets = blocks 0 (length file / 256) file in
        (m' : Machine) × (loop level patience rounds p arrivals k ≡ some m')
        × (m'.drive.tftp.request_in_progress ≡ 0)
        × (m'.drive.tftp.sent
            ≡ pushed
                (map to_server (request ∷ packets))
                (ethernet_probe_for_packet p k.drive.tftp).sent)
        × Took devices
            (pushed (acks 0 (length file / 256)) (oack ∷ []))
            file
            (serve devices request packets new)
  save_to_server patience rounds p arrivals {k = k} name file device sec b idle o between c listen
        kind one bytes short h can small last s =
      let (m', runs, sent, over) =
        save_session level patience rounds p arrivals name file device sec b tftp_port idle o
          between c listen kind one short s in
      (
        m',
        runs,
        over,
        Blocks-blocks (length file / 256) sent refl (omega arith) ∙ unfold pushed in refl,
        serve-write devices name device bytes h can file small last,
      )
