-- ===== src/Server/Whole.antt =====
-- A LOAD with the server of the repository (c64iec.ino, tftp.cpp, tools/tftp.rb).
use c64iec.Base.{
  ℕ, ◌*◌, ◌/◌, ◌%◌, ◌≤◌, ◌<◌, ◌≡◌, refl, sym, subst, ap, ◌∙◌, Bool, some, List, [], ◌∷◌, ◌++◌, All,
  IsByte, length, map, pushed, append_assoc,
}
use mathlib.Core.List.{reverse, reverse-append, append-nil}
use c64iec.Tftp.Wire.{request_bytes, ack_bytes}
use c64iec.Iec.Bus.{Pin, Bus, act, ◌>>◌, release_clock, release_data}
use c64iec.Iec.Drive.{Arrival, Drive, ethernet_probe_for_packet}
use c64iec.Iec.FileName.Result.{tftp_name}
use c64iec.Iec.Load.Emit.{eoi_calls}
use c64iec.Iec.Machine.{Machine, run, play}
use c64iec.Iec.Command.{loop, mode_of, iec_talk, iec_data, turn}
use c64iec.Iec.Command.Opening.{Calls, Between}
use c64iec.Iec.Command.Sessions.{Opens, load_session}
use c64iec.Server.{Devices, Session, Status, new}
use c64iec.Server.Packet.{serve}
use c64iec.Server.Names.{plain_name}
use c64iec.Server.Blocks.{blocks, acks}
use c64iec.Server.Request.{oack}
use c64iec.Server.Serving.{Ends, serve-read}
use c64iec.Server.Transfer.{Brought, to_server, delivers}

reverse-pushed {ℓ} : {A : Type ℓ} (xs log : List A) → reverse (pushed xs log) ≡ reverse log ++ xs
unfolding pushed
reverse-pushed [] log = sym (append-nil (reverse log))
reverse-pushed (x ∷ xs) log =
    reverse-pushed xs (x ∷ log)
    ∙ (ap (λ ys. ys ++ xs) (reverse-append (x ∷ []) log) ∙ append_assoc (reverse log) (x ∷ []) xs)

-- The acknowledgements of the drive for a file of n bytes: of the options, and of each block.
abbrev pub acks_for : ℕ → List (List ℕ)
acks_for n = ack_bytes 0 ∷ acks 0 (n / 256)

-- A new session of the server that gets a read request and these acknowledgements.
abbrev pub read_session : Devices → List ℕ → ℕ → ℕ → Session
read_session devices name device n =
    serve devices (request_bytes 1 (tftp_name name device)) (acks_for n) new

pub replies :
    (devices : Devices) (name : List ℕ) (device : ℕ) (file : List ℕ)
    → Ends
        (pushed (blocks 0 (length file / 256) file) (oack ∷ []))
        (read_session devices name device (length file))
    → reverse (read_session devices name device (length file)).sent
      ≡ oack ∷ blocks 0 (length file / 256) file
replies devices name device file e =
    ap reverse e.sent_all ∙ reverse-pushed (blocks 0 (length file / 256) file) (oack ∷ [])

module _ (level : Pin → ℕ → Bool) (devices : Devices) where
  -- A file of the server comes to the computer. No request is in progress; the computer sends OPEN with a
  -- name of at most 256 bytes, none of them 0, any passes in between, and a TALK with data, as in
  -- load_session, for a device whose number is 8 to 15 in its
  -- lowest four bits; the server's name for the file has at most 20 characters. This device of the
  -- server has a file of at least one and less than 65535 * 256 bytes under the name, and the arrivals
  -- bring the messages that a session of the server sends when it gets the read request and the
  -- acknowledgements of the drive, with empty probes in between; the listener takes the calls of
  -- put_byte for exactly the bytes of this file. Then the last pass ends with those calls on the bus,
  -- DATA and CLOCK released behind them and no request in progress; the messages that it has sent
  -- behind its probe are exactly those that the session of the server gets; and this session ends.
  pub load_from_server :
      (patience rounds : ℕ) (p : Arrival) (arrivals : List Arrival) {m n k : Machine}
      (name file : List ℕ) (device sec : ℕ) (b after : Bus)
      → m.drive.tftp.request_in_progress ≡ 0
      → Opens level m name n
      → Between level n k
      → Calls level k.bus device sec b
      → mode_of device ≡ iec_talk
      → mode_of sec ≡ iec_data
      → All IsByte name
      → length (tftp_name name device) ≤ 20
      → 8 ≤ device % 16
      → devices.file_of (device % 16) (plain_name name) ≡ some file
      → 0 < length file
      → length file < 65535 * 256
      → Brought (reverse (read_session devices name device (length file)).sent) arrivals
      → play level patience (eoi_calls file) (run (turn level) b) ≡ some after
      → (d : Drive) × (loop level patience rounds p arrivals k
          ≡ some (record { bus = run (act release_data >> act release_clock) after; drive = d }))
        × (d.tftp.request_in_progress ≡ 0)
        × (d.tftp.sent
            ≡ pushed
                (map to_server (request_bytes 1 (tftp_name name device) ∷ acks_for (length file)))
                (ethernet_probe_for_packet p k.drive.tftp).sent)
        × ((read_session devices name device (length file)).status ≡ Status.finished)
  load_from_server patience rounds p arrivals {k = k} name file device sec b after idle o between c
        talk kind bytes short h there some_bytes small brought plays =
      let ended = serve-read devices name device file bytes h there small in
      let (s, same) =
        delivers
          (subst (λ ms. Brought ms arrivals) (replies devices name device file ended) brought) file
          refl small in
      let (d, runs, over, sent) =
        load_session level patience rounds p arrivals name file device sec b after idle o between c
          talk kind short some_bytes s plays in
      (
        d,
        runs,
        over,
        sent
            ∙ (ap
                  (λ xs. pushed xs (
                    to_server (request_bytes 1 (tftp_name name device))
                    ∷ (ethernet_probe_for_packet p k.drive.tftp).sent))
                  same
                ∙ unfold pushed in refl),
        ended.over,
      )
