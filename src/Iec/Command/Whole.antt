-- ===== src/Iec/Command/Whole.antt =====
-- A LOAD and a SAVE from the moment that the computer pulls ATN to their end (c64iec.ino).
use c64iec.Base.{pushed, ℕ, ◌≤◌, ◌<◌, ◌≡◌, inl, inr, ap, ◌∙◌, Bool, true, some, List, ◌∷◌, length}
use c64iec.Tftp.{tftp_port}
use c64iec.Tftp.Wire.{datagram, request_bytes}
use c64iec.Iec.Bus.{Pin, Bus, act, ◌>>◌, wait_atn, release_clock, release_data}
use c64iec.Iec.Drive.{Arrival, Drive}
use c64iec.Iec.Load.Emit.{eoi_calls}
use c64iec.Iec.Load.Options.{Delivers, all_answers}
use c64iec.Iec.Save.Live.{bytes_of}
use c64iec.Iec.Save.Rounds.{Blocks, Serviced}
use c64iec.Iec.Machine.{Machine, run, play}
use c64iec.Iec.Command.{
  handle_atn, secondary_command, handle_listen, mode_of, address_of, iec_listen, iec_talk, iec_data,
  on_bus, turn, turn_back,
}
use c64iec.Iec.Command.Atn.{
  told, Commanded, handle_atn-Commanded, secondary_command-listen, secondary_command-talk,
}
use c64iec.Iec.Command.Transfers.{asked_for, handle_listen-Serviced, handle_talk-Serves}

module _ (level : Pin → ℕ → Bool) where
  -- A SAVE from the bus to the server, from ATN on. The computer sends a LISTEN for any device and the
  -- secondary address 1 for data; no request is in progress, the server's name for the name in iobuf
  -- and that device has at most 20 characters; behind ATN the pins give the bytes of a file with eoi at
  -- the last one, and the server acknowledges the request and each block while the drive waits, behind
  -- any number of empty probes. Then handle_atn ends with no request in progress, and has sent the
  -- write request for that name and then exactly the DATA blocks of the file.
  pub handle_atn-Serviced :
      (patience rounds : ℕ) (arrivals : List Arrival) (m : Machine) (device sec : ℕ) (b : Bus)
      (file : List ℕ) (port : ℕ)
      → Commanded level m.bus device sec b
      → mode_of device ≡ iec_listen
      → mode_of sec ≡ iec_data
      → address_of sec ≡ 1
      → m.drive.tftp.request_in_progress ≡ 0
      → length (asked_for (told m.drive device sec)) ≤ 20
      → Serviced port 65535 0 0 (bytes_of level rounds (run (wait_atn level true) b)) file arrivals
      → (m' : Machine) × (handle_atn level patience rounds arrivals m ≡ some m')
        × Blocks port 0 file
            (datagram (request_bytes 2 (asked_for (told m.drive device sec))) tftp_port
              ∷ m.drive.tftp.sent)
            m'.drive.tftp.sent
        × (m'.drive.tftp.request_in_progress ≡ 0)
  handle_atn-Serviced patience rounds arrivals m device sec b file port c listen kind one idle short
        s =
      let k : Machine = record { bus = b; drive = told m.drive device sec } in
      let waited = on_bus (wait_atn level true) k in
      let (m', runs, sent, over) =
        handle_listen-Serviced level rounds arrivals waited file port idle short s in
      (
        m',
        handle_atn-Commanded level patience rounds arrivals m device sec b c (inl listen)
            ∙ (ap (λ x. secondary_command level patience rounds arrivals x sec k) listen
                ∙ (secondary_command-listen level patience rounds arrivals sec k kind
                    ∙ (ap (λ x. handle_listen level rounds arrivals x waited) one ∙ runs))),
        sent,
        over,
      )

  -- A LOAD from the server to the bus, from ATN on. The computer sends a TALK for any device and any
  -- secondary address for data; no request is in progress, the server's name for the name in iobuf
  -- and that device has at most 20 characters, the arrivals bring a file of at least one byte, and
  -- behind the turnaround the listener takes the calls of put_byte for exactly the bytes of the file,
  -- the last one with eoi. Then handle_atn ends with no request in progress, and with DATA and CLOCK
  -- released behind those calls. It has sent the read request for that name and behind it the
  -- acknowledgements of the options, if they came, and of each block in its order, and nothing else.
  pub handle_atn-Serves :
      (patience rounds : ℕ) (arrivals : List Arrival) (m : Machine) (device sec : ℕ) (b : Bus)
      (file : List ℕ) (after : Bus)
      → Commanded level m.bus device sec b
      → mode_of device ≡ iec_talk
      → mode_of sec ≡ iec_data
      → m.drive.tftp.request_in_progress ≡ 0
      → length (asked_for (told m.drive device sec)) ≤ 20
      → 0 < length file
      → (s : Delivers file arrivals)
      → play level patience (eoi_calls file) (run (turn level) b) ≡ some after
      → (d : Drive) × (handle_atn level patience rounds arrivals m
          ≡ some (record { bus = run (act release_data >> act release_clock) after; drive = d }))
        × (d.tftp.request_in_progress ≡ 0)
        × (d.tftp.sent
            ≡ pushed (all_answers s) (
                datagram (request_bytes 1 (asked_for (told m.drive device sec))) tftp_port
                ∷ m.drive.tftp.sent))
  handle_atn-Serves patience rounds arrivals m device sec b file after c talk kind idle short
        some_bytes s plays =
      let k : Machine = record { bus = b; drive = told m.drive device sec } in
      let (d, runs, over, sent) =
        handle_talk-Serves level patience arrivals (address_of sec) (on_bus (turn level) k) file
          after idle short some_bytes s plays in
      (
        d,
        handle_atn-Commanded level patience rounds arrivals m device sec b c (inr talk)
            ∙ (ap (λ x. secondary_command level patience rounds arrivals x sec k) talk
                ∙ (secondary_command-talk level patience rounds arrivals sec k kind
                    ∙ ap (turn_back level) runs)),
        over,
        sent,
      )
