-- ===== src/Iec/Command/Transfers.antt =====
-- A SAVE and a LOAD as commands (c64iec.ino): the name in iobuf, the transfer, and the bus.
use c64iec.Base.{
  pushed, ℕ, ◌≤◌, ◌<◌, ◌≡◌, ◌≢◌, refl, sym, subst, ap, ◌∙◌, Bool, none, some, List, [], ◌∷◌, arith,
  length, c_string,
}
use mathlib.Core.List.{reverse}
use c64iec.Tftp.{tftp_port, tftp_error}
use c64iec.Tftp.Download.{Carries}
use c64iec.Tftp.Wire.{datagram, request_bytes}
use c64iec.Iec.Bus.{Pin, Bus, act, ◌>>◌, release_clock, release_data}
use c64iec.Iec.Drive.{Arrival, Drive}
use c64iec.Iec.FileName.Result.{tftp_name, create_tftp_filename_lem}
use c64iec.Iec.Load.{send_file}
use c64iec.Iec.Load.Emit.{eoi_calls, reverse-logged}
use c64iec.Iec.Load.Options.{Delivers, all_answers}
use c64iec.Iec.Load.File.{send_file-Serves, send_file-error}
use c64iec.Iec.Save.Live.{Result, forget, recv_file_on, bytes_of, recv_file_on-recv_file}
use c64iec.Iec.Save.Rounds.{Blocks, Serviced}
use c64iec.Iec.Save.File.{recv_file-Serviced}
use c64iec.Iec.Machine.{Machine, play, run}
use c64iec.Iec.Command.{handle_listen, handle_talk, named, name_in_iobuf}

-- The name that the drive asks the server for.
abbrev pub asked_for : Drive → List ℕ
asked_for d = tftp_name (name_in_iobuf d) d.device_mode

named-asked_for : (d : Drive) → c_string 53 (named d).tftp_filename 0 ≡ asked_for d
named-asked_for d = (create_tftp_filename_lem (name_in_iobuf d) d.device_mode d.tftp_filename).0

remember :
    (o : Result) (d : Drive) (r : ℕ) → forget o ≡ some (d, r) → (bus : Bus) × (o ≡ some (d, bus, r))
remember none d r e = absurd (cc)
remember (some (d', bus, r')) d r e = (bus, ground arith)

module _ (level : Pin → ℕ → Bool) where
  listen-received :
      (rounds : ℕ) (arrivals : List Arrival) (m : Machine) (d : Drive) (bus : Bus)
      → recv_file_on level rounds arrivals m.bus (named m.drive) ≡ some (d, bus, 1)
      → handle_listen level rounds arrivals 1 m ≡ some (record { bus = bus; drive = d })
  unfolding handle_listen
  listen-received rounds arrivals m d bus e = rw e refl

  talk-sent :
      (patience : ℕ) (arrivals : List Arrival) (sec_addr : ℕ) (m : Machine) (d : Drive) (bus : Bus)
      → send_file arrivals (record (named m.drive) { puts = [] }) ≡ some (d, 1)
      → play level patience (reverse d.puts) m.bus ≡ some bus
      → handle_talk level patience arrivals sec_addr m ≡ some (record { bus = bus; drive = d })
  unfolding handle_talk
  talk-sent patience arrivals sec_addr m d bus e f = rw (e, f) refl

  -- A SAVE from the bus to the server. When no request is in progress, the server's name for the name in
  -- iobuf has at most 20 characters, and the pins and the packets bring a file as recv_file-Serviced
  -- wants it, then handle_listen at secondary address 1 ends with no request in progress. It has
  -- sent the write request for that name and then exactly the DATA blocks of the file.
  pub handle_listen-Serviced :
      (rounds : ℕ) (arrivals : List Arrival) (m : Machine) (file : List ℕ) (port : ℕ)
      → m.drive.tftp.request_in_progress ≡ 0
      → length (asked_for m.drive) ≤ 20
      → Serviced port 65535 0 0 (bytes_of level rounds m.bus) file arrivals
      → (m' : Machine) × (handle_listen level rounds arrivals 1 m ≡ some m')
        × Blocks port 0 file
            (datagram (request_bytes 2 (asked_for m.drive)) tftp_port ∷ m.drive.tftp.sent)
            m'.drive.tftp.sent
        × (m'.drive.tftp.request_in_progress ≡ 0)
  handle_listen-Serviced rounds arrivals m file port idle short s =
      let name = named-asked_for m.drive in
      let (d', run, sent, over) =
        recv_file-Serviced (bytes_of level rounds m.bus) arrivals (named m.drive) file port idle
          (subst (λ xs. length xs ≤ 20) (sym name) short) s in
      let (bus, on) =
        remember (recv_file_on level rounds arrivals m.bus (named m.drive)) d' 1
          (recv_file_on-recv_file level rounds arrivals m.bus (named m.drive) ∙ run) in
      (
        record { bus = bus; drive = d' },
        listen-received rounds arrivals m d' bus on,
        subst
            (λ xs.
              Blocks port 0 file (datagram (request_bytes 2 xs) tftp_port ∷ m.drive.tftp.sent)
                d'.tftp.sent)
            name sent,
        over,
      )

  -- A LOAD from the server to the bus. When no request is in progress, the server's name for the name
  -- in iobuf has at most 20 characters, the arrivals bring a file of at least one byte, and the
  -- listener takes the calls of put_byte for exactly the bytes of the file, the last one with eoi,
  -- then handle_talk ends with the bus as those calls leave it, and with no request in progress. It has
  -- sent the read request for that name and the answers to what has come, and nothing else.
  pub handle_talk-Serves :
      (patience : ℕ) (arrivals : List Arrival) (sec_addr : ℕ) (m : Machine) (file : List ℕ)
      (bus : Bus)
      → m.drive.tftp.request_in_progress ≡ 0
      → length (asked_for m.drive) ≤ 20
      → 0 < length file
      → (s : Delivers file arrivals) → play level patience (eoi_calls file) m.bus ≡ some bus
      → (d : Drive) × (handle_talk level patience arrivals sec_addr m
          ≡ some (record { bus = bus; drive = d }))
        × (d.tftp.request_in_progress ≡ 0)
        × (d.tftp.sent
            ≡ pushed
                (all_answers s)
                (datagram (request_bytes 1 (asked_for m.drive)) tftp_port ∷ m.drive.tftp.sent))
  handle_talk-Serves patience arrivals sec_addr m file bus idle short some_bytes s plays =
      let d0 = record (named m.drive) { puts = [] } in
      let (d', run, puts, over, sent) =
        send_file-Serves arrivals d0 file idle
          (subst (λ xs. length xs ≤ 20) (sym (named-asked_for m.drive)) short) some_bytes s in
      (
        d',
        talk-sent patience arrivals sec_addr m d' bus run (
            ap (λ cs. play level patience cs m.bus)
              (ap reverse puts ∙ reverse-logged (eoi_calls file) [])
            ∙ plays),
        over,
        sent
            ∙ ap
                (λ xs.
                  pushed (all_answers s)
                    (datagram (request_bytes 1 xs) tftp_port ∷ m.drive.tftp.sent))
                (named-asked_for m.drive),
      )

  talk-failed :
      (patience : ℕ) (arrivals : List Arrival) (sec_addr : ℕ) (m : Machine) (d : Drive)
      → send_file arrivals (record (named m.drive) { puts = [] }) ≡ some (d, 0)
      → d.puts ≡ []
      → handle_talk level patience arrivals sec_addr m
        ≡ some (record { bus = run (act release_clock >> act release_data) m.bus; drive = d })
  unfolding handle_talk play
  talk-failed patience arrivals sec_addr m d e f = rw (e, f) refl

  -- A LOAD that the server answers with an ERROR packet puts no byte on the bus, and releases it.
  pub handle_talk-error :
      (patience : ℕ) (a : Arrival) (later : List Arrival) (sec_addr : ℕ) (m : Machine)
      (error_code n : ℕ)
      → m.drive.tftp.request_in_progress ≡ 0
      → length (asked_for m.drive) ≤ 20
      → Carries a.ether a.plen tftp_error error_code n
      → error_code ≢ 65535
      → (d : Drive) × (handle_talk level patience (a ∷ later) sec_addr m
          ≡ some (record { bus = run (act release_clock >> act release_data) m.bus; drive = d }))
        × (d.tftp.request_in_progress ≡ 0)
  handle_talk-error patience a later sec_addr m error_code n idle short c new =
      let (d, runs, puts, over) =
        send_file-error a later (record (named m.drive) { puts = [] }) error_code n idle
          (subst (λ xs. length xs ≤ 20) (sym (named-asked_for m.drive)) short) c new in
      (d, talk-failed patience (a ∷ later) sec_addr m d runs puts, over)
