-- ===== src/Iec/Command/Sessions.antt =====
-- A LOAD and a SAVE with the OPEN before them, as passes of loop (c64iec.ino): the name that the
-- computer sends is the name that the server is asked for.
use c64iec.Base.{
  pushed, ℕ, ◌≤◌, ◌<◌, ◌≡◌, sym, subst, ap, ◌∙◌, Bool, true, some, List, ◌∷◌, All, length, c_string,
}
use mathlib.Core.Option.{some_inj}
use c64iec.Tftp.{tftp_port}
use c64iec.Tftp.Wire.{datagram, request_bytes}
use c64iec.Iec.Bus.{Pin, Bus, act, ◌>>◌, wait_atn, release_clock, release_data}
use c64iec.Iec.Drive.{Arrival, Drive, ethernet_probe_for_packet}
use c64iec.Iec.FileName.Result.{tftp_name}
use c64iec.Iec.Load.Emit.{eoi_calls}
use c64iec.Iec.Load.Options.{Delivers, all_answers}
use c64iec.Iec.Save.Live.{bytes_of}
use c64iec.Iec.Save.Rounds.{Blocks, Serviced}
use c64iec.Iec.Machine.{Machine, run, play}
use c64iec.Iec.Command.{
  loop, mode_of, address_of, iec_listen, iec_talk, iec_data, iec_open, name_in_iobuf, turn,
}
use c64iec.Iec.Command.Open.{Spells}
use c64iec.Iec.Command.Atn.{told}
use c64iec.Iec.Command.Opening.{
  probed, probe-idle, answered, Calls, loop-called, loop-Spells, Between, Between-Waits,
}
use c64iec.Iec.Command.Transfers.{asked_for}
use c64iec.Iec.Command.Whole.{handle_atn-Serviced, handle_atn-Serves}

module _ (level : Pin → ℕ → Bool) where
  -- A pass of loop from m to n, in which the computer sends OPEN and a name for any device.
  pub record Opens (m : Machine) (name : List ℕ) (n : Machine) : Type 0 where
    pub device : ℕ
    pub sec : ℕ
    pub at_command : Bus
    pub at_end : Bus
    pub patience : ℕ
    pub rounds : ℕ
    pub packet : Arrival
    pub later : List Arrival
    pub command : Calls level m.bus device sec at_command
    pub listens : mode_of device ≡ iec_listen
    pub opens : mode_of sec ≡ iec_open
    pub spelt : Spells level (run (wait_atn level true) at_command) name at_end
    pub short : length name ≤ 256
    pub printable : All (λ x. 0 < x) name
    pub pass : loop level patience rounds packet later m ≡ some n

  -- The name is in iobuf, and no request is in progress.
  pub record Named (name : List ℕ) (n : Machine) : Type 0 where
    pub held : name_in_iobuf n.drive ≡ name
    pub idle : n.drive.tftp.request_in_progress ≡ 0

  Opens-Named :
      {m n : Machine} {name : List ℕ}
      → m.drive.tftp.request_in_progress ≡ 0
      → Opens m name n
      → Named name n
  Opens-Named {m = m} {n = n} {name = name} idle o =
      let (n', runs, held, bus, tftp) =
        loop-Spells level o.patience o.rounds o.packet o.later m o.device o.sec o.at_command
          o.at_end name o.command o.listens o.opens o.spelt o.short o.printable in
      subst (Named name) (some_inj.0 (sym runs ∙ o.pass)) (record {
        held = held;
        idle = ap (λ t. t.request_in_progress) tftp ∙ probe-idle o.packet m.drive.tftp idle;
      })

  -- Whatever passes come in between, the name is that of the OPEN when the transfer starts.
  pub Between-Named :
      {m n k : Machine} {name : List ℕ}
      → m.drive.tftp.request_in_progress ≡ 0
      → Opens m name n
      → Between level n k
      → Named name k
  Between-Named idle o s =
      let opened = Opens-Named idle o in
      let w = Between-Waits level opened.idle s in
      record { held = ap (λ memory. c_string 257 memory 0) w.buffer ∙ opened.held; idle = w.idle }

  pub wanted :
      {name : List ℕ} {k : Machine} (p : Arrival) (device sec : ℕ)
      → Named name k
      → asked_for (told (probed p k) device sec) ≡ tftp_name name device
  wanted p device sec n = ap (λ xs. tftp_name xs device) n.held

  -- OPEN and LOAD, as passes of loop. No request is in progress; in a first pass the computer sends OPEN
  -- with a name of at most 256 characters, none of them 0, for any device; any passes without a
  -- command, UNLISTENs, UNTALKs and CLOSEs come in between, with whatever packets; then it sends a
  -- TALK for any device with a secondary address for data. The server's name for that name and that
  -- device has at most 20 characters, the arrivals bring a file of at least one byte, and behind the
  -- turnaround the listener takes the calls of put_byte for exactly the bytes of the file, the last
  -- one with eoi. Then the last pass ends with no request in progress and with DATA and CLOCK
  -- released behind those calls. Behind its probe it has sent the read request for the name of the
  -- OPEN and then the acknowledgements of the options, if they came, and of each block in its order,
  -- and nothing else.
  pub load_session :
      (patience rounds : ℕ) (p : Arrival) (arrivals : List Arrival) {m n k : Machine}
      (name file : List ℕ) (device sec : ℕ) (b after : Bus)
      → m.drive.tftp.request_in_progress ≡ 0
      → Opens m name n
      → Between level n k
      → Calls level k.bus device sec b
      → mode_of device ≡ iec_talk
      → mode_of sec ≡ iec_data
      → length (tftp_name name device) ≤ 20
      → 0 < length file
      → (s : Delivers file arrivals)
      → play level patience (eoi_calls file) (run (turn level) b) ≡ some after
      → (d : Drive) × (loop level patience rounds p arrivals k
          ≡ some (record { bus = run (act release_data >> act release_clock) after; drive = d }))
        × (d.tftp.request_in_progress ≡ 0)
        × (d.tftp.sent
            ≡ pushed (all_answers s) (
                datagram (request_bytes 1 (tftp_name name device)) tftp_port
                ∷ (ethernet_probe_for_packet p k.drive.tftp).sent))
  load_session patience rounds p arrivals {k = k} name file device sec b after idle o between c talk
        kind short some_bytes s plays =
      let named = Between-Named idle o between in
      let asked = wanted p device sec named in
      let (d, runs, over, sent) =
        handle_atn-Serves level patience rounds arrivals
          (record { bus = answered level k.bus; drive = probed p k }) device sec b file after
          c.command talk kind (probe-idle p k.drive.tftp named.idle)
          (subst (λ xs. length xs ≤ 20) (sym asked) short) some_bytes s plays in
      (
        d,
        loop-called level patience rounds p arrivals k c.active ∙ runs,
        over,
        sent
            ∙ ap
                (λ xs. pushed (all_answers s) (
                  datagram (request_bytes 1 xs) tftp_port
                  ∷ (ethernet_probe_for_packet p k.drive.tftp).sent))
                asked,
      )

  -- OPEN and SAVE, as passes of loop. No request is in progress; in a first pass the computer sends OPEN
  -- with a name of at most 256 characters, none of them 0, for any device; any passes without a
  -- command, UNLISTENs, UNTALKs and CLOSEs come in between, with whatever packets; then it sends a
  -- LISTEN for any device with the secondary address 1 for data. The server's name for that name and
  -- that device has at most 20 characters, behind ATN the pins give the bytes of a file with eoi at
  -- the last one, and the server acknowledges the request and each block while the drive waits,
  -- behind any number of empty probes. Then the last pass ends with no request in progress; behind
  -- its probe it has sent the write request for the name of the OPEN and then exactly the DATA
  -- blocks of the file.
  pub save_session :
      (patience rounds : ℕ) (p : Arrival) (arrivals : List Arrival) {m n k : Machine}
      (name file : List ℕ) (device sec : ℕ) (b : Bus) (port : ℕ)
      → m.drive.tftp.request_in_progress ≡ 0
      → Opens m name n
      → Between level n k
      → Calls level k.bus device sec b
      → mode_of device ≡ iec_listen
      → mode_of sec ≡ iec_data
      → address_of sec ≡ 1
      → length (tftp_name name device) ≤ 20
      → Serviced port 65535 0 0 (bytes_of level rounds (run (wait_atn level true) b)) file arrivals
      → (m' : Machine) × (loop level patience rounds p arrivals k ≡ some m')
        × Blocks port 0 file
            (datagram (request_bytes 2 (tftp_name name device)) tftp_port
              ∷ (ethernet_probe_for_packet p k.drive.tftp).sent)
            m'.drive.tftp.sent
        × (m'.drive.tftp.request_in_progress ≡ 0)
  save_session patience rounds p arrivals {k = k} name file device sec b port idle o between c
        listen kind one short s =
      let named = Between-Named idle o between in
      let asked = wanted p device sec named in
      let (m', runs, sent, over) =
        handle_atn-Serviced level patience rounds arrivals
          (record { bus = answered level k.bus; drive = probed p k }) device sec b file port
          c.command listen kind one (probe-idle p k.drive.tftp named.idle)
          (subst (λ xs. length xs ≤ 20) (sym asked) short) s in
      (
        m',
        loop-called level patience rounds p arrivals k c.active ∙ runs,
        subst
            (λ xs.
              Blocks port 0 file
                (datagram (request_bytes 2 xs) tftp_port
                  ∷ (ethernet_probe_for_packet p k.drive.tftp).sent)
                m'.drive.tftp.sent)
            asked sent,
        over,
      )
