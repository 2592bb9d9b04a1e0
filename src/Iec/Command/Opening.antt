-- ===== src/Iec/Command/Opening.antt =====
-- What the computer does before a LOAD or a SAVE (c64iec.ino): OPEN with a name, and the passes of loop
-- up to the TALK or the LISTEN.
use c64iec.Base.{
  ℕ, ◌≤◌, ◌<◌, ◌≡◌, ◌⊎◌, inl, refl, ap, ◌∙◌, Bool, true, false, Option, some, List, All, arith,
  length, if◌then◌else◌,
}
use c64iec.Tftp.{Tftp}
use c64iec.Tftp.Guards.{recv_packet-idle}
use c64iec.Iec.Bus.{
  Pin, Bus, act, delay_microseconds, ◌>>=◌, ◌>>◌, wait_atn, wait_clock, release_clock, pull_data,
}
use c64iec.Iec.Drive.{Arrival, Drive, ethernet_probe_for_packet}
use c64iec.Iec.Machine.{Machine, run, atn_active, take_byte}
use c64iec.Iec.Command.{
  loop, handle_atn, handle_open, mode_of, address_of, iec_listen, iec_open, iec_close, iec_unlisten,
  iec_untalk, name_in_iobuf, on_bus,
}
use c64iec.Iec.Command.Open.{Spells, handle_open-Spells}
use c64iec.Iec.Command.Passes.{open_loop-tftp}
use c64iec.Iec.Command.Atn.{
  told, Commanded, handle_atn-Commanded, handle_atn-released, secondary_command-open,
  secondary_command-close,
}

-- The drive behind the probe of a pass.
abbrev pub probed : Arrival → Machine → Drive
probed p m = record m.drive { tftp = ethernet_probe_for_packet p m.drive.tftp }

pub probe-idle :
    (p : Arrival) (t : Tftp)
    → t.request_in_progress ≡ 0
    → (ethernet_probe_for_packet p t).request_in_progress ≡ 0
unfolding ethernet_probe_for_packet
probe-idle p t idle = recv_packet-idle t p.ether p.plen idle

module _ (level : Pin → ℕ → Bool) where
  -- The bus when handle_atn is called.
  abbrev pub answered : Bus → Bus
  answered b = run (act release_clock >> act pull_data) (atn_active level b).1

  -- loop behind its look at ATN.
  abbrev behind_atn : ℕ → ℕ → Arrival → List Arrival → Machine → Bool → Option Machine
  behind_atn patience rounds p later m active =
      if active
      then handle_atn level patience rounds later
          (record { bus = answered m.bus; drive = probed p m })
      else some (record {
        bus = run (act (delay_microseconds 100)) (atn_active level m.bus).1;
        drive = probed p m;
      })

  loop-behind :
      (patience rounds : ℕ) (p : Arrival) (later : List Arrival) (m : Machine)
      → loop level patience rounds p later m
        ≡ behind_atn patience rounds p later m (atn_active level m.bus).0
  unfolding loop
  loop-behind patience rounds p later m = refl

  -- A pass of loop that sees ATN.
  pub loop-called :
      (patience rounds : ℕ) (p : Arrival) (later : List Arrival) (m : Machine)
      → (atn_active level m.bus).0 ≡ true
      → loop level patience rounds p later m
        ≡ handle_atn level patience rounds later
            (record { bus = answered m.bus; drive = probed p m })
  loop-called patience rounds p later m active =
      loop-behind patience rounds p later m ∙ ap (behind_atn patience rounds p later m) active

  pub loop-uncalled :
      (patience rounds : ℕ) (p : Arrival) (later : List Arrival) (m : Machine)
      → (atn_active level m.bus).0 ≡ false
      → loop level patience rounds p later m
        ≡ some (record {
          bus = run (act (delay_microseconds 100)) (atn_active level m.bus).1;
          drive = probed p m;
        })
  loop-uncalled patience rounds p later m quiet =
      loop-behind patience rounds p later m ∙ ap (behind_atn patience rounds p later m) quiet

  -- The computer pulls ATN and sends the two bytes of a command.
  pub record Calls (b : Bus) (device sec : ℕ) (b' : Bus) : Type 0 where
    pub active : (atn_active level b).0 ≡ true
    pub command : Commanded level (answered b) device sec b'

  -- The computer pulls ATN and sends UNLISTEN or UNTALK.
  pub record Releases (b : Bus) (device : ℕ) (b' : Bus) : Type 0 where
    pub active : (atn_active level b).0 ≡ true
    pub byte :
        take_byte level 1 (run (wait_clock level true >>= λ _. wait_clock level false) (answered b))
        ≡ record { written = some device; result = 1; bus = b' }
    pub release : (mode_of device ≡ iec_unlisten) ⊎ (mode_of device ≡ iec_untalk)

  handle_open-tftp : (sec : ℕ) (m : Machine) → (handle_open level sec m).drive.tftp ≡ m.drive.tftp
  unfolding handle_open
  handle_open-tftp sec m = open_loop-tftp level 256 0 m

  -- OPEN, as a pass of loop. The computer sends a LISTEN for any device and an OPEN, and behind ATN the
  -- pins give the characters of a name, at most 256 and none of them 0, with end-or-identify at the
  -- last one alone. Then the pass ends with the name in iobuf as a C string and the bus where the last
  -- character has left it, and has done nothing to the TFTP client but its probe.
  pub loop-Spells :
      (patience rounds : ℕ) (p : Arrival) (later : List Arrival) (m : Machine) (device sec : ℕ)
      (b b' : Bus) (name : List ℕ)
      → Calls m.bus device sec b
      → mode_of device ≡ iec_listen
      → mode_of sec ≡ iec_open
      → Spells level (run (wait_atn level true) b) name b'
      → length name ≤ 256
      → All (λ x. 0 < x) name
      → (m' : Machine) × (loop level patience rounds p later m ≡ some m')
        × (name_in_iobuf m'.drive ≡ name)
        × (m'.bus ≡ b')
        × (m'.drive.tftp ≡ ethernet_probe_for_packet p m.drive.tftp)
  loop-Spells patience rounds p later m device sec b b' name c listen kind spells short pos =
      let k : Machine = record { bus = b; drive = told (probed p m) device sec } in
      let waited = on_bus (wait_atn level true) k in
      let (held, bus) = handle_open-Spells level (address_of sec) waited spells short pos in
      (
        handle_open level (address_of sec) waited,
        loop-called patience rounds p later m c.active
            ∙ (handle_atn-Commanded level patience rounds later
                  (record { bus = answered m.bus; drive = probed p m }) device sec b c.command
                  (inl listen)
                ∙ secondary_command-open level patience rounds later (mode_of device) sec k kind),
        held,
        bus,
        handle_open-tftp (address_of sec) waited,
      )

  -- Passes of loop between an OPEN and the transfer: passes without a command, with whatever packet
  -- comes, and the commands UNLISTEN, UNTALK and CLOSE.
  pub data Between (m : Machine) : Machine → Type 0 where
    start : Between m m
    poll :
        {k n : Machine} (patience rounds : ℕ) (p : Arrival) (later : List Arrival)
        → Between m k
        → (atn_active level k.bus).0 ≡ false
        → loop level patience rounds p later k ≡ some n
        → Between m n
    release :
        {k n : Machine} {b : Bus} (patience rounds : ℕ) (p : Arrival) (later : List Arrival)
        (device : ℕ)
        → Between m k
        → Releases k.bus device b
        → loop level patience rounds p later k ≡ some n
        → Between m n
    close :
        {k n : Machine} {b : Bus} (patience rounds : ℕ) (p : Arrival) (later : List Arrival)
        (device sec : ℕ)
        → Between m k
        → Calls k.bus device sec b
        → mode_of device ≡ iec_listen
        → mode_of sec ≡ iec_close
        → loop level patience rounds p later k ≡ some n
        → Between m n

  -- The buffer is that of m, and no request is in progress.
  pub record Waits (m n : Machine) : Type 0 where
    pub buffer : n.drive.iobuf ≡ m.drive.iobuf
    pub idle : n.drive.tftp.request_in_progress ≡ 0

  Waits-end :
      {m k n : Machine} (p : Arrival) {o : Option Machine} (r : Machine)
      → Waits m k
      → o ≡ some n
      → o ≡ some r
      → r.drive.iobuf ≡ k.drive.iobuf
      → r.drive.tftp ≡ ethernet_probe_for_packet p k.drive.tftp
      → Waits m n
  Waits-end {k = k} p r w e f buffer tftp =
      ground (arith, probe-idle p k.drive.tftp w.idle, w.buffer)

  pub Between-Waits :
      {m n : Machine} → m.drive.tftp.request_in_progress ≡ 0 → Between m n → Waits m n
  Between-Waits idle start = record { buffer = refl; idle = idle }
  Between-Waits idle (poll {k = k} patience rounds p later s quiet e) =
      Waits-end p
        (record {
          bus = run (act (delay_microseconds 100)) (atn_active level k.bus).1;
          drive = probed p k;
        })
        (Between-Waits idle s) e (loop-uncalled patience rounds p later k quiet) refl refl
  Between-Waits idle (release {k = k} {b = b} patience rounds p later device s r e) =
      let d = probed p k in
      Waits-end p
        (record { bus = run (wait_atn level true) b; drive = record d { device_mode = device } })
        (Between-Waits idle s) e
        (loop-called patience rounds p later k r.active
          ∙ handle_atn-released level patience rounds later
              (record { bus = answered k.bus; drive = d }) device b r.byte r.release)
        refl refl
  Between-Waits idle (close {k = k} {b = b} patience rounds p later device sec s c listen kind e) =
      let d = probed p k in
      let closed : Machine = record { bus = b; drive = told d device sec } in
      Waits-end p closed (Between-Waits idle s) e
        (loop-called patience rounds p later k c.active
          ∙ (handle_atn-Commanded level patience rounds later
                (record { bus = answered k.bus; drive = d }) device sec b c.command (inl listen)
              ∙ secondary_command-close level patience rounds later (mode_of device) sec closed
                  kind))
        refl refl
