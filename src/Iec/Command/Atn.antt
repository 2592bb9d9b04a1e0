-- ===== src/Iec/Command/Atn.antt =====
-- A LOAD and a SAVE from the moment that the computer pulls ATN (c64iec.ino).
use c64iec.Base.{
  ℕ, ◌≡◌, ◌⊎◌, inl, inr, refl, ap, ◌∙◌, Bool, Bool-cases, true, false, ◌&&◌, ◌||◌, Option, some,
  List, ◌==◌, if◌then◌else◌,
}
use c64iec.Iec.Bus.{
  Pin, Bus, act, delay_microseconds, ◌>>=◌, ◌>>◌, wait_atn, wait_clock, release_clock, release_data,
}
use c64iec.Iec.Drive.{Arrival, Drive}
use c64iec.Iec.Machine.{Machine, Taken, run, take_byte}
use c64iec.Iec.Command.{
  handle_atn, device_command, secondary_command, handle_open, handle_close, iec_open, iec_close,
  handle_listen, handle_talk, mode_of, address_of, iec_listen, iec_talk, iec_data, iec_unlisten,
  iec_untalk, byte_of, refused, on_bus, turn, turn_back,
}
use c64iec.Iec.Command.Device.{refused-never}

-- The drive that has taken the two bytes of a command.
abbrev pub told : Drive → ℕ → ℕ → Drive
told d device sec = record d { device_mode = device; secondary = sec }

module _ (level : Pin → ℕ → Bool) where
  -- Behind ATN the computer moves CLOCK and sends the two bytes of a command, and the bus is b' then.
  pub record Commanded (b : Bus) (device sec : ℕ) (b' : Bus) : Type 0 where
    pub between : Bus
    pub first :
        take_byte level 1 (run (wait_clock level true >>= λ _. wait_clock level false) b)
        ≡ record { written = some device; result = 1; bus = between }
    pub second :
        take_byte level 1 (run (act (delay_microseconds 200)) between)
        ≡ record { written = some sec; result = 1; bus = b' }

  -- device_command behind its read of the secondary address.
  abbrev behind_sec : ℕ → ℕ → List Arrival → ℕ → Machine → Taken → Option Machine
  behind_sec patience rounds arrivals device m t =
      let mode = mode_of device in
      if mode == iec_unlisten || mode == iec_untalk
      then some (on_bus (wait_atn level true) m)
      else if (mode == iec_listen || mode == iec_talk) && refused device
      then some (on_bus (act release_clock >> act release_data) m)
      else if t.result == 0
      then some (record m { bus = t.bus })
      else secondary_command level patience rounds arrivals mode (byte_of t.written)
          (record { bus = t.bus; drive = record m.drive { secondary = byte_of t.written } })

  device_command-behind :
      (patience rounds : ℕ) (arrivals : List Arrival) (device : ℕ) (m : Machine)
      → device_command level patience rounds arrivals device m
        ≡ behind_sec patience rounds arrivals device m
            (take_byte level 1 (run (act (delay_microseconds 200)) m.bus))
  unfolding device_command
  device_command-behind patience rounds arrivals device m = refl

  device_command-Taken :
      (patience rounds : ℕ) (arrivals : List Arrival) (device sec : ℕ) (m : Machine) (b' : Bus)
      → take_byte level 1 (run (act (delay_microseconds 200)) m.bus)
        ≡ record { written = some sec; result = 1; bus = b' }
      → (mode_of device ≡ iec_listen) ⊎ (mode_of device ≡ iec_talk)
      → device_command level patience rounds arrivals device m
        ≡ secondary_command level patience rounds arrivals
            (mode_of device)
            sec
            (record { bus = b'; drive = record m.drive { secondary = sec } })
  device_command-Taken patience rounds arrivals device sec m b' second which =
      device_command-behind patience rounds arrivals device m
      ∙ (ap (behind_sec patience rounds arrivals device m) second ∙ elim which [
        | inl listen ↦ rw (listen, refused-never device) refl
        | inr talk ↦ rw (talk, refused-never device) refl
      ])

  -- handle_atn behind its read of the device byte.
  abbrev behind_device : ℕ → ℕ → List Arrival → Machine → Taken → Option Machine
  behind_device patience rounds arrivals m t =
      if t.result == 0
      then some (record m { bus = t.bus })
      else device_command level patience rounds arrivals (byte_of t.written)
          (record { bus = t.bus; drive = record m.drive { device_mode = byte_of t.written } })

  handle_atn-behind :
      (patience rounds : ℕ) (arrivals : List Arrival) (m : Machine)
      → handle_atn level patience rounds arrivals m
        ≡ behind_device patience rounds arrivals m
            (take_byte level 1 (run (wait_clock level true >>= λ _. wait_clock level false) m.bus))
  unfolding handle_atn
  handle_atn-behind patience rounds arrivals m = refl

  pub handle_atn-Commanded :
      (patience rounds : ℕ) (arrivals : List Arrival) (m : Machine) (device sec : ℕ) (b' : Bus)
      → Commanded m.bus device sec b'
      → (mode_of device ≡ iec_listen) ⊎ (mode_of device ≡ iec_talk)
      → handle_atn level patience rounds arrivals m
        ≡ secondary_command level patience rounds arrivals
            (mode_of device)
            sec
            (record { bus = b'; drive = told m.drive device sec })
  handle_atn-Commanded patience rounds arrivals m device sec b' c which =
      handle_atn-behind patience rounds arrivals m
      ∙ (ap (behind_device patience rounds arrivals m) c.first
          ∙ device_command-Taken patience rounds arrivals device sec
              (record { bus = c.between; drive = record m.drive { device_mode = device } }) b'
              c.second which)

  -- Behind ATN the computer moves CLOCK and sends two bytes. When the first is UNLISTEN or UNTALK,
  -- handle_atn remembers it and waits for the end of ATN. For every other first byte, whatever its
  -- device number is, it remembers both bytes and does what secondary_command does for the second one
  -- under the command in the first. So no device number is refused.
  pub handle_atn-every_device :
      (patience rounds : ℕ) (arrivals : List Arrival) (m : Machine) (device sec : ℕ) (b' : Bus)
      (c : Commanded m.bus device sec b')
      → handle_atn level patience rounds arrivals m ≡ (
          if mode_of device == iec_unlisten || mode_of device == iec_untalk
          then some (record {
            bus = run (wait_atn level true) c.between;
            drive = record m.drive { device_mode = device };
          })
          else secondary_command level patience rounds arrivals
              (mode_of device)
              sec
              (record { bus = b'; drive = told m.drive device sec }))
  handle_atn-every_device patience rounds arrivals m device sec b' c =
      let k : Machine = record {
        bus = c.between;
        drive = record m.drive { device_mode = device };
      } in
      handle_atn-behind patience rounds arrivals m
      ∙ (ap (behind_device patience rounds arrivals m) c.first
          ∙ (device_command-behind patience rounds arrivals device k
              ∙ (ap (behind_sec patience rounds arrivals device k) c.second
                  ∙ elim (Bool-cases (mode_of device == iec_listen || mode_of device == iec_talk)) [
                    | inl called ↦ rw (called, refused-never device) refl
                    | inr other ↦ rw other refl
                  ])))

  -- secondary_command as the chain of its tests, with what each does.
  abbrev chain :
      Option Machine
      → Option Machine
      → Option Machine
      → Option Machine
      → Option Machine
      → ℕ
      → ℕ
      → Option Machine
  chain opened closed listened talked nothing mode kind =
      if kind == iec_open
      then opened
      else if kind == iec_close
      then closed
      else if kind == iec_data && mode == iec_listen
      then listened
      else if kind == iec_data && mode == iec_talk
      then talked
      else nothing

  secondary_command-chain :
      (patience rounds : ℕ) (arrivals : List Arrival) (mode sec : ℕ) (m : Machine)
      → secondary_command level patience rounds arrivals mode sec m
        ≡ chain
            (some (handle_open level (address_of sec) (on_bus (wait_atn level true) m)))
            (some (handle_close level (address_of sec) m))
            (handle_listen level rounds arrivals (address_of sec) (on_bus (wait_atn level true) m))
            (turn_back level
              (handle_talk level patience arrivals (address_of sec) (on_bus (turn level) m)))
            (some m)
            mode
            (mode_of sec)
  unfolding secondary_command
  secondary_command-chain patience rounds arrivals mode sec m = refl

  pub secondary_command-listen :
      (patience rounds : ℕ) (arrivals : List Arrival) (sec : ℕ) (m : Machine)
      → mode_of sec ≡ iec_data
      → secondary_command level patience rounds arrivals iec_listen sec m
        ≡ handle_listen level rounds arrivals (address_of sec) (on_bus (wait_atn level true) m)
  secondary_command-listen patience rounds arrivals sec m kind =
      secondary_command-chain patience rounds arrivals iec_listen sec m ∙ rw kind refl

  pub secondary_command-talk :
      (patience rounds : ℕ) (arrivals : List Arrival) (sec : ℕ) (m : Machine)
      → mode_of sec ≡ iec_data
      → secondary_command level patience rounds arrivals iec_talk sec m
        ≡ turn_back level
            (handle_talk level patience arrivals (address_of sec) (on_bus (turn level) m))
  secondary_command-talk patience rounds arrivals sec m kind =
      secondary_command-chain patience rounds arrivals iec_talk sec m ∙ rw kind refl

  pub secondary_command-open :
      (patience rounds : ℕ) (arrivals : List Arrival) (mode sec : ℕ) (m : Machine)
      → mode_of sec ≡ iec_open
      → secondary_command level patience rounds arrivals mode sec m
        ≡ some (handle_open level (address_of sec) (on_bus (wait_atn level true) m))
  secondary_command-open patience rounds arrivals mode sec m kind =
      secondary_command-chain patience rounds arrivals mode sec m ∙ rw kind refl

  pub secondary_command-close :
      (patience rounds : ℕ) (arrivals : List Arrival) (mode sec : ℕ) (m : Machine)
      → mode_of sec ≡ iec_close
      → secondary_command level patience rounds arrivals mode sec m ≡ some m
  secondary_command-close patience rounds arrivals mode sec m kind =
      secondary_command-chain patience rounds arrivals mode sec m
      ∙ rw kind (unfold handle_close in refl)

  -- An UNLISTEN or an UNTALK: the drive waits for the end of ATN and has noted the byte.
  pub handle_atn-released :
      (patience rounds : ℕ) (arrivals : List Arrival) (m : Machine) (device : ℕ) (b : Bus)
      → take_byte level 1 (run (wait_clock level true >>= λ _. wait_clock level false) m.bus)
        ≡ record { written = some device; result = 1; bus = b }
      → (mode_of device ≡ iec_unlisten) ⊎ (mode_of device ≡ iec_untalk)
      → handle_atn level patience rounds arrivals m
        ≡ some (record {
          bus = run (wait_atn level true) b;
          drive = record m.drive { device_mode = device };
        })
  handle_atn-released patience rounds arrivals m device b first which =
      let k : Machine = record { bus = b; drive = record m.drive { device_mode = device } } in
      handle_atn-behind patience rounds arrivals m
      ∙ (ap (behind_device patience rounds arrivals m) first
          ∙ (device_command-behind patience rounds arrivals device k
              ∙ elim which [ inl unlisten ↦ rw unlisten refl | inr untalk ↦ rw untalk refl ]))
