-- ===== src/Iec/Command/Runs.antt =====
-- Whole commands of c64iec.ino on scripted pins, and a pass of loop.
use c64iec.Base.{ℕ, Bool, true, false, pushed, ◌≡◌, refl, some, [], ◌∷◌, arith}
use c64iec.Tftp.{tftp_port}
use c64iec.Tftp.Wire.{datagram, request_bytes}
use c64iec.Iec.Bus.{
  Pin, Bus, ◌>>=◌, wait_clock, get_byte, ◌>>◌, act, delay_microseconds, release_data, release_clock,
}
use c64iec.Tftp.Safe.{Safe}
use c64iec.Iec.Drive.{Drive, ethernet_probe_for_packet}
use c64iec.Iec.Command.Passes.{Passes}
use c64iec.Iec.Machine.{Machine, run, atn_active, take_byte}
use c64iec.Iec.Load.Serve.{Serves}
use c64iec.Iec.Load.Options.{Delivers, all_answers}
use c64iec.Iec.Save.Rounds.{Blocks}
use c64iec.Iec.Command.{loop, name_in_iobuf, handle_atn, secondary_command, iec_listen}
use c64iec.Iec.Command.Atn.{Commanded, told, handle_atn-every_device}
use c64iec.Iec.Command.Opening.{loop-Spells}
use c64iec.Iec.Command.Sessions.{load_session, save_session}
use c64iec.Iec.FileName.Result.{tftp_name}
use c64iec.Iec.Command.Tests.{
  talker, bus, drive, machine, silence, ack, one_byte, one_byte-Carries, sent_file, some_bytes,
}
use c64iec.Iec.Command.Scripts.{
  scripted, command_script, save_pins, load_pins, after_second, named_at, open_save-Calls,
  save-Spells, save_polled, save_opened-Opens, save_polled-Between, save_polled-Calls, load_polled,
  load_opened-Opens, load_polled-Between, load_polled-Calls, polled_at, save_name, load_name,
  save-Serviced,
}
use c64iec.Iec.Command.Listener.{heard}

loop-Spells_example :
    (m' : Machine) × (loop save_pins 9 1 silence [] machine ≡ some m')
    × (name_in_iobuf m'.drive ≡ 65 ∷ [])
    × (m'.bus ≡ named_at save_pins)
    × (m'.drive.tftp ≡ ethernet_probe_for_packet silence machine.drive.tftp)
loop-Spells_example =
    loop-Spells save_pins 9 1 silence [] machine 0x28 0xf0 (after_second save_pins bus)
      (named_at save_pins) (65 ∷ []) open_save-Calls refl refl save-Spells (omega arith)
      (omega arith, tt)

save_session_example :
    (m' : Machine) × (loop save_pins 9 1 silence (silence ∷ silence ∷ ack ∷ []) save_polled
      ≡ some m')
    × Blocks 1234 0
        (65 ∷ [])
        (datagram (request_bytes 2 (tftp_name (65 ∷ []) 0x28)) tftp_port
          ∷ (ethernet_probe_for_packet silence save_polled.drive.tftp).sent)
        m'.drive.tftp.sent
    × (m'.drive.tftp.request_in_progress ≡ 0)
save_session_example =
    save_session save_pins 9 1 silence (silence ∷ silence ∷ ack ∷ []) (65 ∷ []) (65 ∷ []) 0x28 0x61
      (after_second save_pins (polled_at save_pins)) 1234 refl save_opened-Opens save_polled-Between
      save_polled-Calls refl refl refl save_name save-Serviced

load-Delivers : Delivers sent_file (one_byte ∷ [])
load-Delivers = Delivers.direct (Serves.last one_byte 1 one_byte-Carries (omega arith) refl)

load_session_example :
    (d : Drive) × (loop load_pins 9 1 silence (one_byte ∷ []) load_polled
      ≡ some (record { bus = run (act release_data >> act release_clock) heard.0; drive = d }))
    × (d.tftp.request_in_progress ≡ 0)
    × (d.tftp.sent
        ≡ pushed (all_answers load-Delivers) (
            datagram (request_bytes 1 (tftp_name (65 ∷ []) 0x48)) tftp_port
            ∷ (ethernet_probe_for_packet silence load_polled.drive.tftp).sent))
load_session_example =
    load_session load_pins 9 1 silence (one_byte ∷ []) (65 ∷ []) sent_file 0x48 0x60
      (after_second load_pins (polled_at load_pins)) heard.0 refl load_opened-Opens
      load_polled-Between load_polled-Calls refl refl load_name some_bytes load-Delivers heard.1

-- A pass without a command, in which a packet comes.
abbrev passed : Machine
passed = record {
  bus = run (act (delay_microseconds 100)) (atn_active talker bus).1;
  drive = record drive { tftp = ethernet_probe_for_packet one_byte drive.tftp };
}

-- LISTEN 4, which is a printer, and OPEN at address 0.
abbrev printer_pins : Pin → ℕ → Bool
printer_pins = scripted (command_script 0x24 0xf0)

abbrev printer_between : Bus
printer_between =
    (take_byte printer_pins 1
      (run (wait_clock printer_pins true >>= λ _. wait_clock printer_pins false) bus)).bus

abbrev printer_bus : Bus
printer_bus = (take_byte printer_pins 1 (run (act (delay_microseconds 200)) printer_between)).bus

printer_called : Commanded printer_pins bus 0x24 0xf0 printer_bus
unfolding take_byte get_byte wait_clock
printer_called = record { between = printer_between; first = refl; second = refl }

handle_atn-every_device_example :
    handle_atn printer_pins 9 1 [] machine
    ≡ secondary_command printer_pins 9 1 [] iec_listen 0xf0
        (record { bus = printer_bus; drive = told machine.drive 0x24 0xf0 })
handle_atn-every_device_example =
    handle_atn-every_device printer_pins 9 1 [] machine 0x24 0xf0 printer_bus printer_called
