-- ===== src/Iec/Command/Scripts.antt =====
-- Pins on which a computer sends OPEN and then a SAVE or a LOAD (c64iec.ino).
use c64iec.Base.{
  false, subst, sym, ap, ◌∙◌, zero, suc, ◌++◌, get_or, ℕ, ◌≤◌, ◌≡◌, refl, Bool, true, some, List,
  [], ◌∷◌, arith, length,
}
use c64iec.Iec.Bus.{Pin, Bus, ◌>>=◌, act, delay_microseconds, get_byte, wait_clock, wait_atn}
use c64iec.Iec.Bus.Bytes.{bit}
use c64iec.Iec.Drive.{ethernet_probe_for_packet}
use c64iec.Iec.Machine.{Machine, run, atn_active, take_byte, next_byte}
use c64iec.Iec.FileName.Encoding.{encode, kept}
use c64iec.Iec.Save.Rounds.{Serviced}
use c64iec.Iec.Save.Live.{bytes_of}
use c64iec.Iec.Command.{loop, name_in_iobuf}
use c64iec.Iec.Command.Open.{Spells}
use c64iec.Iec.Command.Opening.{probed, answered, Calls, loop-uncalled, loop-Spells, Between}
use c64iec.Iec.Command.Sessions.{Opens}
use c64iec.Iec.FileName.Result.{tftp_name}
use c64iec.Iec.Command.Tests.{bus, machine, silence, ack, ack-Acked}

-- Pins that have a level at each call of digitalRead, whichever pin it reads, and HIGH behind them.
abbrev pub scripted : List Bool → Pin → ℕ → Bool
scripted script p t = get_or script t true

-- The calls for n bits of a value from bit i on, and those for a byte whose end-or-identify is forced.
abbrev pub bits_script : ℕ → ℕ → ℕ → List Bool
bits_script v zero i = []
bits_script v (suc n) i = true ∷ bit v i ∷ false ∷ bits_script v n (suc i)

abbrev pub forced_script : ℕ → List Bool
forced_script v = true ∷ true ∷ false ∷ bits_script v 8 0

-- ATN and a command, with the wait for the end of ATN.
abbrev pub command_script : ℕ → ℕ → List Bool
command_script device sec =
    true ∷ false ∷ (forced_script device ++ (forced_script sec ++ (true ∷ [])))

abbrev pub repeated : ℕ → Bool → List Bool
repeated zero b = []
repeated (suc n) b = b ∷ repeated n b

-- A pass that sees ATN, in which the computer sends LISTEN 8, OPEN at address 0 and the name A with
-- end-or-identify, and a pass that does not see it.
abbrev pub opening : List Bool
opening =
    false
    ∷ (command_script 0x28 0xf0
        ++ (repeated 31 true ++ (false ∷ (bits_script 65 8 0 ++ (true ∷ [])))))

-- Then LISTEN 8, data at address 1, and the byte 65 with end-or-identify.
abbrev pub save_pins : Pin → ℕ → Bool
save_pins = scripted (
    opening
    ++ (false ∷ (command_script 0x28 0x61 ++ (repeated 31 true ++ (false ∷ bits_script 65 8 0)))))

-- Or TALK 8, data at address 0, and a listener for one byte.
abbrev pub load_pins : Pin → ℕ → Bool
load_pins = scripted (
    opening
    ++ (false
        ∷ (command_script 0x48 0x60
            ++ (false ∷ true ∷ true ∷ false ∷ (repeated 9 true ++ (false ∷ []))))))

-- The bus behind the first and the second byte of a command in a pass.
abbrev pub after_first : (Pin → ℕ → Bool) → Bus → Bus
after_first pins b =
    (take_byte pins 1
      (run (wait_clock pins true >>= λ _. wait_clock pins false) (answered pins b))).bus

abbrev pub after_second : (Pin → ℕ → Bool) → Bus → Bus
after_second pins b =
    (take_byte pins 1 (run (act (delay_microseconds 200)) (after_first pins b))).bus

abbrev pub at_name : (Pin → ℕ → Bool) → Bus
at_name pins = run (wait_atn pins true) (after_second pins bus)

abbrev pub named_at : (Pin → ℕ → Bool) → Bus
named_at pins = (take_byte pins 0 (atn_active pins (at_name pins)).1).bus

-- The bus behind the pass without a command.
abbrev pub polled_at : (Pin → ℕ → Bool) → Bus
polled_at pins = run (act (delay_microseconds 100)) (atn_active pins (named_at pins)).1

pub open_save-Calls : Calls save_pins bus 0x28 0xf0 (after_second save_pins bus)
unfolding atn_active take_byte get_byte wait_clock
open_save-Calls = record {
  active = refl;
  command = record { between = after_first save_pins bus; first = refl; second = refl };
}

pub open_load-Calls : Calls load_pins bus 0x28 0xf0 (after_second load_pins bus)
unfolding atn_active take_byte get_byte wait_clock
open_load-Calls = record {
  active = refl;
  command = record { between = after_first load_pins bus; first = refl; second = refl };
}

pub save-Spells : Spells save_pins (at_name save_pins) (65 ∷ []) (named_at save_pins)
unfolding atn_active take_byte get_byte wait_clock wait_atn
save-Spells = Spells.last 65 1 (record { quiet = refl; byte = refl }) (omega arith)

pub load-Spells : Spells load_pins (at_name load_pins) (65 ∷ []) (named_at load_pins)
unfolding atn_active take_byte get_byte wait_clock wait_atn
load-Spells = Spells.last 65 1 (record { quiet = refl; byte = refl }) (omega arith)

module _ (pins : Pin → ℕ → Bool) (calls : Calls pins bus 0x28 0xf0 (after_second pins bus))
    (spells : Spells pins (at_name pins) (65 ∷ []) (named_at pins))
    (quiet : (atn_active pins (named_at pins)).0 ≡ false) where
  pub open_pass :
      (m' : Machine) × (loop pins 9 1 silence [] machine ≡ some m')
      × (name_in_iobuf m'.drive ≡ 65 ∷ [])
      × (m'.bus ≡ named_at pins)
      × (m'.drive.tftp ≡ ethernet_probe_for_packet silence machine.drive.tftp)
  open_pass =
      loop-Spells pins 9 1 silence [] machine 0x28 0xf0 (after_second pins bus) (named_at pins)
        (65 ∷ []) calls refl refl spells (omega arith) (omega arith, tt)

  abbrev pub opened : Machine
  opened = open_pass.0

  pub opened-Opens : Opens pins machine (65 ∷ []) opened
  opened-Opens = record {
    device = 0x28;
    sec = 0xf0;
    at_command = after_second pins bus;
    at_end = named_at pins;
    patience = 9;
    rounds = 1;
    packet = silence;
    later = [];
    command = calls;
    listens = refl;
    opens = refl;
    spelt = spells;
    short = omega arith;
    printable = (omega arith, tt);
    pass = open_pass.1;
  }

  -- The machine behind a pass without a command.
  abbrev pub polled : Machine
  polled = record {
    bus = run (act (delay_microseconds 100)) (atn_active pins opened.bus).1;
    drive = probed silence opened;
  }

  opened-quiet : (atn_active pins opened.bus).0 ≡ false
  opened-quiet = ap (λ b. (atn_active pins b).0) open_pass.3 ∙ quiet

  pub polled-Between : Between pins opened polled
  polled-Between =
      Between.poll 9 1 silence [] Between.start opened-quiet
        (loop-uncalled pins 9 1 silence [] opened opened-quiet)

  polled-at : polled_at pins ≡ polled.bus
  polled-at = ap (λ b. run (act (delay_microseconds 100)) (atn_active pins b).1) (sym open_pass.3)

pub save-quiet : (atn_active save_pins (named_at save_pins)).0 ≡ false
unfolding atn_active take_byte get_byte wait_clock wait_atn
save-quiet = refl

pub load-quiet : (atn_active load_pins (named_at load_pins)).0 ≡ false
unfolding atn_active take_byte get_byte wait_clock wait_atn
load-quiet = refl

save-Calls :
    Calls save_pins (polled_at save_pins) 0x28 0x61 (after_second save_pins (polled_at save_pins))
unfolding atn_active take_byte get_byte wait_clock wait_atn
save-Calls = record {
  active = refl;
  command = record {
    between = after_first save_pins (polled_at save_pins);
    first = refl;
    second = refl;
  };
}

load-Calls :
    Calls load_pins (polled_at load_pins) 0x48 0x60 (after_second load_pins (polled_at load_pins))
unfolding atn_active take_byte get_byte wait_clock wait_atn
load-Calls = record {
  active = refl;
  command = record {
    between = after_first load_pins (polled_at load_pins);
    first = refl;
    second = refl;
  };
}

pub save_name : length (tftp_name (65 ∷ []) 0x28) ≤ 20
unfolding encode kept
save_name = omega arith

pub load_name : length (tftp_name (65 ∷ []) 0x48) ≤ 20
unfolding encode kept
load_name = omega arith

pub save-Serviced :
    Serviced 1234 65535 0 0
      (bytes_of save_pins 1
        (run (wait_atn save_pins true) (after_second save_pins (polled_at save_pins))))
      (65 ∷ [])
      (silence ∷ silence ∷ ack ∷ [])
unfolding bytes_of next_byte get_byte wait_atn wait_clock take_byte
save-Serviced =
    Serviced.last {left = []} (record { quiet = refl; byte = refl; no_packet = refl }) refl
      (omega arith) refl ack-Acked

-- The machines behind these passes, and what has led there.
abbrev pub save_opened : Machine
save_opened = opened save_pins open_save-Calls save-Spells save-quiet

abbrev pub save_polled : Machine
save_polled = polled save_pins open_save-Calls save-Spells save-quiet

pub save_opened-Opens : Opens save_pins machine (65 ∷ []) save_opened
save_opened-Opens = opened-Opens save_pins open_save-Calls save-Spells save-quiet

pub save_polled-Between : Between save_pins save_opened save_polled
save_polled-Between = polled-Between save_pins open_save-Calls save-Spells save-quiet

pub save_polled-Calls :
    Calls save_pins save_polled.bus 0x28 0x61 (after_second save_pins (polled_at save_pins))
save_polled-Calls =
    subst (λ b. Calls save_pins b 0x28 0x61 (after_second save_pins (polled_at save_pins)))
      (polled-at save_pins open_save-Calls save-Spells save-quiet) save-Calls

abbrev pub load_opened : Machine
load_opened = opened load_pins open_load-Calls load-Spells load-quiet

abbrev pub load_polled : Machine
load_polled = polled load_pins open_load-Calls load-Spells load-quiet

pub load_opened-Opens : Opens load_pins machine (65 ∷ []) load_opened
load_opened-Opens = opened-Opens load_pins open_load-Calls load-Spells load-quiet

pub load_polled-Between : Between load_pins load_opened load_polled
load_polled-Between = polled-Between load_pins open_load-Calls load-Spells load-quiet

pub load_polled-Calls :
    Calls load_pins load_polled.bus 0x48 0x60 (after_second load_pins (polled_at load_pins))
load_polled-Calls =
    subst (λ b. Calls load_pins b 0x48 0x60 (after_second load_pins (polled_at load_pins)))
      (polled-at load_pins open_load-Calls load-Spells load-quiet) load-Calls
