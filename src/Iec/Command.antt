-- ===== src/Iec/Command.antt =====
-- The commands of c64iec.ino: what the computer sends while ATN is active, and what the drive does.
-- MULTIDEVICE is defined. Output on the serial line of the Arduino is left out.
pub mod Open
pub mod Transfers
pub mod Device
pub mod Atn
pub mod Whole
pub mod Passes
pub mod Opening
pub mod Sessions
pub mod Tests
pub mod Scripts
pub mod Listener
mod Runs
use c64iec.Base.{
  ℕ, zero, suc, ◌+◌, ◌*◌, ◌/◌, ◌%◌, Bool, true, false, not, ◌&&◌, ◌||◌, Option, none, some, List,
  [], ltb, ◌==◌, if◌then◌else◌, write, c_string,
}
use mathlib.Core.List.{reverse}
use c64iec.Iec.Bus.{
  Pin, Bus, M, ◌>>=◌, ◌>>◌, act, pull_data, release_data, pull_clock, release_clock,
  delay_microseconds, wait_atn, wait_clock,
}
use c64iec.Iec.Drive.{Arrival, Drive, ethernet_probe_for_packet}
use c64iec.Iec.FileName.{create_tftp_filename}
use c64iec.Iec.Load.{send_file}
use c64iec.Iec.Save.{write_byte}
use c64iec.Iec.Save.Live.{Result, recv_file_on}
use c64iec.Iec.Machine.{Machine, run, atn_active, take_byte, play}

-- A statement on the pins.
abbrev pub on_bus : {A : Type 0} → M A → Machine → Machine
on_bus s m = record m { bus = run s m.bus }

-- x & 0xf0 and x & 0x0f
abbrev pub mode_of : ℕ → ℕ
mode_of x = x / 16 % 16 * 16

abbrev pub address_of : ℕ → ℕ
address_of x = x % 16

abbrev pub iec_unlisten : ℕ
iec_unlisten = 0x30

abbrev pub iec_untalk : ℕ
iec_untalk = 0x50

abbrev pub iec_listen : ℕ
iec_listen = 0x20

abbrev pub iec_talk : ℕ
iec_talk = 0x40

abbrev pub iec_open : ℕ
iec_open = 0xf0

abbrev pub iec_close : ℕ
iec_close = 0xe0

abbrev pub iec_data : ℕ
iec_data = 0x60

-- x & b for the result b of a comparison
abbrev pub and_test : ℕ → Bool → ℕ
and_test x true = x % 2
and_test x false = 0

-- device & IEC_DEVICE < 8 || device & IEC_DEVICE > 15, where C compares first
pub refused : ℕ → Bool
refused device = not (and_test device (ltb 15 8) == 0) || not (and_test device (ltb 15 15) == 0)

-- iobuf[a] = '\0';
abbrev pub terminate : ℕ → Machine → Machine
terminate a m = record m { drive = record m.drive { iobuf = write a 0 m.drive.iobuf } }

-- The name that iobuf holds, up to its terminator.
abbrev pub name_in_iobuf : Drive → List ℕ
name_in_iobuf d = c_string 257 d.iobuf 0

-- The call of create_tftp_filename in handle_listen and handle_talk.
abbrev pub named : Drive → Drive
named d = record d {
  tftp_filename = create_tftp_filename (name_in_iobuf d) d.device_mode d.tftp_filename;
}

-- A local byte that get_byte has written.
abbrev pub byte_of : Option ℕ → ℕ
byte_of none = 0
byte_of (some x) = x

module _ (level : Pin → ℕ → Bool) where
  -- The loop of handle_open with n rounds left, from index a on, and the terminator behind it.
  pub open_loop : ℕ → ℕ → Machine → Machine
  open_loop zero a m = terminate a m
  open_loop (suc n) a m =
      let (active, bus) = atn_active level m.bus in
      let t = take_byte level 0 bus in
      let m' : Machine = record {
        bus = t.bus;
        drive = record m.drive { iobuf = write_byte t.written a m.drive.iobuf };
      } in
      let more = open_loop n (a + 1) m' in
      if active
      then record m { bus = bus }
      else if not (t.result == 0)
      then terminate (a + 1) m'
      else more

  -- At most sizeof(iobuf) - 1 rounds.
  pub handle_open : ℕ → Machine → Machine
  unfolding open_loop
  handle_open sec_addr m = open_loop 256 0 m

  pub handle_close : ℕ → Machine → Machine
  handle_close sec_addr m = m

  abbrev listen_result : Result → Option Machine
  listen_result none = none
  listen_result (some (d, bus, r)) = some (
      if r == 0
      then on_bus (act release_clock >> act release_data) (record { bus = bus; drive = d })
      else record { bus = bus; drive = d })

  -- `rounds` bounds the bytes that recv_file reads.
  pub handle_listen : ℕ → List Arrival → ℕ → Machine → Option Machine
  handle_listen rounds arrivals sec_addr m =
      let received = listen_result (recv_file_on level rounds arrivals m.bus (named m.drive)) in
      if sec_addr == 1 then received else some m

  abbrev talk_end : ℕ → Drive → Option Bus → Option Machine
  talk_end r d none = none
  talk_end r d (some bus) = some (
      if r == 0
      then on_bus (act release_clock >> act release_data) (record { bus = bus; drive = d })
      else record { bus = bus; drive = d })

  abbrev talk_result : ℕ → Bus → Option (Drive × ℕ) → Option Machine
  talk_result patience bus none = none
  talk_result patience bus (some (d, r)) = talk_end r d (play level patience (reverse d.puts) bus)

  -- send_file, and its calls of put_byte on the bus. The probes of send_file touch no pin and put_byte
  -- no packet, so the calls of put_byte may come behind. `puts` starts empty.
  pub handle_talk : ℕ → List Arrival → ℕ → Machine → Option Machine
  handle_talk patience arrivals sec_addr m =
      talk_result patience m.bus (send_file arrivals (record (named m.drive) { puts = [] }))

  -- The turnaround before handle_talk, and the statements behind it.
  abbrev pub turn : M (Unit {0})
  turn =
      act release_clock
      >> act release_data
      >> (wait_atn level true >>= λ _.
          act (delay_microseconds 200)
          >> act release_data
          >> act pull_clock
          >> act (delay_microseconds 200))

  abbrev pub turn_back : Option Machine → Option Machine
  turn_back none = none
  turn_back (some m) = some (on_bus (act release_data >> act release_clock) m)

  -- What a secondary address asks for, in the mode of the device byte.
  pub secondary_command : ℕ → ℕ → List Arrival → ℕ → ℕ → Machine → Option Machine
  unfolding handle_open handle_close handle_listen handle_talk
  secondary_command patience rounds arrivals mode sec m =
      if mode_of sec == iec_open
      then some (handle_open (address_of sec) (on_bus (wait_atn level true) m))
      else if mode_of sec == iec_close
      then some (handle_close (address_of sec) m)
      else if mode_of sec == iec_data && mode == iec_listen
      then handle_listen rounds arrivals (address_of sec) (on_bus (wait_atn level true) m)
      else if mode_of sec == iec_data && mode == iec_talk
      then turn_back (handle_talk patience arrivals (address_of sec) (on_bus turn m))
      else some m

  -- The part of handle_atn behind the device byte.
  pub device_command : ℕ → ℕ → List Arrival → ℕ → Machine → Option Machine
  unfolding secondary_command
  device_command patience rounds arrivals device m =
      let mode = mode_of device in
      let t = take_byte level 1 (run (act (delay_microseconds 200)) m.bus) in
      let m' : Machine = record {
        bus = t.bus;
        drive = record m.drive { secondary = byte_of t.written };
      } in
      if mode == iec_unlisten || mode == iec_untalk
      then some (on_bus (wait_atn level true) m)
      else if (mode == iec_listen || mode == iec_talk) && refused device
      then some (on_bus (act release_clock >> act release_data) m)
      else if t.result == 0
      then some (record m { bus = t.bus })
      else secondary_command patience rounds arrivals mode (byte_of t.written) m'

  pub handle_atn : ℕ → ℕ → List Arrival → Machine → Option Machine
  unfolding device_command
  handle_atn patience rounds arrivals m =
      let t =
        take_byte level 1 (run (wait_clock level true >>= λ _. wait_clock level false) m.bus) in
      let m' : Machine = record {
        bus = t.bus;
        drive = record m.drive { device_mode = byte_of t.written };
      } in
      if t.result == 0
      then some (record m { bus = t.bus })
      else device_command patience rounds arrivals (byte_of t.written) m'

  -- One pass of loop(), with the packet that its probe finds.
  pub loop : ℕ → ℕ → Arrival → List Arrival → Machine → Option Machine
  unfolding handle_atn
  loop patience rounds p later m =
      let (active, bus) = atn_active level m.bus in
      let m' : Machine = record {
        bus = bus;
        drive = record m.drive { tftp = ethernet_probe_for_packet p m.drive.tftp };
      } in
      let commanded =
        handle_atn patience rounds later (on_bus (act release_clock >> act pull_data) m') in
      if active then commanded else some (on_bus (act (delay_microseconds 100)) m')
