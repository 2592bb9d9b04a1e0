-- ===== src/Iec/Command/Tests.antt =====
-- The commands of c64iec.ino on pins that a computer moves.
use c64iec.Base.{
  ℕ, ◌-◌, ◌/◌, ◌%◌, ◌≤◌, ◌<◌, ◌≡◌, inl, refl, Bool, true, ◌||◌, none, List, [], ◌∷◌, arith, length,
  ltb, store, slice, ◌==◌, c_string,
}
use c64iec.Tftp.{initial}
use c64iec.Tftp.Download.{Carries}
use c64iec.Tftp.Tests.{no_bytes, frame, frame-Carries}
use c64iec.Iec.Bus.{Pin, atn, clock, data_pin, Bus, get_byte}
use c64iec.Iec.Bus.Bytes.{bit}
use c64iec.Iec.Drive.{Arrival, Drive}
use c64iec.Iec.Machine.{Machine, atn_active, take_byte}
use c64iec.Iec.FileName.Encoding.{encode, kept}
use c64iec.Iec.Save.Wait.{Acked}
use c64iec.Iec.Command.{handle_open}
use c64iec.Iec.Command.Open.{Gives, handle_open-within}
use c64iec.Iec.Command.Transfers.{asked_for}

-- A computer that sends the byte 65 from tick 0 on, with end-or-identify.
abbrev pub talker : Pin → ℕ → Bool
talker atn t = true
talker clock t = ltb t 31 || t % 3 == 2
talker data_pin t = ltb t 31 || bit 65 ((t - 33) / 3)

abbrev pub bus : Bus
bus = record { tick = 0; actions = []; output = none }

abbrev pub drive : Drive
drive = record {
  tftp = initial no_bytes;
  iobuf = no_bytes;
  tftp_filename = no_bytes;
  device_mode = 40;
  secondary = 0;
  sent_to_c64 = 0;
  puts = [];
}

abbrev pub machine : Machine
machine = record { bus = bus; drive = drive }

abbrev spoken : Bus
spoken = (take_byte talker 0 (atn_active talker bus).1).bus

bus-Gives : Gives talker bus 65 1 spoken
unfolding atn_active take_byte get_byte
bus-Gives = record { quiet = refl; byte = refl }

handle_open-within_example : (handle_open talker 0 machine).drive.iobuf 257 ≡ 0
handle_open-within_example = handle_open-within talker 0 machine 257 (omega arith)

abbrev pub silence : Arrival
silence = record { ether = frame 0 0 []; plen = 0 }

-- An acknowledgement of block 0.
abbrev pub ack : Arrival
ack = record { ether = frame 4 0 (7 ∷ 8 ∷ 9 ∷ []); plen = 60 }

pub ack-Acked : Acked 65535 0 1234 0 [] (silence ∷ ack ∷ [])
ack-Acked = Acked.wait silence refl (
    Acked.now ack 4 3 (omega arith) (inl refl) (frame-Carries 0 4 (omega arith) (omega arith)) refl
      refl)

no_name : length (asked_for drive) ≤ 20
unfolding c_string encode kept
no_name = omega arith

abbrev pub one_byte : Arrival
one_byte = record { ether = frame 3 1 (7 ∷ []); plen = 60 }

pub one_byte-Carries : Carries one_byte.ether 60 3 1 1
unfolding store
one_byte-Carries = ground arith

abbrev pub sent_file : List ℕ
sent_file = slice one_byte.ether.buffer 46 1

pub some_bytes : 0 < length sent_file
unfolding slice
some_bytes = omega arith
