-- ===== src/Iec/Command/Listener.antt =====
-- A listener that takes one byte of a LOAD on the scripted pins (c64iec.ino).
use c64iec.Base.{
  subst, ◌+◌, zero, suc, ℕ, ◌<◌, ◌≡◌, refl, Bool, true, some, [], ◌∷◌, arith, store, slice,
}
use c64iec.Iec.Bus.{Pin, data_pin, Bus, ret, wait_loop, get_byte, put_byte, wait_clock, wait_atn}
use c64iec.Iec.Bus.Sent.{Offered, Answered, Listens, put_byte-Listens}
use c64iec.Iec.Machine.{run, atn_active, take_byte, play}
use c64iec.Iec.Load.Emit.{eoi_calls}
use c64iec.Iec.Command.{turn}
use c64iec.Iec.Command.Opening.{}
use c64iec.Iec.Command.Tests.{sent_file}
use c64iec.Iec.Command.Scripts.{load_pins, after_second, polled_at}

-- The bus when the LOAD starts.
abbrev pub turned : Bus
turned = run (turn load_pins) (after_second load_pins (polled_at load_pins))

turned-tick : 173 ≡ turned.tick
unfolding atn_active take_byte get_byte wait_clock wait_atn
turned-tick = refl

pins-Listen : Listens load_pins 9 1 1 173
unfolding wait_loop
pins-Listen = record {
  offered_at = 175;
  answered_at = 177;
  ready_at = 178;
  taken_at = 187;
  offered = Offered.held 175 refl refl;
  answered = Answered.pulse 1 176 177 (omega arith) refl refl;
  ready = refl;
  alone = alone;
  taken = refl;
}
  where
    alone : (j : ℕ) → j < 8 → load_pins data_pin (178 + j) ≡ true
    alone zero lt = refl
    alone (suc zero) lt = refl
    alone (suc (suc zero)) lt = refl
    alone (suc (suc (suc zero))) lt = refl
    alone (suc (suc (suc (suc zero)))) lt = refl
    alone (suc (suc (suc (suc (suc zero))))) lt = refl
    alone (suc (suc (suc (suc (suc (suc zero)))))) lt = refl
    alone (suc (suc (suc (suc (suc (suc (suc zero))))))) lt = refl
    alone (suc (suc (suc (suc (suc (suc (suc (suc j)))))))) lt = absurd (omega arith)

-- One call of put_byte.
play-one :
    (level : Pin → ℕ → Bool) (value eoi r : ℕ) (b b' : Bus)
    → put_byte level 9 value eoi b ≡ (ret r, b')
    → play level 9 (record { value = value; eoi = eoi } ∷ []) b ≡ some b'
unfolding play
play-one level value eoi r b b' e = rw e refl

pub heard : (b : Bus) × (play load_pins 9 (eoi_calls sent_file) turned ≡ some b)
unfolding eoi_calls slice store
heard =
    let (b, e, bits) =
      put_byte-Listens load_pins 9 7 1 1 turned
        (subst (Listens load_pins 9 1 1) turned-tick pins-Listen) in
    (b, play-one load_pins 7 1 1 turned b e)
