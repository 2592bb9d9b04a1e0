-- ===== src/Iec/Bus/Tests.antt =====
-- A byte on the bus (c64iec.ino): pins that follow a talker who sends 65.
use c64iec.Base.{
  ℕ, zero, suc, ◌+◌, ◌-◌, ◌*◌, ◌/◌, ◌%◌, ◌≡◌, refl, subst, ap, Bool, true, false, ◌||◌, none, some,
  [], arith, ltb, not, ◌∷◌, ◌==◌,
}
use c64iec.Iec.Bus.{Pin, atn, clock, data_pin, Bus, ret, wait_loop, get_byte, put_byte}
use c64iec.Iec.Bus.Wait.{wait_loop-finds}
use c64iec.Iec.Bus.Bytes.{bit, bits_on, data_level, sampled, Talks}
use c64iec.Iec.Bus.Sent.{Offered, Answered, Listens, put_byte-Listens}
use c64iec.Iec.Bus.Whole.{Handshake, Sends, get_byte-Sends}
use c64iec.Iec.Bus.Returns.{Returns, get_byte-Returns}

-- From tick 0 on, with end-or-identify.
abbrev talker : Pin → ℕ → Bool
talker atn t = true
talker clock t = ltb t 31 || t % 3 == 2
talker data_pin t = ltb t 31 || bit 65 ((t - 33) / 3)

abbrev quiet : Pin → ℕ → Bool
quiet p t = true

abbrev bus : Bus
bus = record { tick = 0; actions = []; output = none }

talks : (n i : ℕ) → Talks talker 65 n i (32 + i * 3)
talks zero i = Talks.over i (32 + i * 3)
talks (suc n) i =
    let t = 32 + i * 3 in
    let e : 32 + suc i * 3 ≡ suc (t + 0 + 1) + 0 + 1 = omega arith in
    let late : ltb (t + 0 + 1) 31 ≡ false = ground arith in
    Talks.bit_at n i (suc i) t (t + 0 + 1) (suc (t + 0 + 1) + 0 + 1)
      (wait_loop-finds talker clock true 2701 0 t (omega arith) (ground arith)
        λ j lt. absurd (omega arith))
      (rw late (ap (bit 65) (omega arith)))
      (wait_loop-finds talker clock false 2701 0 (suc (t + 0 + 1)) (omega arith) (ground arith)
        λ j lt. absurd (omega arith))
      refl (subst (Talks talker 65 n (suc i)) e (talks n (suc i)))

bus-Sends : Sends talker 65 0 1 0
unfolding wait_loop
bus-Sends = record {
  up = 1;
  free = 2;
  shaken = 30;
  down = 32;
  ready = refl;
  listens = refl;
  shakes = Handshake.last 30 refl refl;
  starts = refl;
  talks = talks 8 0;
}

get_byte-Sends_example :
    (b' : Bus) × (get_byte talker 0 bus ≡ (ret 1, b')) × (b'.output ≡ some (65 % 256))
get_byte-Sends_example = get_byte-Sends talker 65 0 1 bus bus-Sends

get_byte-Returns_example : Returns (get_byte quiet 0 bus).0
get_byte-Returns_example = get_byte-Returns quiet 0 bus

-- A listener that takes a byte with its end-or-identify.
abbrev listener : Pin → ℕ → Bool
listener atn t = true
listener clock t = true
listener data_pin t = not (t == 0 || t == 3 || t == 13)

bus-Listens : Listens listener 9 1 1 0
unfolding wait_loop
bus-Listens = record {
  offered_at = 2;
  answered_at = 4;
  ready_at = 5;
  taken_at = 14;
  offered = Offered.held 2 refl refl;
  answered = Answered.pulse 1 3 4 (omega arith) refl refl;
  ready = refl;
  alone = λ j lt. ground arith;
  taken = refl;
}

put_byte-Listens_example :
    (b' : Bus) × (put_byte listener 9 65 1 bus ≡ (ret 1, b'))
    × (sampled b'.actions ≡ bits_on 65 8 0 (data_level [] ∷ sampled []))
put_byte-Listens_example = put_byte-Listens listener 9 65 1 1 bus bus-Listens
