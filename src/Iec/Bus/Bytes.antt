-- ===== src/Iec/Bus/Bytes.antt =====
-- The bits of a byte on the wire (c64iec.ino): get_byte reads what put_byte writes.
use c64iec.Base.{
  ℕ, zero, suc, ◌+◌, ◌*◌, ◌/◌, ◌%◌, ◌^◌, ◌<◌, ◌≡◌, inl, inr, Bool-cases, refl, subst, ap, ◌∙◌, Bool,
  true, false, Option, none, some, List, [], ◌∷◌, arith, ◌==◌, if◌then◌else◌,
}
use c64iec.Iec.Bus.{
  Pin, clock, data_pin, Action, push_data, pull_data, release_data, push_clock, pull_clock,
  release_clock, input, delay_microseconds, Bus, go, timeout_count, wait_loop, read_bit, read_bits,
  write_bit, write_bits,
}

-- Bit i of a value, as a test.
abbrev pub bit : ℕ → ℕ → Bool
bit v i = v / 2 ^ i % 2 == 1

-- The level that the drive last gave to DATA; a released line reads HIGH.
unfoldable pub data_level : List Action → Bool
data_level [] = true
data_level (pull_data ∷ log) = false
data_level (push_data ∷ log) = true
data_level (release_data ∷ log) = true
data_level (pull_clock ∷ log) = data_level log
data_level (push_clock ∷ log) = data_level log
data_level (release_clock ∷ log) = data_level log
data_level (input p ∷ log) = data_level log
data_level (delay_microseconds n ∷ log) = data_level log

-- What a listener samples: DATA whenever CLOCK is pushed, the newest first.
unfoldable pub sampled : List Action → List Bool
unfolding data_level
sampled [] = []
sampled (push_clock ∷ log) = data_level log ∷ sampled log
sampled (pull_data ∷ log) = sampled log
sampled (push_data ∷ log) = sampled log
sampled (release_data ∷ log) = sampled log
sampled (pull_clock ∷ log) = sampled log
sampled (release_clock ∷ log) = sampled log
sampled (input p ∷ log) = sampled log
sampled (delay_microseconds n ∷ log) = sampled log

-- n bits from bit i on, in front of a log that has the newest first.
pub bits_on : ℕ → ℕ → ℕ → List Bool → List Bool
bits_on v zero i log = log
bits_on v (suc n) i log = bits_on v n (suc i) (bit v i ∷ log)

-- What write_bit leaves behind when the listener does not stop the byte.
abbrev pub after_bit : ℕ → ℕ → Bus → Bus
after_bit v i b = record b {
  tick = suc b.tick;
  actions =
      push_data
      ∷ pull_clock
      ∷ delay_microseconds 70
      ∷ push_clock
      ∷ (if bit v i then push_data else pull_data)
      ∷ delay_microseconds 70
      ∷ b.actions;
}

sampled-after_bit :
    (v i : ℕ) (b : Bus) → sampled (after_bit v i b).actions ≡ bit v i ∷ sampled b.actions
unfolding sampled
sampled-after_bit v i b = elim (Bool-cases (bit v i)) [
  | inl one ↦ rw one refl
  | inr zero_bit ↦ rw zero_bit refl
]

-- n bits of v from bit i on, as a number.
pub gather : ℕ → ℕ → ℕ → ℕ
gather v zero i = 0
gather v (suc n) i = (if bit v i then 2 ^ i else 0) + gather v n (suc i)

weight : (x w : ℕ) → ◌≡◌ {A = ℕ} (if x % 2 == 1 then w else 0) (x % 2 * w)
weight x w = elim (Bool-cases (x % 2 == 1)) [
  | inl one ↦ let e : x % 2 ≡ 1 = ground arith in rw (one, e) (omega arith)
  | inr other ↦ let e : x % 2 ≡ 0 = ground arith in rw (other, e) (omega arith)
]

gather_byte : (v : ℕ) → 0 + (if bit v 0 then 2 ^ 0 else 0) + gather v 7 1 ≡ v % 256
unfolding gather
gather_byte v =
    rw
      (
        weight (v / 2 ^ 0) (2 ^ 0),
        weight (v / 2 ^ 1) (2 ^ 1),
        weight (v / 2 ^ 2) (2 ^ 2),
        weight (v / 2 ^ 3) (2 ^ 3),
        weight (v / 2 ^ 4) (2 ^ 4),
        weight (v / 2 ^ 5) (2 ^ 5),
        weight (v / 2 ^ 6) (2 ^ 6),
        weight (v / 2 ^ 7) (2 ^ 7),
      )
      (omega arith)

module _ (level : Pin → ℕ → Bool) where
  pub write_bit_lem :
      (v i : ℕ) (b : Bus)
      → level data_pin b.tick ≡ true
      → write_bit level v i b ≡ (go tt, after_bit v i b)
  unfolding write_bit
  write_bit_lem v i b high = rw high refl

  pub write_bits-suc :
      (v n i : ℕ) (b b' : Bus)
      → write_bit level v i b ≡ (go tt, b')
      → write_bits level v (suc n) i b ≡ write_bits level v n (suc i) b'
  unfolding write_bits
  write_bits-suc v n i b b' e = rw e refl

  -- While the listener leaves DATA alone at the n samples that ask for it, the drive puts out the n bits
  -- of the value from bit i on, the lowest one first: those are the levels of DATA whenever it pushes
  -- CLOCK.
  pub write_bits-sampled :
      (v n i : ℕ) (b : Bus)
      → ((j : ℕ) → j < n → level data_pin (b.tick + j) ≡ true)
      → (b' : Bus) × (write_bits level v n i b ≡ (go tt, b'))
        × (sampled b'.actions ≡ bits_on v n i (sampled b.actions))
  write_bits-sampled v zero i b high = (b, unfold write_bits in refl, unfold bits_on in refl)
  write_bits-sampled v (suc n) i b high =
      let here : level data_pin b.tick ≡ true =
        ap (level data_pin) (omega arith) ∙ high 0 (omega arith) in
      let (b', run, bits) =
        write_bits-sampled v n (suc i) (after_bit v i b)
          λ j lt. ap (level data_pin) (omega arith) ∙ high (suc j) (omega arith) in
      (
        b',
        write_bits-suc v n i b (after_bit v i b) (write_bit_lem v i b here) ∙ run,
        bits ∙ (unfold bits_on in ap (bits_on v n (suc i)) (sampled-after_bit v i b)),
      )

  -- A talker that moves CLOCK within the limits and holds bit i, i + 1, ... of v on DATA at each sample.
  pub data Talks (v : ℕ) : ℕ → ℕ → ℕ → Type 0 where
    over : (i t : ℕ) → Talks v 0 i t
    bit_at :
        (n i next t up down : ℕ)
        → wait_loop level (suc timeout_count) clock true t ≡ (1, up)
        → level data_pin up ≡ bit v i
        → wait_loop level (suc timeout_count) clock false (suc up) ≡ (1, down)
        → next ≡ suc i
        → Talks v n next down
        → Talks v (suc n) i t

  -- The part of the output that the bits read so far make up.
  abbrev so_far : Option ℕ → ℕ → ℕ
  so_far none i = 0
  so_far (some x) i = if i == 0 then 0 else x

  read_bit_lem :
      (v i up down : ℕ) (b : Bus)
      → wait_loop level (suc timeout_count) clock true b.tick ≡ (1, up)
      → level data_pin up ≡ bit v i
      → wait_loop level (suc timeout_count) clock false (suc up) ≡ (1, down)
      → (b' : Bus) × (read_bit level i b ≡ (go tt, b'))
        × (b'.tick ≡ down)
        × (b'.output ≡ some (so_far b.output i + (if bit v i then 2 ^ i else 0)))
  unfolding read_bit
  read_bit_lem v i up down b rise sample fall =
      rw (rise, sample, fall)
        (
          record b {
            tick = down;
            actions = input clock ∷ input clock ∷ b.actions;
            output = some (so_far b.output i + (if bit v i then 2 ^ i else 0));
          },
          refl,
          refl,
          refl,
        )

  read_bits-suc :
      (n i : ℕ) (b b' : Bus)
      → read_bit level i b ≡ (go tt, b')
      → read_bits level (suc n) i b ≡ read_bits level n (suc i) b'
  unfolding read_bits
  read_bits-suc n i b b' e = rw e refl

  -- The bits behind the first one add to what is there.
  read_bits-rest :
      (v n i t x : ℕ) (b : Bus)
      → Talks v n i t
      → 0 < i
      → b.tick ≡ t
      → b.output ≡ some x
      → (b' : Bus) × (read_bits level n i b ≡ (go tt, b')) × (b'.output ≡ some (x + gather v n i))
  read_bits-rest v zero i t x b (Talks.over _ _) pos at read =
      (b, unfold read_bits in refl, read ∙ (unfold gather in ap some (omega arith)))
  read_bits-rest v (suc n) i t x b (Talks.bit_at _ _ next _ up down rise sample fall after more) pos
        at read =
      let (b1, e1, at1, out1) =
        read_bit_lem v i up down b (ap (wait_loop level (suc timeout_count) clock true) at ∙ rise)
          sample fall in
      let kept : so_far b.output i ≡ x = ap (λ o. so_far o i) read ∙ ground arith in
      let (b2, e2, out2) =
        read_bits-rest v n (suc i) down (x + (if bit v i then 2 ^ i else 0)) b1
          (subst (λ k. Talks v n k down) after more) (omega arith) at1
          (out1 ∙ ap (λ y. some (y + (if bit v i then 2 ^ i else 0))) kept) in
      (b2, read_bits-suc n i b b1 e1 ∙ e2, out2 ∙ (unfold gather in ap some (omega arith)))

  so_far_start : (o : Option ℕ) → so_far o 0 ≡ 0
  so_far_start none = refl
  so_far_start (some x) = refl

  -- When the talker holds the bits of a value on DATA in their order, the lowest one first, and moves
  -- CLOCK within the limits of the wait loops, get_byte's eight reads end with the low byte of
  -- the value in the output, whatever was there before.
  pub read_bits-Talks :
      (v : ℕ) (b : Bus)
      → Talks v 8 0 b.tick
      → (b' : Bus) × (read_bits level 8 0 b ≡ (go tt, b')) × (b'.output ≡ some (v % 256))
  read_bits-Talks v b (Talks.bit_at _ _ next _ up down rise sample fall after more) =
      let (b1, e1, at1, out1) = read_bit_lem v 0 up down b rise sample fall in
      let (b2, e2, out2) =
        read_bits-rest v 7 1 down (0 + (if bit v 0 then 2 ^ 0 else 0)) b1
          (subst (λ k. Talks v 7 k down) after more) (omega arith) at1
          (out1 ∙ ap (λ y. some (y + (if bit v 0 then 2 ^ 0 else 0))) (so_far_start b.output)) in
      (b2, read_bits-suc 7 0 b b1 e1 ∙ e2, out2 ∙ ap some (gather_byte v))
