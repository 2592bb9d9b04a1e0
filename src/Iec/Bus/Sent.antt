-- ===== src/Iec/Bus/Sent.antt =====
-- A whole byte that put_byte gives to a listener (c64iec.ino).
use c64iec.Base.{
  ℕ, zero, suc, ◌+◌, ◌<◌, ◌≡◌, ◌≢◌, refl, sym, subst, ap, ◌∙◌, Bool, true, false, List, ◌∷◌, arith,
  ◌==◌, if◌then◌else◌,
}
use c64iec.Iec.Bus.{
  Pin, data_pin, Action, input, pull_clock, push_clock, delay_microseconds, Bus, go, ret, M, ◌>>=◌,
  ◌>>◌, act, give, need, wait_loop, wait_data, wait_data_inf, data_active, write_bits, put_byte,
}
use c64iec.Iec.Bus.Bytes.{
  bits_on, data_level, sampled, after_bit, write_bit_lem, write_bits-suc, write_bits-sampled,
}

sampled-pulled : (log : List Action) → sampled (input data_pin ∷ pull_clock ∷ log) ≡ sampled log
unfolding sampled
sampled-pulled log = refl

sampled-delayed :
    (log : List Action) → sampled (input data_pin ∷ delay_microseconds 100 ∷ log) ≡ sampled log
unfolding sampled
sampled-delayed log = refl

nonzero : (n : ℕ) → n ≢ 0 → (n == 0) ≡ false
nonzero n h = ground arith

module _ (level : Pin → ℕ → Bool) where
  write_bits-tick :
      (v n i : ℕ) (b : Bus)
      → ((j : ℕ) → j < n → level data_pin (b.tick + j) ≡ true)
      → (write_bits level v n i b).1.tick ≡ b.tick + n
  write_bits-tick v zero i b high = unfold write_bits in omega arith
  write_bits-tick v (suc n) i b high =
      let here : level data_pin b.tick ≡ true =
        ap (level data_pin) (omega arith) ∙ high 0 (omega arith) in
      let rest =
        write_bits-tick v n (suc i) (after_bit v i b)
          λ j lt. ap (level data_pin) (omega arith) ∙ high (suc j) (omega arith) in
      ap (λ r. r.1.tick)
        (write_bits-suc level v n i b (after_bit v i b) (write_bit_lem level v i b here))
      ∙ (rest ∙ omega arith)

  -- How put_byte comes to its flag, between two calls of digitalRead: the listener holds DATA and
  -- releases it in time, or it has released DATA already and the byte is the last one.
  pub data Offered (patience eoi t : ℕ) : ℕ → ℕ → Type 0 where
    held :
        (t' : ℕ)
        → level data_pin t ≡ false
        → wait_loop level patience data_pin true (suc t) ≡ (1, t')
        → Offered patience eoi t eoi t'
    released : level data_pin t ≡ true → Offered patience eoi t 1 (suc t)

  -- The answer of the listener to end-or-identify.
  pub data Answered (t : ℕ) : ℕ → ℕ → Type 0 where
    silent : Answered t 0 t
    pulse :
        (flag up t' : ℕ)
        → flag ≢ 0
        → wait_loop level 2701 data_pin true t ≡ (1, up)
        → wait_loop level 2701 data_pin false up ≡ (1, t')
        → Answered t flag t'

  -- A listener that takes a byte: it leaves DATA alone while the eight bits ask for it, and pulls it
  -- behind them.
  pub record Listens (patience eoi flag t : ℕ) : Type 0 where
    pub offered_at : ℕ
    pub answered_at : ℕ
    pub ready_at : ℕ
    pub taken_at : ℕ
    pub offered : Offered patience eoi t flag offered_at
    pub answered : Answered offered_at flag answered_at
    pub ready : wait_loop level 2701 data_pin true answered_at ≡ (1, ready_at)
    pub alone : (j : ℕ) → j < 8 → level data_pin (ready_at + j) ≡ true
    pub taken : wait_loop level 2701 data_pin false (ready_at + 8) ≡ (1, taken_at)

  abbrev choose : ℕ → ℕ → Bool → M ℕ
  choose patience eoi tmp =
      if tmp then need level (wait_data_inf level patience true) >> give eoi else give 1

  abbrev answer : ℕ → M (Unit {0})
  answer flag =
      if flag == 0
      then give tt
      else need level (wait_data level true) >> need level (wait_data level false)

  answer-Answered :
      (flag t : ℕ) (b : Bus)
      → Answered b.tick flag t
      → (b' : Bus) × (answer flag b ≡ (go tt, b'))
        × (b'.tick ≡ t)
        × (sampled b'.actions ≡ sampled b.actions)
  unfolding wait_data
  answer-Answered flag t b silent = (b, refl, refl, refl)
  answer-Answered flag t b (pulse _ up _ last rise fall) =
      let e : (flag == 0) ≡ false = nonzero flag last in
      rw (e, rise, fall)
        (
          record b { tick = t; actions = input data_pin ∷ input data_pin ∷ b.actions },
          refl,
          refl,
          unfold sampled in refl,
        )

  -- The statements up to the flag.
  abbrev offer : ℕ → ℕ → M ℕ
  offer patience eoi =
      act (delay_microseconds 100)
      >> (data_active level >>= λ tmp. act push_clock >> choose patience eoi tmp)

  offer-Offered :
      (patience eoi flag t : ℕ) (b : Bus)
      → Offered patience eoi b.tick flag t
      → (b' : Bus) × (offer patience eoi b ≡ (go flag, b'))
        × (b'.tick ≡ t)
        × (sampled b'.actions ≡ data_level b.actions ∷ sampled b.actions)
  unfolding data_active wait_data_inf
  offer-Offered patience eoi flag t b (held _ low rise) =
      rw (low, rise)
        (
          record b {
            tick = t;
            actions = input data_pin ∷ push_clock ∷ delay_microseconds 100 ∷ b.actions;
          },
          refl,
          refl,
          unfold sampled data_level in refl,
        )
  offer-Offered patience eoi flag t b (released high) = rw high (
    record b { tick = suc b.tick; actions = push_clock ∷ delay_microseconds 100 ∷ b.actions },
    refl,
    refl,
    unfold sampled data_level in refl,
  )

  -- put_byte gives the byte to a listener that takes it. It returns its flag: 1 if the listener has
  -- released DATA before, and else eoi. The levels of DATA whenever the drive pushes CLOCK are the one
  -- when it offers the byte, and then exactly the eight bits of the value, the lowest one first.
  pub put_byte-Listens :
      (patience value eoi flag : ℕ) (b : Bus)
      → Listens patience eoi flag b.tick
      → (b' : Bus) × (put_byte level patience value eoi b ≡ (ret flag, b'))
        × (sampled b'.actions ≡ bits_on value 8 0 (data_level b.actions ∷ sampled b.actions))
  unfolding put_byte
  put_byte-Listens patience value eoi flag b s =
      let (b1, offers, at1, log1) = offer-Offered patience eoi flag s.offered_at b s.offered in
      let (b2, answers, at2, log2) =
        answer-Answered flag s.answered_at b1
          (subst (λ t. Answered t flag s.answered_at) (sym at1) s.answered) in
      let b3 = record b2 {
        tick = s.ready_at;
        actions = input data_pin ∷ pull_clock ∷ b2.actions;
      } in
      let (b4, bits, log4) = write_bits-sampled level value 8 0 b3 s.alone in
      let at4 : b4.tick ≡ s.ready_at + 8 =
        sym (ap (λ r. r.1.tick) bits) ∙ write_bits-tick value 8 0 b3 s.alone in
      let b3_log : sampled b3.actions ≡ data_level b.actions ∷ sampled b.actions =
        sampled-pulled b2.actions ∙ (log2 ∙ log1) in
      rw (offers, answers, at2, s.ready, bits, at4, s.taken)
        (
          record b4 {
            tick = s.taken_at;
            actions = input data_pin ∷ delay_microseconds 100 ∷ b4.actions;
          },
          refl,
          sampled-delayed b4.actions ∙ (log4 ∙ ap (bits_on value 8 0) b3_log),
        )
