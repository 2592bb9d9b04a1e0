-- ===== src/Iec/Bus/Whole.antt =====
-- A whole byte that get_byte takes from a talker (c64iec.ino).
use c64iec.Base.{
  ℕ, ◌%◌, ◌≡◌, ◌≢◌, refl, Bool, true, false, Bool-cases, inl, inr, some, ◌∷◌, arith, ◌==◌,
}
use c64iec.Iec.Bus.{
  Pin, clock, data_pin, input, Bus, go, ret, wait_loop, read_eoi, get_byte, release_data,
}
use c64iec.Iec.Bus.Bytes.{Talks, read_bits-Talks}

module _ (level : Pin → ℕ → Bool) where
  -- The handshake for end-or-identify, between two calls of digitalRead: it is forced, or the talker
  -- pulls CLOCK within a hundredth of the limit, or it does not.
  pub data Handshake (force_eoi t : ℕ) : ℕ → ℕ → Type 0 where
    forced : force_eoi ≢ 0 → Handshake force_eoi t 1 t
    more :
        (t' : ℕ)
        → force_eoi ≡ 0
        → wait_loop level 28 clock false t ≡ (1, t')
        → Handshake force_eoi t 0 t'
    last :
        (t' : ℕ)
        → force_eoi ≡ 0
        → wait_loop level 28 clock false t ≡ (0, t')
        → Handshake force_eoi t 1 t'

  -- A talker that sends byte v from tick t on: it pushes CLOCK and finds DATA released, shakes
  -- hands, pulls CLOCK, and holds the bits on DATA.
  pub record Sends (v force_eoi eoi t : ℕ) : Type 0 where
    pub up : ℕ
    pub free : ℕ
    pub shaken : ℕ
    pub down : ℕ
    pub ready : wait_loop level 2701 clock true t ≡ (1, up)
    pub listens : wait_loop level 2701 data_pin true up ≡ (1, free)
    pub shakes : Handshake force_eoi free eoi shaken
    pub starts : wait_loop level 2701 clock false shaken ≡ (1, down)
    pub talks : Talks level v 8 0 down

  read_eoi-Handshake :
      (force_eoi eoi t : ℕ) (b : Bus)
      → Handshake force_eoi b.tick eoi t
      → (b' : Bus) × (read_eoi level force_eoi b ≡ (go eoi, b')) × (b'.tick ≡ t)
  unfolding read_eoi
  read_eoi-Handshake force_eoi eoi t b (forced h) =
      let e : (force_eoi == 0) ≡ false = ground arith in rw e (b, refl, refl)
  read_eoi-Handshake force_eoi eoi t b (more _ h w) =
      let e : (force_eoi == 0) ≡ true = ground arith in
      rw (e, w) (record b { tick = t; actions = input clock ∷ b.actions }, refl, refl)
  read_eoi-Handshake force_eoi eoi t b (last _ h w) =
      let e : (force_eoi == 0) ≡ true = ground arith in rw (e, w) (_, refl, refl)

  -- get_byte takes the byte of a talker: it returns the flag of the handshake, 1 if it is forced, and
  -- its argument has the low byte of the value, whatever was there before.
  pub get_byte-Sends :
      (v force_eoi eoi : ℕ) (b : Bus)
      → Sends v force_eoi eoi b.tick
      → (b' : Bus) × (get_byte level force_eoi b ≡ (ret eoi, b')) × (b'.output ≡ some (v % 256))
  unfolding get_byte
  get_byte-Sends v force_eoi eoi b s =
      let b1 = record b {
        tick = s.free;
        actions = input data_pin ∷ release_data ∷ input clock ∷ b.actions;
      } in
      let (b2, shaken, at2) = read_eoi-Handshake force_eoi eoi s.shaken b1 s.shakes in
      let b3 = record b2 { tick = s.down; actions = input clock ∷ b2.actions } in
      let (b4, bits, out) = read_bits-Talks level v b3 s.talks in
      rw (s.ready, s.listens, shaken, at2, s.starts, bits)
        (elim (Bool-cases (eoi == 0)) [
          | inl on ↦ rw on (_, refl, out)
          | inr over ↦ rw over (_, refl, out)
        ])
