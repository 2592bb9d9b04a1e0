-- ===== src/Iec/Bus.antt =====
-- The bit level of c64iec.ino: the pins of the IEC bus, get_byte and put_byte. The level of each pin
-- at each call of digitalRead is a parameter: `level p t` is true if pin p reads HIGH at the t-th
-- call. What the firmware does to the pins is a log, the newest first.
pub mod Wait
pub mod Bytes
pub mod Returns
pub mod Whole
pub mod Sent
mod Tests
use c64iec.Base.{
  ℕ, zero, suc, ◌+◌, ◌/◌, ◌%◌, ◌^◌, Bool, true, false, not, Option, none, some, List, ◌∷◌, ◌==◌,
  if◌then◌else◌,
}

pub data Pin : Type 0 where
  atn clock data_pin : Pin

pub data Action : Type 0 where
  pull_data push_data release_data pull_clock push_clock release_clock : Action
  input : Pin → Action
  delay_microseconds : ℕ → Action

pub record Bus : Type 0 where
  pub tick : ℕ
  pub actions : List Action
  pub output : Option ℕ

-- A statement goes on, or returns a value from the function, or waits for ever.
pub data Step {ℓ} (A : Type ℓ) : Type ℓ where
  go : A → Step A
  ret : ℕ → Step A
  hang : Step A

abbrev pub M : Type 0 → Type 0
M A = Bus → Step A × Bus

abbrev pub bind : {A B : Type 0} → Step A → (A → M B) → M B
bind (go a) f b = f a b
bind (ret r) f b = (ret r, b)
bind hang f b = (hang, b)

infixl 5 ◌>>=◌ ◌>>◌
abbrev pub ◌>>=◌ : {A B : Type 0} → M A → (A → M B) → M B
◌>>=◌ m f b = bind (m b).0 f (m b).1

abbrev pub ◌>>◌ : {B : Type 0} → M (Unit {0}) → M B → M B
m >> k = m >>= λ _. k

abbrev pub act : Action → M (Unit {0})
act a b = (go tt, record b { actions = a ∷ b.actions })

abbrev pub give : {A : Type 0} → A → M A
give a b = (go a, b)

-- return r;
abbrev pub return : {A : Type 0} → ℕ → M A
return r b = (ret r, b)

-- TIMEOUT_COUNT
abbrev pub timeout_count : ℕ
timeout_count = 2700

abbrev pub is_level : Bool → Bool → Bool
is_level true b = b
is_level false b = not b

module _ (level : Pin → ℕ → Bool) where
  unfoldable pub digital_read : Pin → M Bool
  digital_read p b = (go (level p b.tick), record b { tick = suc b.tick })

  -- The loop of the wait functions with n calls of digitalRead left. The result is 1 or 0.
  unfoldable pub wait_loop : ℕ → Pin → Bool → ℕ → ℕ × ℕ
  wait_loop zero p state t = (0, t)
  wait_loop (suc n) p state t =
      let again = wait_loop n p state (suc t) in
      if is_level (level p t) state then (1, suc t) else again

  -- wait_atn, wait_clock, wait_data at the limit TIMEOUT_COUNT; wait_clock_eoi at a hundredth of it.
  -- The count passes the limit at call limit + 1.
  pub wait_pin : Pin → ℕ → Bool → M ℕ
  unfolding wait_loop
  wait_pin p limit state b =
      let (r, t) = wait_loop (suc limit) p state b.tick in
      (go r, record b { tick = t; actions = input p ∷ b.actions })

  unfoldable pub wait_atn : Bool → M ℕ
  unfolding wait_pin
  wait_atn = wait_pin atn timeout_count

  unfoldable pub wait_clock : Bool → M ℕ
  unfolding wait_pin
  wait_clock = wait_pin clock timeout_count

  pub wait_clock_eoi : Bool → M ℕ
  unfolding wait_pin
  wait_clock_eoi = wait_pin clock (timeout_count / 100)

  pub wait_data : Bool → M ℕ
  unfolding wait_pin
  wait_data = wait_pin data_pin timeout_count

  -- while(digitalRead(DATA) != state); for `patience` calls, and then for ever.
  pub wait_data_inf : ℕ → Bool → M ℕ
  unfolding wait_loop
  wait_data_inf patience state b =
      let (r, t) = wait_loop patience data_pin state b.tick in
      let b' = record b { tick = t; actions = input data_pin ∷ b.actions } in
      (if r == 0 then hang else go 1, b')

  pub data_active : M Bool
  unfolding digital_read
  data_active = digital_read data_pin >>= λ high. give (not high)

  -- if(!wait(...)) return 0;
  abbrev pub need : M ℕ → M (Unit {0})
  need m = m >>= λ r. if r == 0 then return 0 else give tt

  -- *output |= digitalRead(DATA) << i. The bit is free in *output, so | adds; the first one assigns.
  abbrev pub or_bit : ℕ → Bool → M (Unit {0})
  or_bit i high b =
      (go tt, record b { output = some (old b.output i + (if high then 2 ^ i else 0)) })
    where
      old : Option ℕ → ℕ → ℕ
      old none k = 0
      old (some x) k = if k == 0 then 0 else x

  -- The three statements of get_byte for bit i.
  pub read_bit : ℕ → M (Unit {0})
  unfolding wait_clock digital_read
  read_bit i =
      need (wait_clock true) >> (digital_read data_pin >>= or_bit i) >> need (wait_clock false)

  -- n bits from bit i on
  pub read_bits : ℕ → ℕ → M (Unit {0})
  unfolding read_bit
  read_bits zero i = give tt
  read_bits (suc n) i = read_bit i >> read_bits n (suc i)

  -- The handshake for end-or-identify; the result is eoi.
  pub read_eoi : ℕ → M ℕ
  unfolding wait_clock_eoi
  read_eoi force_eoi =
      if force_eoi == 0
      then (wait_clock_eoi false >>= λ r.
          if r == 0
          then act push_data
            >> act (delay_microseconds 80)
            >> act pull_data
            >> act (delay_microseconds 80)
            >> act release_data
            >> give 1
          else give 0)
      else give 1

  unfoldable pub get_byte : ℕ → M (Unit {0})
  unfolding wait_data read_eoi read_bits
  get_byte force_eoi =
      need (wait_clock true)
      >> act release_data
      >> need (wait_data true)
      >> (read_eoi force_eoi >>= λ eoi.
          need (wait_clock false)
          >> read_bits 8 0
          >> act pull_data
          >> (if eoi == 0 then give tt else act release_clock >> act pull_data)
          >> act (delay_microseconds 100)
          >> return eoi)

  -- The body of the loop of put_byte for bit i.
  pub write_bit : ℕ → ℕ → M (Unit {0})
  unfolding data_active
  write_bit value i =
      act (delay_microseconds 70)
      >> (data_active >>= λ active. if active then return 1 else give tt)
      >> act (if value / 2 ^ i % 2 == 1 then push_data else pull_data)
      >> act push_clock
      >> act (delay_microseconds 70)
      >> act pull_clock
      >> act push_data

  pub write_bits : ℕ → ℕ → ℕ → M (Unit {0})
  unfolding write_bit
  write_bits value zero i = give tt
  write_bits value (suc n) i = write_bit value i >> write_bits value n (suc i)

  -- `patience` bounds the loop of wait_data_inf.
  unfoldable pub put_byte : ℕ → ℕ → ℕ → M (Unit {0})
  unfolding data_active wait_data_inf wait_data write_bits
  put_byte patience value eoi =
      act (delay_microseconds 100)
      >> (data_active >>= λ tmp.
          act push_clock
          >> ((if tmp then need (wait_data_inf patience true) >> give eoi else give 1) >>= λ flag.
              (if flag == 0 then give tt else need (wait_data true) >> need (wait_data false))
              >> act pull_clock
              >> need (wait_data true)
              >> write_bits value 8 0
              >> act (delay_microseconds 100)
              >> need (wait_data false)
              >> return flag))
