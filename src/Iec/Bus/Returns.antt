-- ===== src/Iec/Bus/Returns.antt =====
-- get_byte comes back, whatever the pins do (c64iec.ino).
use c64iec.Base.{
  ℕ, zero, suc, ◌≤◌, Bool, true, false, Bool-cases, inl, inr, arith, ◌==◌, if◌then◌else◌,
}
use c64iec.Iec.Bus.{
  Pin, clock, Action, Bus, Step, go, ret, hang, M, bind, ◌>>=◌, ◌>>◌, act, give, wait_loop, need,
  or_bit, wait_clock, wait_clock_eoi, wait_data, digital_read, read_bit, read_bits, read_eoi,
  get_byte, pull_data, release_data, release_clock, delay_microseconds, data_pin,
}

-- A statement goes on with a value that has P, or returns 0 or 1.
pub data Ends {A : Type 0} (P : A → Type 0) : Step A → Type 0 where
  goes : (a : A) → P a → Ends P (go a)
  ends : (r : ℕ) → r ≤ 1 → Ends P (ret r)

-- It returns 0 or 1.
pub data Returns {A : Type 0} : Step A → Type 0 where
  returns : (r : ℕ) → r ≤ 1 → Returns (ret r)

abbrev Always : {A : Type 0} → (A → Type 0) → M A → Type 0
Always P m = (b : Bus) → Ends P (m b).0

abbrev Any : {A : Type 0} → A → Type 0
Any a = Unit {0}

bind-Ends :
    {A B : Type 0} {P : A → Type 0} {Q : B → Type 0} (s : Step A) (f : A → M B) (b : Bus)
    → Ends P s
    → ((a : A) → P a → Always Q (f a))
    → Ends Q (bind s f b).0
bind-Ends (go a) f b (goes _ p) k = k a p b
bind-Ends (ret r) f b (ends _ small) k = ends r small
bind-Ends hang f b never k = elim never [ ]

bind-Returns :
    {A B : Type 0} {P : A → Type 0} (s : Step A) (f : A → M B) (b : Bus)
    → Ends P s
    → ((a : A) → P a → (c : Bus) → Returns (f a c).0)
    → Returns (bind s f b).0
bind-Returns (go a) f b (goes _ p) k = k a p b
bind-Returns (ret r) f b (ends _ small) k = returns r small
bind-Returns hang f b never k = elim never [ ]

then_Always :
    {A B : Type 0} {P : A → Type 0} {Q : B → Type 0} (m : M A) (f : A → M B)
    → Always P m
    → ((a : A) → P a → Always Q (f a))
    → Always Q (m >>= f)
then_Always m f a k b = bind-Ends (m b).0 f (m b).1 (a b) k

seq-Always :
    {B : Type 0} {Q : B → Type 0} (m : M (Unit {0})) (k : M B)
    → Always Any m
    → Always Q k
    → Always Q (m >> k)
seq-Always m k a c = then_Always {P = Any} m (λ _. k) a λ _ _. c

act-Always : (a : Action) → Always Any (act a)
act-Always a b = goes tt tt

module _ (level : Pin → ℕ → Bool) where
  need-Always : (m : M ℕ) → Always Any m → Always Any (need level m)
  need-Always m a = then_Always m _ a λ r _ b. elim (Bool-cases (r == 0)) [
    | inl missed ↦ rw missed (ends 0 (omega arith))
    | inr found ↦ rw found (goes tt tt)
  ]

  wait_clock-Always : (s : Bool) → Always Any (wait_clock level s)
  unfolding wait_clock
  wait_clock-Always s b = goes _ tt

  wait_data-Always : (s : Bool) → Always Any (wait_data level s)
  unfolding wait_data
  wait_data-Always s b = goes _ tt

  sample-Always : (i : ℕ) → Always Any (digital_read level data_pin >>= or_bit level i)
  unfolding digital_read
  sample-Always i b = goes tt tt

  read_bit-Always : (i : ℕ) → Always Any (read_bit level i)
  unfolding read_bit
  read_bit-Always i =
      let high = need level (wait_clock level true) in
      let sample = digital_read level data_pin >>= or_bit level i in
      let low = need level (wait_clock level false) in
      seq-Always (high >> sample) low
        (seq-Always high sample (need-Always (wait_clock level true) (wait_clock-Always true))
          (sample-Always i))
        (need-Always (wait_clock level false) (wait_clock-Always false))

  read_bits-Always : (n i : ℕ) → Always Any (read_bits level n i)
  unfolding read_bits
  read_bits-Always zero i = λ b. goes tt tt
  read_bits-Always (suc n) i =
      seq-Always (read_bit level i) (read_bits level n (suc i)) (read_bit-Always i)
        (read_bits-Always n (suc i))

  abbrev Flag : ℕ → Type 0
  Flag e = e ≤ 1

  read_eoi-Always : (force_eoi : ℕ) → Always Flag (read_eoi level force_eoi)
  unfolding read_eoi wait_clock_eoi
  read_eoi-Always force_eoi b = elim (Bool-cases (force_eoi == 0)) [
    | inr forced ↦ rw forced (goes 1 (omega arith))
    | inl asked ↦ rw asked (elim (Bool-cases ((wait_loop level 28 clock false b.tick).0 == 0)) [
      | inl eoi ↦ rw eoi (goes 1 (omega arith))
      | inr more ↦ rw more (goes 0 (omega arith))
    ])
  ]

  finish-Always :
      (eoi : ℕ) → Always Any (if eoi == 0 then give tt else act release_clock >> act pull_data)
  finish-Always eoi b = elim (Bool-cases (eoi == 0)) [
    | inl more ↦ rw more (goes tt tt)
    | inr last ↦ rw last (goes tt tt)
  ]

  -- Whatever the levels of the pins are, get_byte returns, with 0 or 1: no wait of it is without a limit.
  pub get_byte-Returns : (force_eoi : ℕ) (b : Bus) → Returns (get_byte level force_eoi b).0
  unfolding get_byte
  get_byte-Returns force_eoi b =
      let high = need level (wait_clock level true) in
      let ready = need level (wait_data level true) in
      let low = need level (wait_clock level false) in
      let start = high >> act release_data >> ready in
      bind-Returns (start b).0 _ (start b).1
        (seq-Always (high >> act release_data) ready
          (seq-Always high (act release_data)
            (need-Always (wait_clock level true) (wait_clock-Always true))
            (act-Always release_data))
          (need-Always (wait_data level true) (wait_data-Always true)) b)
        λ _ _ c.
          bind-Returns (read_eoi level force_eoi c).0 _ (read_eoi level force_eoi c).1
            (read_eoi-Always force_eoi c)
            λ eoi flag d.
              let finish : M (Unit {0}) =
                if eoi == 0 then give tt else act release_clock >> act pull_data in
              let body =
                low
                >> read_bits level 8 0
                >> act pull_data
                >> finish
                >> act (delay_microseconds 100) in
              bind-Returns (body d).0 _ (body d).1
                (seq-Always (low >> read_bits level 8 0 >> act pull_data >> finish)
                  (act (delay_microseconds 100))
                  (seq-Always (low >> read_bits level 8 0 >> act pull_data) finish
                    (seq-Always (low >> read_bits level 8 0) (act pull_data)
                      (seq-Always low (read_bits level 8 0)
                        (need-Always (wait_clock level false) (wait_clock-Always false))
                        (read_bits-Always 8 0))
                      (act-Always pull_data))
                    (finish-Always eoi))
                  (act-Always (delay_microseconds 100)) d)
                λ _ _ e. returns eoi flag
