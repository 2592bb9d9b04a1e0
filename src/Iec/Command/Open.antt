-- ===== src/Iec/Command/Open.antt =====
-- handle_open (c64iec.ino): the name that comes over the bus.
use c64iec.Base.{
  ℕ, zero, suc, ◌+◌, ◌≤◌, ◌<◌, ◌≡◌, ◌≢◌, refl, sym, subst, ap₂, ◌∙◌, Bool, true, false, not, Option,
  none, some, List, [], ◌∷◌, ◌++◌, arith, length, All, Memory, write, slice, c_string-slice, ◌==◌,
  if◌then◌else◌, Bool-cases, inl, inr,
}
use c64iec.Iec.Bus.{Pin, Bus}
use c64iec.Iec.Machine.{Machine, atn_active, take_byte}
use c64iec.Iec.Command.{open_loop, handle_open, terminate, name_in_iobuf}
use c64iec.Iec.Save.{write_byte}

write_byte_ne : (o : Option ℕ) (a i : ℕ) (m : Memory) → i ≢ a → write_byte o a m i ≡ m i
write_byte_ne none a i m h = refl
write_byte_ne (some x) a i m h = ground arith

terminated : (m : Machine) (a i : ℕ) → i ≢ a → (terminate a m).drive.iobuf i ≡ m.drive.iobuf i
terminated m a i h = ground arith

module _ (level : Pin → ℕ → Bool) where
  -- The bus gives byte x with result r, and ATN is not active before it.
  pub record Gives (b : Bus) (x r : ℕ) (b' : Bus) : Type 0 where
    pub quiet : (atn_active level b).0 ≡ false
    pub byte :
        take_byte level 0 (atn_active level b).1 ≡ record { written = some x; result = r; bus = b' }

  -- The bus gives the bytes, with end-or-identify at the last one alone.
  pub data Spells : Bus → List ℕ → Bus → Type 0 where
    last : {b b' : Bus} (x r : ℕ) → Gives b x r b' → r ≢ 0 → Spells b (x ∷ []) b'
    more :
        {b b' b'' : Bus} {xs : List ℕ} (x r : ℕ)
        → Gives b x r b'
        → r ≡ 0
        → Spells b' xs b''
        → Spells b (x ∷ xs) b''

  -- The machine behind a round that reads x for index a.
  abbrev after : ℕ → ℕ → Bus → Machine → Machine
  after a x b' m = record { bus = b'; drive = record m.drive { iobuf = write a x m.drive.iobuf } }

  two :
      (k : Memory) (a x : ℕ)
      → k a ≡ x
      → k (a + 1) ≡ 0
      → slice k a (length (x ∷ []) + 1) ≡ x ∷ 0 ∷ []
  unfolding slice
  two k a x e f = ground arith

  one :
      (k : Memory) (a x : ℕ) (xs : List ℕ)
      → k a ≡ x
      → slice k (a + 1) (length xs + 1) ≡ xs ++ (0 ∷ [])
      → slice k a (length (x ∷ xs) + 1) ≡ x ∷ (xs ++ (0 ∷ []))
  unfolding slice
  one k a x xs e f =
      let size : length (x ∷ xs) + 1 ≡ suc (length xs + 1) = omega arith in
      rw size (ap₂ (λ y ys. y ∷ ys) e f)

  -- A round that reads a byte.
  open_loop-Gives :
      (n a x r : ℕ) (m : Machine) (b' : Bus)
      → Gives m.bus x r b'
      → open_loop level (suc n) a m ≡ (
          if not (r == 0)
          then terminate
              (a + 1)
              (record { bus = b'; drive = record m.drive { iobuf = write a x m.drive.iobuf } })
          else open_loop level n
              (a + 1)
              (record { bus = b'; drive = record m.drive { iobuf = write a x m.drive.iobuf } }))
  unfolding open_loop
  open_loop-Gives n a x r m b' g = rw (g.quiet, g.byte) refl

  -- The bytes stand at index a, a terminator behind them, and nothing else has changed.
  pub record Opened (m : Machine) (a : ℕ) (xs : List ℕ) (b' : Bus) (m' : Machine) : Type 0 where
    pub bus_after : m'.bus ≡ b'
    pub before : (i : ℕ) → i < a → m'.drive.iobuf i ≡ m.drive.iobuf i
    pub bytes : slice m'.drive.iobuf a (length xs + 1) ≡ xs ++ (0 ∷ [])

  open_loop-Spells :
      {b b' : Bus} {xs : List ℕ} (n a : ℕ) (m : Machine)
      → Spells b xs b'
      → m.bus ≡ b
      → length xs ≤ n
      → Opened m a xs b' (open_loop level n a m)
  open_loop-Spells zero a m (last x r g end) e room = absurd (omega arith)
  open_loop-Spells zero a m (more x r g end s) e room = absurd (omega arith)
  open_loop-Spells {b' = b'} (suc n) a m (last x r g end) e room =
      let stop : (r == 0) ≡ false = ground arith in
      rw (open_loop-Gives n a x r m b' (subst (λ k. Gives k x r b') (sym e) g), stop)
        (record {
          bus_after = refl;
          before = λ i lt. ground arith;
          bytes = two (write (a + 1) 0 (write a x m.drive.iobuf)) a x (ground arith) (ground arith);
        })
  open_loop-Spells {b' = b'} {xs = _ ∷ xs} (suc n) a m (more {b' = b1} x r g end s) e room =
      let go_on : (r == 0) ≡ true = ground arith in
      let m1 = after a x b1 m in
      let ih = open_loop-Spells n (a + 1) m1 s refl (omega arith) in
      rw (open_loop-Gives n a x r m b1 (subst (λ k. Gives k x r b1) (sym e) g), go_on)
        (record {
          bus_after = ih.bus_after;
          before = λ i lt. ih.before i (omega arith) ∙ ground arith;
          bytes =
              one (open_loop level n (a + 1) m1).drive.iobuf a x xs
                (ih.before a (omega arith) ∙ ground arith) ih.bytes;
        })

  -- OPEN. When the bus gives the characters of a name of at most 256 characters, none of them 0, with
  -- end-or-identify at the last one alone, then handle_open leaves the name in iobuf as a C string, and
  -- the bus where the last byte has left it.
  pub handle_open-Spells :
      {b' : Bus} {name : List ℕ} (sec_addr : ℕ) (m : Machine)
      → Spells m.bus name b'
      → length name ≤ 256
      → All (λ x. 0 < x) name
      → (name_in_iobuf (handle_open level sec_addr m).drive ≡ name)
        × ((handle_open level sec_addr m).bus ≡ b')
  unfolding handle_open
  handle_open-Spells {name = name} sec_addr m s room pos =
      let o = open_loop-Spells 256 0 m s refl room in
      (
        c_string-slice 257 (open_loop level 256 0 m).drive.iobuf 0 name pos (omega arith) o.bytes,
        o.bus_after,
      )

  open_loop-within :
      (n a : ℕ) (m : Machine) (i : ℕ)
      → n + a ≡ 256
      → 257 ≤ i
      → (open_loop level n a m).drive.iobuf i ≡ m.drive.iobuf i
  unfolding open_loop
  open_loop-within zero a m i e far = ground arith
  open_loop-within (suc n) a m i e far =
      let (active, bus) = atn_active level m.bus in
      let t = take_byte level 0 bus in
      let m' : Machine = record {
        bus = t.bus;
        drive = record m.drive { iobuf = write_byte t.written a m.drive.iobuf };
      } in
      let kept : m'.drive.iobuf i ≡ m.drive.iobuf i =
        write_byte_ne t.written a i m.drive.iobuf (omega arith) in
      let rest = open_loop-within n (a + 1) m' i (omega arith) far in
      elim (Bool-cases active) [
        | inl stopped ↦ rw stopped refl
        | inr quiet ↦ elim (Bool-cases (t.result == 0)) [
          | inl again ↦ rw (quiet, again) (rest ∙ kept)
          | inr ended ↦ rw (quiet, ended) (terminated m' (a + 1) i (omega arith) ∙ kept)
        ]
      ]

  -- Whatever comes over the bus, handle_open writes nothing behind the 257 bytes of iobuf.
  pub handle_open-within :
      (sec_addr : ℕ) (m : Machine) (i : ℕ)
      → 257 ≤ i
      → (handle_open level sec_addr m).drive.iobuf i ≡ m.drive.iobuf i
  unfolding handle_open
  handle_open-within sec_addr m i far = open_loop-within 256 0 m i refl far
