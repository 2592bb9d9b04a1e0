-- ===== src/Base/Bytes.antt =====
-- Byte arrays of the firmware as functions from an index to a byte. A write through a pointer that
-- leaves its array shows as a write at an index past the array's size.
use Prim.Native.Nat.{ℕ, zero, suc, ◌+◌, ◌-◌, ◌≤◌, ◌<◌}
use mathlib.Core.Path.{◌≡◌, refl, sym, ap, ap₂, ◌∙◌}
use mathlib.Core.Bool.{◌&&◌}
use mathlib.Core.List.{List, [], ◌∷◌, ◌++◌}
use mathlib.Core.Logic.{◌⊎◌}
use native.Mathlib.Omega.{arith}
use native.Mathlib.Nat.{zero-add, suc-add}
use c64iec.Base.Tests.{ltb, leb, ◌==◌, if◌then◌else◌}
use c64iec.Base.Lists.{length, All}

abbrev pub Memory : Type 0
Memory = ℕ → ℕ

-- m[a] = v
abbrev pub write : ℕ → ℕ → Memory → Memory
write a v m i = if i == a then v else m i

-- memcpy(m + dst, src + from, n)
abbrev pub copy : ℕ → Memory → ℕ → ℕ → Memory → Memory
copy dst src from n m i = if leb dst i && ltb i (dst + n) then src (from + (i - dst)) else m i

-- memset(m + dst, v, n)
abbrev pub fill : ℕ → ℕ → ℕ → Memory → Memory
fill dst v n m i = if leb dst i && ltb i (dst + n) then v else m i

-- The bytes of a list, written from index a on.
unfoldable pub store : ℕ → List ℕ → Memory → Memory
store a [] m = m
store a (b ∷ bs) m = store (a + 1) bs (write a b m)

-- The n bytes from index a on.
unfoldable pub slice : Memory → ℕ → ℕ → List ℕ
slice m a zero = []
slice m a (suc n) = m a ∷ slice m (a + 1) n

-- The C string at index a, at most n characters of it.
unfoldable pub c_string : ℕ → Memory → ℕ → List ℕ
c_string zero m a = []
c_string (suc n) m a = let rest = c_string n m (a + 1) in if m a == 0 then [] else m a ∷ rest

pub slice_ext :
    (m k : Memory) (a b n : ℕ)
    → ((i : ℕ) → i < n → m (a + i) ≡ k (b + i))
    → slice m a n ≡ slice k b n
unfolding slice
slice_ext m k a b zero h = refl
slice_ext m k a b (suc n) h =
    ap₂ (λ x xs. x ∷ xs) (rw (a0, b0) at (h 0 (omega arith)))
      (slice_ext m k (a + 1) (b + 1) n λ i lt. rw (next a i, next b i) (h (suc i) (omega arith)))
  where
    a0 : a + 0 ≡ a
    a0 = omega arith

    b0 : b + 0 ≡ b
    b0 = omega arith

    next : (c i : ℕ) → c + 1 + i ≡ c + suc i
    next c i = omega arith

pub length-slice : (m : Memory) (a n : ℕ) → length (slice m a n) ≡ n
unfolding slice
length-slice m a zero = refl
length-slice m a (suc n) = ap suc (length-slice m (a + 1) n)

pub slice-append : (m : Memory) (a n k : ℕ) → slice m a (n + k) ≡ slice m a n ++ slice m (a + n) k
unfolding slice
slice-append m a zero k = let e : a + 0 ≡ a = omega arith in rw (zero-add, e)
slice-append m a (suc n) k =
    let e : a + suc n ≡ a + 1 + n = omega arith in
    rw (suc-add, e) (ap (λ xs. m a ∷ xs) (slice-append m (a + 1) n k))

pub store_below : (a : ℕ) (bs : List ℕ) (m : Memory) (i : ℕ) → i < a → store a bs m i ≡ m i
unfolding store
store_below a [] m i h = refl
store_below a (b ∷ bs) m i h = store_below (a + 1) bs (write a b m) i (omega arith) ∙ ground arith

pub store_above :
    (a : ℕ) (bs : List ℕ) (m : Memory) (i : ℕ) → a + length bs ≤ i → store a bs m i ≡ m i
unfolding store
store_above a [] m i h = refl
store_above a (b ∷ bs) m i h = store_above (a + 1) bs (write a b m) i (omega arith) ∙ ground arith

pub slice-store : (a : ℕ) (bs : List ℕ) (m : Memory) → slice (store a bs m) a (length bs) ≡ bs
unfolding store slice
slice-store a [] m = refl
slice-store a (b ∷ bs) m =
    ap₂ (λ x xs. x ∷ xs) (store_below (a + 1) bs (write a b m) a (omega arith) ∙ ground arith)
      (slice-store (a + 1) bs (write a b m))

-- A store above the slice leaves it.
pub slice-store_below :
    (m : Memory) (a n b : ℕ) (bs : List ℕ) → a + n ≤ b → slice (store b bs m) a n ≡ slice m a n
slice-store_below m a n b bs h =
    slice_ext (store b bs m) m a a n λ i lt. store_below b bs m (a + i) (omega arith)

-- After memcpy the destination holds the bytes of the source.
pub slice-copy :
    (dst : ℕ) (src : Memory) (from n : ℕ) (m : Memory)
    → slice (copy dst src from n m) dst n ≡ slice src from n
slice-copy dst src from n m =
    slice_ext (copy dst src from n m) src dst from n
      λ i lt. let e : dst + i - dst ≡ i = omega arith in ground (arith, e)

-- memcpy leaves what stands outside of the destination.
pub slice-copy_outside :
    (dst : ℕ) (src : Memory) (from n : ℕ) (m : Memory) (a k : ℕ)
    → (a + k ≤ dst) ⊎ (dst + n ≤ a)
    → slice (copy dst src from n m) a k ≡ slice m a k
slice-copy_outside dst src from n m a k h =
    slice_ext (copy dst src from n m) m a a k λ i lt. ground arith

-- Two stores, one behind the other, are one.
pub store-append :
    (a : ℕ) (xs ys : List ℕ) (m : Memory)
    → store (a + length xs) ys (store a xs m) ≡ store a (xs ++ ys) m
unfolding store
store-append a [] ys m = let e : a + 0 ≡ a = omega arith in rw e
store-append a (x ∷ xs) ys m =
    let e : a + suc (length xs) ≡ a + 1 + length xs = omega arith in
    rw e (store-append (a + 1) xs ys (write a x m))

-- A C string is read back up to its terminator.
pub c_string-slice :
    (n : ℕ) (m : Memory) (a : ℕ) (xs : List ℕ)
    → All (λ x. 0 < x) xs
    → length xs < n
    → slice m a (length xs + 1) ≡ xs ++ (0 ∷ [])
    → c_string n m a ≡ xs
unfolding slice c_string
c_string-slice zero m a xs pos room e = absurd (omega arith)
c_string-slice (suc n) m a [] pos room e = ground arith
c_string-slice (suc n) m a (x ∷ xs) pos room e =
    let step : length (x ∷ xs) + 1 ≡ suc (length xs + 1) = omega arith in
    let e' : m a ∷ slice m (a + 1) (length xs + 1) ≡ x ∷ (xs ++ (0 ∷ [])) =
      ap (slice m a) (sym step) ∙ e in
    ground (arith, c_string-slice n m (a + 1) xs pos.1)
