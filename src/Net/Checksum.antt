-- ===== src/Net/Checksum.antt =====
-- fill_checksum (EtherCard/tcpip.cpp): what a receiver finds when it adds the words up.
use c64iec.Base.{
  ℕ, zero, suc, ◌+◌, ◌-◌, ◌*◌, ◌/◌, ◌%◌, ◌≤◌, ◌<◌, ◌≡◌, refl, ap, ◌∙◌, arith, Memory, write, u8,
  u16, high, word, IsByte, if◌then◌else◌, ltb,
}
use c64iec.Net.{Net, sum_words, fold_carry, checksum, checksum_start, fill_checksum}

-- The folded sum is a word, it is congruent to the sum modulo 65535, and it is 0 for 0 alone.
record Folded (sum folded : ℕ) : Type 0 where
  bounded : folded < 65536
  congruent : folded % 65535 ≡ sum % 65535
  nonzero : 0 < sum → 0 < folded
  below : folded ≤ sum

abbrev carried : ℕ → ℕ
carried sum = u16 sum + sum / 65536

carried-congruent : (sum : ℕ) → carried sum % 65535 ≡ sum % 65535
carried-congruent sum = omega arith

fold_carry-small : (fuel sum : ℕ) → sum < 65536 → fold_carry fuel sum ≡ sum
unfolding fold_carry
fold_carry-small zero sum h = refl
fold_carry-small (suc fuel) sum h = ground arith

fold_carry-suc :
    (fuel sum : ℕ)
    → fold_carry (suc fuel) sum ≡ (if ltb 65535 sum then fold_carry fuel (carried sum) else sum)
unfolding fold_carry
fold_carry-suc fuel sum = refl

Folded-small : (fuel sum : ℕ) → sum < 65536 → Folded sum (fold_carry fuel sum)
Folded-small fuel sum h =
    rw (fold_carry-small fuel sum h)
      (record { bounded = h; congruent = refl; nonzero = λ pos. pos; below = omega arith })

Folded-suc :
    (fuel sum : ℕ)
    → Folded (carried sum) (fold_carry fuel (carried sum))
    → Folded sum (fold_carry (suc fuel) sum)
Folded-suc fuel sum f = rw (fold_carry-suc fuel sum) (record {
  bounded = ground (arith, f.bounded);
  congruent = ground (arith, f.congruent ∙ carried-congruent sum);
  nonzero = λ pos. ground (arith, f.nonzero);
  below = ground (arith, f.below);
})

-- Three rounds fold every sum of 32 bits.
fold_carry-Folded : (sum : ℕ) → sum < 4294967296 → Folded sum (fold_carry 3 sum)
fold_carry-Folded sum h =
    Folded-suc 2 sum
      (Folded-suc 1 (carried sum) (Folded-small 1 (carried (carried sum)) (omega arith)))

-- The complement of a folded sum completes the sum to a multiple of 65535 other than 0.
fold_carry-complement :
    (sum : ℕ) → sum < 4294901760 → fold_carry 3 (sum + (65535 - u16 (fold_carry 3 sum))) ≡ 65535
fold_carry-complement sum h =
    let f = fold_carry-Folded sum (omega arith) in
    let g = fold_carry-Folded (sum + (65535 - u16 (fold_carry 3 sum))) (omega arith) in
    omega
      (arith, f.bounded, f.congruent, g.bounded, g.congruent, g.nonzero (omega (arith, f.below)))

sum_words_add : (m : Memory) (p len s c : ℕ) → sum_words m p len (s + c) ≡ sum_words m p len s + c
unfolding sum_words
sum_words_add m p zero s c = refl
sum_words_add m p (suc zero) s c = omega arith
sum_words_add m p (suc (suc len)) s c =
    let e : s + c + word (m p) (m (p + 1)) ≡ s + word (m p) (m (p + 1)) + c = omega arith in
    rw e (sum_words_add m (p + 2) len (s + word (m p) (m (p + 1))) c)

-- Two memories that agree from p on.
sum_words_ext :
    (m k : Memory) (p len s : ℕ)
    → ((i : ℕ) → p ≤ i → m i ≡ k i)
    → sum_words m p len s ≡ sum_words k p len s
unfolding sum_words
sum_words_ext m k p zero s h = refl
sum_words_ext m k p (suc zero) s h = ground (arith, h p)
sum_words_ext m k p (suc (suc len)) s h =
    rw (h p (omega arith), h (p + 1) (omega arith))
      (sum_words_ext m k (p + 2) len (s + word (k p) (k (p + 1))) λ i le. h i (omega arith))

-- A word stored over two bytes 0 at an even distance adds to the sum.
sum_words_store :
    (k : ℕ) (m : Memory) (p q len s ck : ℕ)
    → q ≡ p + k * 2
    → k * 2 + 2 ≤ len
    → ck < 65536
    → m q ≡ 0
    → m (q + 1) ≡ 0
    → sum_words (write (q + 1) (u8 ck) (write q (high ck) m)) p len s ≡ sum_words m p len s + ck
unfolding sum_words
sum_words_store k m p q zero s ck at room w z0 z1 = absurd (omega arith)
sum_words_store k m p q (suc zero) s ck at room w z0 z1 = absurd (omega arith)
sum_words_store zero m p q (suc (suc len)) s ck at room w z0 z1 =
    let k = write (q + 1) (u8 ck) (write q (high ck) m) in
    let new : word (k p) (k (p + 1)) ≡ ck = ground arith in
    let old : word (m p) (m (p + 1)) ≡ 0 = ground arith in
    rw (new, old)
      (rw (sum_words_ext k m (p + 2) len (s + ck) λ i le. ground arith)
        (sum_words_add m (p + 2) len s ck ∙ ap (λ x. sum_words m (p + 2) len x + ck) (omega arith)))
sum_words_store (suc j) m p q (suc (suc len)) s ck at room w z0 z1 =
    let k = write (q + 1) (u8 ck) (write q (high ck) m) in
    let same : word (k p) (k (p + 1)) ≡ word (m p) (m (p + 1)) = ground arith in
    rw same (
      sum_words_store j m (p + 2) q len (s + word (m p) (m (p + 1))) ck (omega arith) (omega arith)
        w z0 z1)

-- No word of a sum is larger than 65535; an odd byte at the end counts 256 times.
sum_words-le :
    (m : Memory) (p len s : ℕ) → ((i : ℕ) → IsByte (m i)) → sum_words m p len s ≤ s + len * 65535
unfolding sum_words
sum_words-le m p zero s h = omega arith
sum_words-le m p (suc zero) s h = omega (arith, h p)
sum_words-le m p (suc (suc len)) s h =
    omega (arith, sum_words-le m (p + 2) len (s + word (m p) (m (p + 1))) h)

-- The word that fill_checksum stores at an even distance q, over two bytes 0, completes the sum.
pub fill_checksum-valid :
    (n : Net) (k q off len type : ℕ)
    → q ≡ off + k * 2
    → k * 2 + 2 ≤ len
    → len < 65000
    → n.buffer q ≡ 0
    → n.buffer (q + 1) ≡ 0
    → ((i : ℕ) → IsByte (n.buffer i))
    → fold_carry 3
        (sum_words (fill_checksum q off len type n).buffer off len (checksum_start len type))
      ≡ 65535
unfolding fill_checksum
fill_checksum-valid n k q off len type at room short z0 z1 bytes =
    let s = sum_words n.buffer off len (checksum_start len type) in
    rw
      (sum_words_store k n.buffer off q len (checksum_start len type)
        (checksum n.buffer off len type) at room (unfold checksum in omega arith) z0 z1)
      (unfold checksum in
        fold_carry-complement s (
          omega
            (arith, sum_words-le n.buffer off len (checksum_start len type) bytes, start len type)))
  where
    start : (len type : ℕ) → checksum_start len type < 65536
    start len type = ground arith
