-- ===== src/Iec/FileName/Encoding.antt =====
-- The loop of create_tftp_filename writes, from its end, a percent encoding (c64iec.ino).
use c64iec.Base.{
  ℕ, zero, suc, ◌+◌, ◌-◌, ◌*◌, ◌/◌, ◌%◌, ◌≤◌, ◌<◌, ◌≡◌, ◌⊎◌, inl, inr, refl, ap, ap₂, ◌∙◌, Bool,
  true, false, ◌&&◌, ◌||◌, List, [], ◌∷◌, ◌++◌, arith, ◌==◌, if◌then◌else◌, length, length-append,
  get_or, Memory, write, slice, slice_ext, slice-append, Bool-cases,
}
use c64iec.Iec.FileName.{Name, hexarray, is_plain, name_step, name_loop}

abbrev pub is_nil : List ℕ → Bool
is_nil [] = true
is_nil (x ∷ xs) = false

-- A character stands for itself or is written as a percent sign and two hexadecimal digits.
abbrev pub code : ℕ → List ℕ
code c = if is_plain c then c ∷ [] else b'%' ∷ hexarray (c / 16 % 16) ∷ hexarray (c % 16) ∷ []

-- What the loop leaves out: the padding characters 0xa0 and 0, and the spaces that nothing follows.
abbrev pub is_dropped : ℕ → Bool → Bool
is_dropped c at_end = (c == 0xa0 || c == 0) || (c == b' ' && at_end)

-- The characters that are kept of a name.
unfoldable pub kept : List ℕ → List ℕ
kept [] = []
kept (c ∷ cs) = let rest = kept cs in if is_dropped c (is_nil rest) then rest else c ∷ rest

unfoldable pub encode : List ℕ → List ℕ
encode [] = []
encode (c ∷ cs) = code c ++ encode cs

-- The state of the loop once the encoding of `xs` stands at the end of the array.
pub record Holds (m : Memory) (s : Name) (xs : List ℕ) : Type 0 where
  pub at_end : s.trailing ≡ is_nil xs
  pub filled : s.out_pos + length (encode xs) ≡ 52
  pub bytes : slice s.filename s.out_pos (length (encode xs)) ≡ encode xs
  pub outside : (i : ℕ) → (i < 4) ⊎ (52 ≤ i) → s.filename i ≡ m i

pub length-code : (c : ℕ) → (0 < length (code c)) × (length (code c) ≤ 3)
length-code c = ground arith

pub length-encode-le : (xs : List ℕ) → length (encode xs) ≤ length xs * 3
unfolding encode
length-encode-le [] = omega arith
length-encode-le (c ∷ cs) =
    omega (arith, length-append (code c) (encode cs), length-code c, length-encode-le cs)

pub length-kept-le : (xs : List ℕ) → length (kept xs) ≤ length xs
unfolding kept
length-kept-le [] = omega arith
length-kept-le (c ∷ cs) = ground (arith, length-kept-le cs)

-- The loop from the last character is a fold from the right.
pub name_loop-cons :
    (c : ℕ) (cs : List ℕ) (n : ℕ) (s : Name)
    → name_loop (c ∷ cs) (suc n) s ≡ name_step c (name_loop cs n s)
unfolding name_loop
name_loop-cons c cs zero s = refl
name_loop-cons c cs (suc n) s = name_loop-cons c cs n (name_step (get_or cs n 0) s)

-- A code in front of the encoding.
push_code :
    (m : Memory) (s : Name) (c : ℕ) (xs : List ℕ) (f : Memory) (k : ℕ)
    → Holds m s xs
    → length (code c) ≡ k
    → k + 4 ≤ s.out_pos
    → slice f (s.out_pos - k) k ≡ code c
    → ((i : ℕ) → (i < s.out_pos - k) ⊎ (s.out_pos ≤ i) → f i ≡ s.filename i)
    → Holds m (record { out_pos = s.out_pos - k; trailing = false; filename = f }) (c ∷ xs)
push_code m s c xs f k h size room front rest = record {
  at_end = refl;
  filled = unfold encode in omega (arith, both, h.filled);
  bytes = unfold encode in whole;
  outside = λ i far. rest i (beyond i far) ∙ h.outside i far;
}
  where
    both : length (code c ++ encode xs) ≡ k + length (encode xs)
    both = omega (arith, length-append (code c) (encode xs))

    sums : s.out_pos - k + k ≡ s.out_pos
    sums = omega arith

    kept_part :
        slice f s.out_pos (length (encode xs)) ≡ slice s.filename s.out_pos (length (encode xs))
    kept_part =
        slice_ext f s.filename s.out_pos s.out_pos (length (encode xs))
          λ j lt. rest (s.out_pos + j) (inr (omega arith))

    beyond : (i : ℕ) → (i < 4) ⊎ (52 ≤ i) → (i < s.out_pos - k) ⊎ (s.out_pos ≤ i)
    beyond i (inl low) = inl (omega arith)
    beyond i (inr high) = inr (omega (arith, h.filled))

    whole : slice f (s.out_pos - k) (length (code c ++ encode xs)) ≡ code c ++ encode xs
    whole =
        ap (slice f (s.out_pos - k)) both
        ∙ (slice-append f (s.out_pos - k) k (length (encode xs))
            ∙ ap₂ ◌++◌ front
                (ap (λ q. slice f q (length (encode xs))) sums ∙ (kept_part ∙ h.bytes)))

-- The three ways through the body of the loop.
name_step-dropped : (s : Name) (c : ℕ) → is_dropped c s.trailing ≡ true → name_step c s ≡ s
unfolding name_step
name_step-dropped s c h = ground arith

name_step-plain :
    (s : Name) (c : ℕ)
    → is_dropped c s.trailing ≡ false
    → is_plain c ≡ true
    → name_step c s ≡ record {
      out_pos = s.out_pos - 1;
      trailing = false;
      filename = write (s.out_pos - 1) c s.filename;
    }
unfolding name_step
name_step-plain s c h plain = ground arith

name_step-coded :
    (s : Name) (c : ℕ)
    → is_dropped c s.trailing ≡ false
    → is_plain c ≡ false
    → name_step c s ≡ record {
      out_pos = s.out_pos - 3;
      trailing = false;
      filename = write (s.out_pos - 3 + 2) (hexarray (c % 16)) (
          write
            (s.out_pos - 3 + 1)
            (hexarray (c / 16 % 16))
            (write (s.out_pos - 3) b'%' s.filename));
    }
unfolding name_step
name_step-coded s c h coded = ground arith

-- One round adds the encoding of one character in front, where there is room.
pub name_step-Holds :
    (m : Memory) (s : Name) (c : ℕ) (xs : List ℕ)
    → Holds m s xs
    → length (encode xs) ≤ 45
    → Holds m (name_step c s) (if is_dropped c (is_nil xs) then xs else c ∷ xs)
name_step-Holds m s c xs h room = elim (Bool-cases (is_dropped c (is_nil xs))) [
  | inl dropped ↦ rw (dropped, name_step-dropped s c (rw h.at_end dropped)) h
  | inr stays ↦ elim (Bool-cases (is_plain c)) [
    | inl plain ↦
        rw (stays, name_step-plain s c (rw h.at_end stays) plain)
          (push_code m s c xs (write (s.out_pos - 1) c s.filename) 1 h (rw plain)
            (omega (arith, h.filled)) (rw plain (unfold slice in ground arith))
            (λ i far. ground arith))
    | inr coded ↦
        rw (stays, name_step-coded s c (rw h.at_end stays) coded)
          (push_code m s c xs _ 3 h (rw coded) (omega (arith, h.filled))
            (rw coded (unfold slice in ground arith)) (λ i far. ground arith))
  ]
]
