-- ===== src/Iec/FileName/Result.antt =====
-- The whole of create_tftp_filename (c64iec.ino): what stands in tftp_filename when it returns.
use c64iec.Base.{
  ℕ, zero, suc, ◌+◌, ◌-◌, ◌%◌, ◌≤◌, ◌<◌, ◌≡◌, refl, sym, ap, ap₂, ◌∙◌, true, List, [], ◌∷◌, ◌++◌,
  arith, length, length-take, length-take-le, take, All, All-append, Memory, write, copy, slice,
  slice_ext, slice-append, slice-copy, c_string, c_string-slice,
}
use c64iec.Iec.FileName.{Name, hexarray, name_step, name_loop, start_pos, create_tftp_filename}
use c64iec.Iec.FileName.Encoding.{
  Holds, code, kept, encode, length-encode-le, length-kept-le, name_loop-cons, name_step-Holds,
}

-- The first 16 characters are all that the loop reads.
name_loop-take :
    (c64name : List ℕ) (n : ℕ) (s : Name)
    → name_loop c64name (length (take n c64name)) s
      ≡ name_loop (take n c64name) (length (take n c64name)) s
name_loop-take c64name zero s = unfold name_loop in refl
name_loop-take [] (suc n) s = refl
name_loop-take (c ∷ cs) (suc n) s =
    name_loop-cons c cs (length (take n cs)) s
    ∙ (ap (name_step c) (name_loop-take cs n s)
        ∙ sym (name_loop-cons c (take n cs) (length (take n cs)) s))

start_pos_lem : (c64name : List ℕ) → start_pos c64name ≡ length (take 16 c64name)
start_pos_lem c64name = ground (arith, length-take 16 c64name)

abbrev start : Memory → Name
start m = record { out_pos = 52; trailing = true; filename = m }

name_loop-Holds :
    (m : Memory) (xs : List ℕ)
    → length xs ≤ 16
    → Holds m (name_loop xs (length xs) (start m)) (kept xs)
unfolding kept encode slice
name_loop-Holds m [] short =
    unfold name_loop in
    record { at_end = refl; filled = refl; bytes = refl; outside = λ i far. refl }
name_loop-Holds m (c ∷ cs) short = rw (name_loop-cons c cs (length cs) (start m)) (
    name_step-Holds m (name_loop cs (length cs) (start m)) c (kept cs)
      (name_loop-Holds m cs (omega arith))
      (omega (arith, length-encode-le (kept cs), length-kept-le cs)))

-- The characters of the result.
abbrev pub tftp_name : List ℕ → ℕ → List ℕ
tftp_name c64name device_mode = hexarray (device_mode % 16) ∷ b'/' ∷ encode (kept (take 16 c64name))

code-pos : (c : ℕ) → All (λ x. 0 < x) (code c)
code-pos c = ground arith

pub encode-pos : (xs : List ℕ) → All (λ x. 0 < x) (encode xs)
unfolding encode
encode-pos [] = tt
encode-pos (c ∷ cs) = All-append (λ x. 0 < x) (code c) (encode cs) (code-pos c) (encode-pos cs)

pub length-tftp_name : (c64name : List ℕ) (d : ℕ) → length (tftp_name c64name d) ≤ 50
length-tftp_name c64name d = omega (
  arith,
  length-encode-le (kept (take 16 c64name)),
  length-kept-le (take 16 c64name),
  length-take-le 16 c64name,
)

-- Two characters, n bytes of the array and a terminator.
slice-framed :
    (f : Memory) (p n h0 h1 : ℕ)
    → slice (write (n + 2) 0 (write 1 h1 (write 0 h0 (copy 2 f p n f)))) 0 (n + 3)
      ≡ h0 ∷ h1 ∷ (slice f p n ++ (0 ∷ []))
slice-framed f p n h0 h1 =
    let k = write (n + 2) 0 (write 1 h1 (write 0 h0 (copy 2 f p n f))) in
    let size : n + 3 ≡ 2 + (n + 1) = omega arith in
    rw size (
      slice-append k 0 2 (n + 1)
      ∙ ap₂ ◌++◌ front (
          slice-append k 2 n 1
          ∙ ap₂ ◌++◌
              (slice_ext k (copy 2 f p n f) 2 2 n (λ i lt. ground arith) ∙ slice-copy 2 f p n f)
              end))
  where
    front : slice (write (n + 2) 0 (write 1 h1 (write 0 h0 (copy 2 f p n f)))) 0 2 ≡ h0 ∷ h1 ∷ []
    front = unfold slice in ground arith

    end : slice (write (n + 2) 0 (write 1 h1 (write 0 h0 (copy 2 f p n f)))) (2 + n) 1 ≡ 0 ∷ []
    end = unfold slice in ground arith

-- What the end of create_tftp_filename makes of the state of the loop.
finish : Name → ℕ → Memory
finish s d = write (52 - s.out_pos + 2) 0 (
    write 1 b'/'
      (write 0 (hexarray (d % 16)) (copy 2 s.filename s.out_pos (52 - s.out_pos) s.filename)))

finish-bytes :
    (m : Memory) (s : Name) (d : ℕ) (xs : List ℕ)
    → Holds m s xs
    → slice (finish s d) 0 (length (encode xs) + 3)
      ≡ hexarray (d % 16) ∷ b'/' ∷ (encode xs ++ (0 ∷ []))
finish-bytes m s d xs h =
    let n : 52 - s.out_pos ≡ length (encode xs) = omega (arith, h.filled) in
    unfold finish in
    rw n (
      slice-framed s.filename s.out_pos (length (encode xs)) (hexarray (d % 16)) b'/'
      ∙ ap (λ bs. hexarray (d % 16) ∷ b'/' ∷ (bs ++ (0 ∷ []))) h.bytes)

finish-within :
    (m : Memory) (s : Name) (d : ℕ) (xs : List ℕ) (i : ℕ)
    → Holds m s xs
    → length (encode xs) ≤ 48
    → 53 ≤ i
    → finish s d i ≡ m i
unfolding finish
finish-within m s d xs i h short far = ground (arith, h.outside i, h.filled)

create-finish :
    (c64name : List ℕ) (d : ℕ) (m : Memory)
    → create_tftp_filename c64name d m
      ≡ finish (name_loop (take 16 c64name) (length (take 16 c64name)) (start m)) d
unfolding create_tftp_filename finish
create-finish c64name d m = rw (start_pos_lem c64name, name_loop-take c64name 16 (start m))

-- For every name and every device number, the C string in tftp_filename is then the device number
-- modulo 16 as a hexadecimal digit, a slash, and the percent encoding of the first 16 characters of
-- the name less its padding and the spaces at its end. It has at most 50 characters.
pub create_tftp_filename_lem :
    (c64name : List ℕ) (d : ℕ) (m : Memory)
    → (c_string 53 (create_tftp_filename c64name d m) 0 ≡ tftp_name c64name d)
      × (length (tftp_name c64name d) ≤ 50)
create_tftp_filename_lem c64name d m =
    let held = name_loop-Holds m (take 16 c64name) (length-take-le 16 c64name) in
    let s = name_loop (take 16 c64name) (length (take 16 c64name)) (start m) in
    let xs = kept (take 16 c64name) in
    rw (create-finish c64name d m) (
      c_string-slice 53 (finish s d) 0 (tftp_name c64name d)
          (hex-pos d, (omega arith, encode-pos xs)) (omega (arith, length-tftp_name c64name d))
          (ap (slice (finish s d) 0) (size (encode xs)) ∙ finish-bytes m s d xs held),
      length-tftp_name c64name d,
    )
  where
    hex-pos : (n : ℕ) → 0 < hexarray (n % 16)
    hex-pos n = ground arith

    size : (bs : List ℕ) → suc (suc (length bs)) + 1 ≡ length bs + 3
    size bs = omega arith

-- Whatever the name and the device number are, create_tftp_filename writes nothing behind the 53
-- bytes of tftp_filename.
pub create_tftp_filename-within :
    (c64name : List ℕ) (d : ℕ) (m : Memory) (i : ℕ)
    → 53 ≤ i
    → create_tftp_filename c64name d m i ≡ m i
create_tftp_filename-within c64name d m i far =
    let held = name_loop-Holds m (take 16 c64name) (length-take-le 16 c64name) in
    let s = name_loop (take 16 c64name) (length (take 16 c64name)) (start m) in
    let xs = kept (take 16 c64name) in
    rw (create-finish c64name d m)
      (finish-within m s d xs i held (omega (arith, length-tftp_name c64name d)) far)
