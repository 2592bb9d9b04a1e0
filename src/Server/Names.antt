-- ===== src/Server/Names.antt =====
-- The server undoes what create_tftp_filename of c64iec.ino has done to a name (tools/tftp.rb,
-- tools/device.rb).
use c64iec.Base.{
  ℕ, ◌/◌, ◌%◌, ◌≤◌, ◌<◌, ◌≡◌, ◌≢◌, inl, inr, refl, ap, ◌∙◌, true, false, some, List, [], ◌∷◌, ◌++◌,
  arith, take, All, All-append, All-take, Memory, c_string, ◌==◌, Bool-cases, IsByte,
}
use c64iec.Iec.FileName.{hexarray, is_plain, create_tftp_filename}
use c64iec.Iec.FileName.Encoding.{code, kept, encode}
use c64iec.Iec.FileName.Result.{tftp_name, create_tftp_filename_lem}
use c64iec.Server.{
  unpercent, without_marks, decode, find_device, line, is_hex, hex_value, is_device, device_of,
}

hex_digits : (n : ℕ) → n < 16 → (is_hex (hexarray n) ≡ true) × (hex_value (hexarray n) ≡ n)
hex_digits n h = ground arith

unpercent-plain : (c : ℕ) (ys : List ℕ) → is_plain c ≡ true → unpercent (c ∷ ys) ≡ c ∷ unpercent ys
unfolding unpercent
unpercent-plain c [] h = refl
unpercent-plain c (y ∷ []) h = refl
unpercent-plain c (y ∷ z ∷ zs) h = let e : (c == b'%') ≡ false = ground arith in rw e refl

unpercent-coded :
    (c : ℕ) (ys : List ℕ)
    → IsByte c
    → unpercent (b'%' ∷ hexarray (c / 16 % 16) ∷ hexarray (c % 16) ∷ ys) ≡ c ∷ unpercent ys
unfolding unpercent
unpercent-coded c ys h =
    let (hi, hi_value) = hex_digits (c / 16 % 16) (omega arith) in
    let (lo, lo_value) = hex_digits (c % 16) (omega arith) in
    rw (hi, lo, hi_value, lo_value) (ap (λ b. b ∷ unpercent ys) (omega arith))

unpercent-code : (c : ℕ) (ys : List ℕ) → IsByte c → unpercent (code c ++ ys) ≡ c ∷ unpercent ys
unpercent-code c ys h = elim (Bool-cases (is_plain c)) [
  | inl plain ↦ rw plain (unpercent-plain c ys plain)
  | inr coded ↦ rw coded (unpercent-coded c ys h)
]

pub unpercent-encode : (xs : List ℕ) → All IsByte xs → unpercent (encode xs) ≡ xs
unfolding encode
unpercent-encode [] h = unfold unpercent in refl
unpercent-encode (c ∷ cs) h =
    unpercent-code c (encode cs) h.0 ∙ ap (λ xs. c ∷ xs) (unpercent-encode cs h.1)

pub decode-encode : (xs : List ℕ) → All IsByte xs → decode (encode xs) ≡ without_marks true xs
unfolding decode
decode-encode xs h = ap (without_marks true) (unpercent-encode xs h)

-- An encoding has no newline.
code-OneLine : (c : ℕ) → All (λ x. x ≢ 10) (code c)
code-OneLine c = elim (Bool-cases (is_plain c)) [
  | inl plain ↦ rw plain ((λ e. ground arith), tt)
  | inr coded ↦ rw coded ((λ e. ground arith), ((λ e. ground arith), ((λ e. ground arith), tt)))
]

encode-OneLine : (xs : List ℕ) → All (λ x. x ≢ 10) (encode xs)
unfolding encode
encode-OneLine [] = tt
encode-OneLine (c ∷ cs) =
    All-append (λ x. x ≢ 10) (code c) (encode cs) (code-OneLine c) (encode-OneLine cs)

line-OneLine : (xs : List ℕ) → All (λ x. x ≢ 10) xs → line xs ≡ xs
line-OneLine [] h = refl
line-OneLine (x ∷ xs) h = ground (arith, h.0, line-OneLine xs h.1)

device-hexarray :
    (n : ℕ) → 8 ≤ n → n < 16 → (is_device (hexarray n) ≡ true) × (device_of (hexarray n) ≡ n)
device-hexarray n h k = ground arith

-- The server finds the device and the name in what the drive asks for.
pub find_device-tftp_name :
    (name : List ℕ) (device : ℕ)
    → 8 ≤ device % 16
    → find_device true (tftp_name name device) ≡ some (device % 16, encode (kept (take 16 name)))
unfolding find_device
find_device-tftp_name name device h =
    let (known, number) = device-hexarray (device % 16) h (omega arith) in
    let xs = encode (kept (take 16 name)) in
    rw (known, number, line-OneLine xs (encode-OneLine (kept (take 16 name)))) refl

kept-IsByte : (xs : List ℕ) → All IsByte xs → All IsByte (kept xs)
unfolding kept
kept-IsByte [] h = tt
kept-IsByte (c ∷ cs) h = ground (arith, kept-IsByte cs h.1)

-- The name of the file for the devices of the server.
abbrev pub plain_name : List ℕ → List ℕ
plain_name name = without_marks true (kept (take 16 name))

pub decode-name :
    (name : List ℕ) → All IsByte name → decode (encode (kept (take 16 name))) ≡ plain_name name
decode-name name bytes =
    decode-encode (kept (take 16 name)) (kept-IsByte (take 16 name) (All-take IsByte 16 name bytes))

-- What create_tftp_filename writes, the server reads back. For a name of bytes and a device whose number
-- is 8 to 15 in its lowest four bits, the server finds this number in the C string that is left in
-- tftp_filename, and decodes the rest to the first 16 characters of the name, less the padding
-- characters 0xa0 and 0, the spaces at the end, and marks such as @0: at the start of a line.
pub decode-create_tftp_filename :
    (name : List ℕ) (device : ℕ) (m : Memory)
    → All IsByte name
    → 8 ≤ device % 16
    → (rest : List ℕ) × (find_device true (c_string 53 (create_tftp_filename name device m) 0)
        ≡ some (device % 16, rest))
      × (decode rest ≡ plain_name name)
decode-create_tftp_filename name device m bytes h = (
  encode (kept (take 16 name)),
  ap (find_device true) (create_tftp_filename_lem name device m).0
      ∙ find_device-tftp_name name device h,
  decode-name name bytes,
)
