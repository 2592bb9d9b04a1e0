-- ===== src/Webutil/Codec.antt =====
-- urlDecode reads back what urlEncode writes, and what create_tftp_filename writes (webutil.cpp,
-- c64iec.ino).
use mathlib.Core.Option
use native.Mathlib.Decide.{ℕ_discrete}
use c64iec.Base.{
  ℕ, ◌+◌, ◌-◌, ◌/◌, ◌%◌, ◌<◌, ◌≡◌, ◌≢◌, refl, sym, ap, Bool, true, false, some, List, [], ◌∷◌,
  arith, ltb, ◌==◌, if◌then◌else◌, All, IsByte, Bool-cases, inl, inr,
}
use c64iec.Webutil.{h2int, hex_byte, url_decode, int2h, url_encode}
use c64iec.Iec.FileName.{hexarray, is_plain}
use c64iec.Iec.FileName.Encoding.{encode}

url_decode-plain :
    (c : ℕ) (xs : List ℕ)
    → c ≢ b'%'
    → url_decode (c ∷ xs) ≡ Option.map (λ ds. (if c == b'+' then b' ' else c) ∷ ds) (url_decode xs)
unfolding url_decode
url_decode-plain c [] h = ground arith
url_decode-plain c (a ∷ []) h = ground arith
url_decode-plain c (a ∷ b ∷ cs) h = ground arith

url_decode-escape :
    (a b : ℕ) (xs : List ℕ)
    → url_decode (b'%' ∷ a ∷ b ∷ xs) ≡ Option.map (λ ds. hex_byte a b ∷ ds) (url_decode xs)
unfolding url_decode
url_decode-escape a b xs = refl

h2int-hexarray : (n : ℕ) → n < 16 → h2int (hexarray n) ≡ n
unfolding h2int
h2int-hexarray n h = ground arith

hex_byte-hexarray : (c : ℕ) → c < 256 → hex_byte (hexarray (c / 16 % 16)) (hexarray (c % 16)) ≡ c
hex_byte-hexarray c h =
    rw (h2int-hexarray (c / 16 % 16) (omega arith), h2int-hexarray (c % 16) (omega arith))
      (omega arith)

-- urlDecode gives back every byte string that the drive's percent encoding encodes, for characters
-- that are bytes: the server can recover the name from a decoded path.
pub url_decode-encode : (xs : List ℕ) → All IsByte xs → url_decode (encode xs) ≡ some xs
unfolding encode
url_decode-encode [] h = unfold url_decode in refl
url_decode-encode (c ∷ cs) h = elim (Bool-cases (is_plain c)) [
  | inl plain ↦
      rw (plain, url_decode-plain c (encode cs) (ground arith), url_decode-encode cs h.1)
        (ground arith)
  | inr coded ↦
      rw
        (
          coded,
          url_decode-escape (hexarray (c / 16 % 16)) (hexarray (c % 16)) (encode cs),
          url_decode-encode cs h.1,
        )
        (ap (λ b. some (b ∷ cs)) (hex_byte-hexarray c h.0))
]

h2int-digit : (n : ℕ) → n < 16 → h2int (if ltb 9 n then n - 10 + b'a' else n + b'0') ≡ n
unfolding h2int
h2int-digit n h = ground arith

hex_byte-int2h : (c : ℕ) → c < 256 → hex_byte (int2h c).0 (int2h c).1 ≡ c
unfolding int2h
hex_byte-int2h c h =
    rw (h2int-digit (c / 16 % 16) (omega arith), h2int-digit (c % 16) (omega arith)) (omega arith)

module _ (isalnum : ℕ → Bool) where
  -- The three ways through the body of urlEncode.
  url_encode-space :
      (c : ℕ) (cs : List ℕ) → c ≡ b' ' → url_encode isalnum (c ∷ cs) ≡ b'+' ∷ url_encode isalnum cs
  unfolding url_encode
  url_encode-space c cs h = ground arith

  url_encode_self :
      (c : ℕ) (cs : List ℕ)
      → c ≢ b' '
      → isalnum c ≡ true
      → url_encode isalnum (c ∷ cs) ≡ c ∷ url_encode isalnum cs
  unfolding url_encode
  url_encode_self c cs h k = ground arith

  url_encode-escape :
      (c : ℕ) (cs : List ℕ)
      → c ≢ b' '
      → isalnum c ≡ false
      → url_encode isalnum (c ∷ cs) ≡ b'%' ∷ (int2h c).0 ∷ (int2h c).1 ∷ url_encode isalnum cs
  unfolding url_encode
  url_encode-escape c cs h k = ground arith

  -- urlDecode undoes urlEncode on every string of bytes, where isalnum holds neither of the percent
  -- sign nor of the plus sign.
  pub url_decode-url_encode :
      isalnum b'%' ≡ false
      → isalnum b'+' ≡ false
      → (xs : List ℕ) → All IsByte xs
      → url_decode (url_encode isalnum xs) ≡ some xs
  url_decode-url_encode percent plus [] h = unfold url_decode url_encode in refl
  url_decode-url_encode percent plus (c ∷ cs) h =
      let ih = url_decode-url_encode percent plus cs h.1 in
      elim (ℕ_discrete c b' ') [
        | yes space ↦
            rw
              (
                url_encode-space c cs space,
                url_decode-plain b'+' (url_encode isalnum cs) (omega arith),
                ih,
              )
              (ap (λ x. some (x ∷ cs)) (sym space))
        | no other ↦ elim (Bool-cases (isalnum c)) [
          | inl self ↦
              rw
                (
                  url_encode_self c cs other self,
                  url_decode-plain c (url_encode isalnum cs) (ground arith),
                  ih,
                )
                (ground arith)
          | inr escaped ↦
              rw
                (
                  url_encode-escape c cs other escaped,
                  url_decode-escape (int2h c).0 (int2h c).1 (url_encode isalnum cs),
                  ih,
                )
                (ap (λ b. some (b ∷ cs)) (hex_byte-int2h c h.0))
        ]
      ]
