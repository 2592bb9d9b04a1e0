-- ===== src/Server/Directory/Extension.antt =====
-- The extension of the names that local_encode gives (tools/device.rb).
use c64iec.Base.{
  ℕ, zero, suc, ◌+◌, ◌/◌, ◌%◌, ◌≤◌, ◌<◌, ◌≡◌, refl, sym, ap, ◌∙◌, true, some, List, [], ◌∷◌, ◌++◌,
  arith, length, Bool-cases, inl, inr, ◌==◌,
}
use mathlib.Core.Option.{some_inj}
use c64iec.Server.Directory.{
  LocalFile, has_extension, is_extension, extname, from_last_dot, skip_dots, stripped, pc64_file,
  exists, free_name, local_encode,
}

-- The dot and the counter of a local file.
abbrev suffix : ℕ → List ℕ
suffix counter = b'.' ∷ b'p' ∷ (b'0' + counter / 10) ∷ (b'0' + counter % 10) ∷ []

from_last_dot-suffix : (counter : ℕ) → from_last_dot (suffix counter) ≡ suffix counter
unfolding from_last_dot
from_last_dot-suffix counter = ground arith

from_last_dot-append :
    (xs : List ℕ) (counter : ℕ) → from_last_dot (xs ++ suffix counter) ≡ suffix counter
unfolding from_last_dot
from_last_dot-append [] counter = from_last_dot-suffix counter
from_last_dot-append (x ∷ xs) counter = rw (from_last_dot-append xs counter) refl

skip_dots-append :
    (xs : List ℕ) (counter : ℕ)
    → 0 < length (skip_dots xs)
    → skip_dots (xs ++ suffix counter) ≡ skip_dots xs ++ suffix counter
unfolding skip_dots
skip_dots-append [] counter h = absurd (omega arith)
skip_dots-append (x ∷ xs) counter h = elim (Bool-cases (x == b'.')) [
  | inl dot ↦ rw dot (skip_dots-append xs counter (rw dot at h))
  | inr other ↦ rw other refl
]

skip_dots-dots :
    (xs : List ℕ) (counter : ℕ)
    → skip_dots xs ≡ []
    → from_last_dot (skip_dots (xs ++ suffix counter)) ≡ []
unfolding skip_dots from_last_dot
skip_dots-dots [] counter h = ground arith
skip_dots-dots (x ∷ xs) counter h = elim (Bool-cases (x == b'.')) [
  | inl dot ↦ rw dot (skip_dots-dots xs counter (rw dot at h))
  | inr other ↦ absurd (cons_nil (rw other at h))
]
  where
    cons_nil : x ∷ xs ≡ [] → ⊥
    cons_nil e = cc

suffix-is_extension : (counter : ℕ) → counter < 100 → is_extension (suffix counter) ≡ true
suffix-is_extension counter small = ground arith

-- The name that local_encode gives is the stem and a counter below 100.
free_name-pc64_file :
    (n counter : ℕ) (stem : List ℕ) (files : List LocalFile) (filename : List ℕ)
    → counter + n ≤ 100
    → free_name n counter stem files ≡ some filename
    → (k : ℕ) × (k < 100) × (filename ≡ pc64_file stem k)
unfolding free_name
free_name-pc64_file zero counter stem files filename room e = cc
free_name-pc64_file (suc n) counter stem files filename room e =
    elim (Bool-cases (exists (pc64_file stem counter) files)) [
      | inl there ↦
          free_name-pc64_file n (counter + 1) stem files filename (omega arith) (rw there at e)
      | inr free ↦ (counter, omega arith, sym (some_inj.0 (rw free at e)))
    ]

pub local_encode-extension :
    (c64 : List ℕ) (files : List LocalFile) (filename : List ℕ)
    → 0 < length (skip_dots (stripped c64))
    → local_encode c64 files ≡ some filename
    → has_extension filename ≡ true
unfolding local_encode has_extension
local_encode-extension c64 files filename kept e =
    let (k, small, q) = free_name-pc64_file 100 0 (stripped c64) files filename (omega arith) e in
    rw
      (q, skip_dots-append (stripped c64) k kept, from_last_dot-append (skip_dots (stripped c64)) k)
      (suffix-is_extension k small)

pub local_encode-no_extension :
    (c64 : List ℕ) (files : List LocalFile) (filename : List ℕ)
    → skip_dots (stripped c64) ≡ []
    → local_encode c64 files ≡ some filename
    → extname filename ≡ []
unfolding local_encode
local_encode-no_extension c64 files filename none_kept e =
    let (k, small, q) = free_name-pc64_file 100 0 (stripped c64) files filename (omega arith) e in
    ap extname q ∙ skip_dots-dots (stripped c64) k none_kept
