-- ===== src/Server/Directory/Kept.antt =====
-- A file that is written to a directory of the server is read again under its name (tools/device.rb).
use c64iec.Base.{
  ℕ, zero, suc, ◌-◌, ◌≤◌, ◌<◌, ◌≡◌, refl, ap, ◌∙◌, true, false, none, some, List, [], ◌∷◌, ◌++◌,
  arith, length, length-append, take, Bool-cases, inl, inr,
}
use c64iec.Server.{drop, text_eq}
use c64iec.Server.Blocks.{take-append, drop-append}
use c64iec.Server.Directory.Extension.{local_encode-extension, local_encode-no_extension}
use c64iec.Server.Directory.{
  LocalFile, pc64_id, has_extension, extname, skip_dots, is_listing, is_listed, entries, directory,
  is_pc64, without_padding, pc64_c64_filename, is_named, find_local, open_read, unlink, stripped,
  local_encode, zeros, pc64_header, created,
}

text_eq_refl : (xs : List ℕ) → text_eq xs xs ≡ true
text_eq_refl [] = refl
text_eq_refl (x ∷ xs) = ground (arith, text_eq_refl xs)

find_local-append :
    (c64 : List ℕ) (fs gs : List LocalFile)
    → find_local c64 fs ≡ none
    → find_local c64 (fs ++ gs) ≡ find_local c64 gs
unfolding find_local
find_local-append c64 [] gs h = refl
find_local-append c64 (f ∷ fs) gs h = elim (Bool-cases (is_named c64 f)) [
  | inl found ↦ absurd (some_none (rw found at h))
  | inr other ↦ rw other (find_local-append c64 fs gs (rw other at h))
]
  where
    some_none : some f ≡ none → ⊥
    some_none e = cc

length-zeros : (n : ℕ) → length (zeros n) ≡ n
length-zeros zero = refl
length-zeros (suc n) = ap suc (length-zeros n)

without_padding-zeros : (n : ℕ) → without_padding (zeros n) ≡ []
unfolding without_padding
without_padding-zeros zero = refl
without_padding-zeros (suc n) = rw (without_padding-zeros n) refl

without_padding-append :
    (xs : List ℕ) (n : ℕ) → without_padding (xs ++ zeros n) ≡ without_padding xs
unfolding without_padding
without_padding-append [] n = without_padding-zeros n
without_padding-append (x ∷ xs) n = rw (without_padding-append xs n) refl

find_local-append_left :
    (c64 : List ℕ) (fs gs : List LocalFile)
    → find_local c64 (fs ++ gs) ≡ none
    → find_local c64 fs ≡ none
unfolding find_local
find_local-append_left c64 [] gs h = refl
find_local-append_left c64 (f ∷ fs) gs h = ground (arith, find_local-append_left c64 fs gs)

-- A file that is no PC64 file is passed over.
find_local-passed :
    (c64 : List ℕ) (fs gs : List LocalFile) (f : LocalFile)
    → is_pc64 f ≡ false
    → find_local c64 (fs ++ (f ∷ gs)) ≡ find_local c64 (fs ++ gs)
unfolding find_local
find_local-passed c64 [] gs f h = rw h refl
find_local-passed c64 (x ∷ fs) gs f h = rw (find_local-passed c64 fs gs f h) refl

-- A file that the listing does not show is passed over.
entries-passed :
    (fs gs : List LocalFile) (f : LocalFile)
    → is_listed f ≡ false
    → entries (fs ++ (f ∷ gs)) ≡ entries (fs ++ gs)
unfolding entries
entries-passed [] gs f h = rw h refl
entries-passed (x ∷ fs) gs f h = rw (entries-passed fs gs f h) refl

no_extension-is_pc64 : (f : LocalFile) → extname f.filename ≡ [] → is_pc64 f ≡ false
unfolding is_pc64 has_extension
no_extension-is_pc64 f h = rw h refl

no_extension-is_listed : (f : LocalFile) → extname f.filename ≡ [] → is_listed f ≡ false
unfolding is_listed
no_extension-is_listed f h = rw h refl

module _ (c64 : List ℕ) (short : length c64 ≤ 16) where
  length-pc64_header : length (pc64_header c64) ≡ 26
  length-pc64_header = omega (
    arith,
    length-append c64 (zeros (16 - length c64)),
    length-zeros (16 - length c64),
    length-append (c64 ++ zeros (16 - length c64)) (0 ∷ 0 ∷ []),
  )

  -- The name in the header of a file that has been created.
  created-name :
      (filename bytes : List ℕ)
      → pc64_c64_filename (created filename c64 bytes) ≡ without_padding c64
  unfolding pc64_c64_filename
  created-name filename bytes =
      let padded = c64 ++ zeros (16 - length c64) in
      let size : length padded ≡ 16 =
        omega
          (arith, length-append c64 (zeros (16 - length c64)), length-zeros (16 - length c64)) in
      ap (λ xs. without_padding (take 16 (drop 8 xs)))
        (take-append 26 (pc64_header c64) bytes length-pc64_header)
      ∙ (ap without_padding (take-append 16 padded (0 ∷ 0 ∷ []) size)
          ∙ without_padding-append c64 (16 - length c64))

  created-is_pc64 :
      (filename bytes : List ℕ)
      → has_extension filename ≡ true
      → is_pc64 (created filename c64 bytes) ≡ true
  unfolding is_pc64
  created-is_pc64 filename bytes h =
      let head : text_eq (take 7 (take 26 (pc64_header c64 ++ bytes))) pc64_id ≡ true =
        ap (λ xs. text_eq (take 7 xs) pc64_id)
          (take-append 26 (pc64_header c64) bytes length-pc64_header) in
      rw (h, head) refl

  created-is_named :
      (filename bytes : List ℕ)
      → has_extension filename ≡ true
      → without_padding c64 ≡ c64
      → is_named c64 (created filename c64 bytes) ≡ true
  created-is_named filename bytes h plain =
      rw (created-is_pc64 filename bytes h, created-name filename bytes ∙ plain, text_eq_refl c64)
        refl

  -- What is written under a name is read again under the name. The name has at most 16 characters, does
  -- not start with $, has none of the padding characters at the end of a line, and has a character
  -- that local_encode keeps and that is no dot; local_encode gives a name for the local file in what
  -- is left of the directory without the old file of this name, and no other file there has the
  -- name. Then, wherever the new file stands in the directory, open_read finds exactly the bytes that
  -- have been written.
  pub open_read-created :
      (bytes filename : List ℕ) (files before behind : List LocalFile)
      → is_listing c64 ≡ false
      → without_padding c64 ≡ c64
      → 0 < length (skip_dots (stripped c64))
      → unlink c64 files ≡ before ++ behind
      → find_local c64 (before ++ behind) ≡ none
      → local_encode c64 (unlink c64 files) ≡ some filename
      → open_read c64 (before ++ (created filename c64 bytes ∷ behind)) ≡ some bytes
  unfolding open_read find_local
  open_read-created bytes filename files before behind no_listing plain kept left alone encoded =
      let h = local_encode-extension c64 (unlink c64 files) filename kept encoded in
      let found = created-is_named filename bytes h plain in
      let first = find_local-append_left c64 before behind alone in
      rw
        (
          no_listing,
          find_local-append c64 before (created filename c64 bytes ∷ behind) first,
          found,
        )
        (ap some (drop-append 26 (pc64_header c64) bytes length-pc64_header))

-- A name of which local_encode keeps nothing but dots is lost. When every character of the name that
-- is not stripped is a dot, the local file has no extension for the server, and open_read finds under
-- any name, the one of the listing included, what it would find without this file.
pub open_read-lost :
    (c64 name bytes filename : List ℕ) (files before behind : List LocalFile)
    → skip_dots (stripped c64) ≡ []
    → local_encode c64 files ≡ some filename
    → open_read name (before ++ (created filename c64 bytes ∷ behind))
      ≡ open_read name (before ++ behind)
unfolding open_read directory
open_read-lost c64 name bytes filename files before behind none_kept encoded =
    let new = created filename c64 bytes in
    let h = local_encode-no_extension c64 files filename none_kept encoded in
    rw
      (
        find_local-passed name before behind new (no_extension-is_pc64 new h),
        entries-passed before behind new (no_extension-is_listed new h),
      )
      refl
