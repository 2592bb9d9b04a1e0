-- ===== src/Iec/Header.antt =====
-- pc64_make_header (c64iec.ino): the header of a PC64 file. The firmware has its call commented out, and
-- PC64_SIZE is 0.
use c64iec.Base.{
  ℕ, ◌-◌, ◌≡◌, refl, List, [], ◌∷◌, ◌++◌, length, leb, if◌then◌else◌, Memory, write, copy, fill,
  store, slice, c_string,
}
use c64iec.Iec.FileName.{c64_file_limit}

abbrev pub c64file_text : List ℕ
c64file_text = b'C' ∷ b'6' ∷ b'4' ∷ b'F' ∷ b'i' ∷ b'l' ∷ b'e' ∷ 0 ∷ []

-- The loop that clears what stands behind a name of `len` characters.
abbrev pub cleared : ℕ → Memory → Memory
cleared len m = if leb len c64_file_limit then fill len 0 (c64_file_limit - len) m else m

pub pc64_make_header : Memory → Memory
pc64_make_header m =
    let k = cleared (length (c_string 257 m 0)) m in
    write 25 0 (write 24 0 (store 0 c64file_text (copy 8 k 0 16 k)))

header_parts :
    (k : Memory)
    → slice (write 25 0 (write 24 0 (store 0 c64file_text (copy 8 k 0 16 k)))) 0 26
      ≡ c64file_text ++ (slice k 0 16 ++ (0 ∷ 0 ∷ []))
unfolding slice store
header_parts k = refl

-- The 26 bytes at the start are the mark of a PC64 file, the sixteen bytes of the name, where those
-- behind a shorter name are 0, and two bytes for a size of records that is not used.
pub pc64_make_header_lem :
    (m : Memory)
    → slice (pc64_make_header m) 0 26
      ≡ c64file_text ++ (slice (cleared (length (c_string 257 m 0)) m) 0 16 ++ (0 ∷ 0 ∷ []))
unfolding pc64_make_header
pc64_make_header_lem m = header_parts (cleared (length (c_string 257 m 0)) m)
