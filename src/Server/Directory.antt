-- ===== src/Server/Directory.antt =====
-- The directory of PC64 files that the server keeps for a device (tools/device.rb). The files stand in the
-- order in which each_child gives them, which is not specified. A file that ends before the name in its
-- header counts as one without a name.
pub mod Extension
pub mod Kept
mod Tests
use c64iec.Base.{
  ℕ, zero, suc, ◌+◌, ◌-◌, ◌/◌, ◌%◌, Bool, true, false, ◌&&◌, ◌||◌, Option, none, some, List, [],
  ◌∷◌, ◌++◌, length, take, leb, ltb, ◌==◌, if◌then◌else◌, map, u8,
}
use c64iec.Server.{drop, text_eq, is_digit}

pub record LocalFile : Type 0 where
  pub filename : List ℕ
  pub bytes : List ℕ

-- The text C64File.
abbrev pub pc64_id : List ℕ
pc64_id = b'C' ∷ b'6' ∷ b'4' ∷ b'F' ∷ b'i' ∷ b'l' ∷ b'e' ∷ []

-- Does a line end before the text?
abbrev pub at_line_end : List ℕ → Bool
at_line_end [] = true
at_line_end (c ∷ cs) = c == 10

-- [/\.p\d\d$/i] on an extension, in which no other dot stands
abbrev pub is_extension : List ℕ → Bool
is_extension [] = false
is_extension (a ∷ []) = false
is_extension (a ∷ b ∷ []) = false
is_extension (a ∷ b ∷ c ∷ []) = false
is_extension (a ∷ b ∷ c ∷ d ∷ rest) =
    a == b'.' && (b == b'p' || b == b'P') && is_digit c && is_digit d && at_line_end rest

-- The dots at the start of a name begin no extension.
pub skip_dots : List ℕ → List ℕ
skip_dots [] = []
skip_dots (c ∷ cs) = let rest = skip_dots cs in if c == b'.' then rest else c ∷ cs

pub from_last_dot : List ℕ → List ℕ
from_last_dot [] = []
from_last_dot (c ∷ cs) =
    let rest = from_last_dot cs in
    if length rest == 0 then if c == b'.' then c ∷ cs else [] else rest

-- file.extname
abbrev pub extname : List ℕ → List ℕ
extname filename = from_last_dot (skip_dots filename)

-- file.extname[/\.p\d\d$/i]
pub has_extension : List ℕ → Bool
has_extension filename = is_extension (extname filename)

abbrev pub header_of : LocalFile → List ℕ
header_of f = take 26 f.bytes

pub is_pc64 : LocalFile → Bool
unfolding has_extension
is_pc64 f = has_extension f.filename && text_eq (take 7 (header_of f)) pc64_id

abbrev pub is_padding : ℕ → Bool
is_padding c = c == b' ' || c == 0xa0 || c == 0

-- gsub(/[ \xa0\x00]*$/, ''), which strips at the end of every line
pub without_padding : List ℕ → List ℕ
without_padding [] = []
without_padding (c ∷ cs) =
    let rest = without_padding cs in if at_line_end rest && is_padding c then rest else c ∷ rest

pub pc64_c64_filename : LocalFile → List ℕ
unfolding without_padding
pc64_c64_filename f = without_padding (take 16 (drop 8 (header_of f)))

abbrev pub is_named : List ℕ → LocalFile → Bool
is_named c64 f = is_pc64 f && text_eq (pc64_c64_filename f) c64

pub find_local : List ℕ → List LocalFile → Option LocalFile
find_local c64 [] = none
find_local c64 (f ∷ fs) = let rest = find_local c64 fs in if is_named c64 f then some f else rest

abbrev pub behind_header : Option LocalFile → Option (List ℕ)
behind_header none = none
behind_header (some f) = some (drop 26 f.bytes)

abbrev pub downcase : ℕ → ℕ
downcase c = if leb b'A' c && leb c b'Z' then c + 32 else c

abbrev pub spaces : ℕ → List ℕ
spaces zero = []
spaces (suc n) = b' ' ∷ spaces n

-- @addr = 0x0401, and the line with the title
abbrev pub dir_header : List ℕ
dir_header =
    1
    ∷ 4
    ∷ 1
    ∷ 1
    ∷ 0
    ∷ 0
    ∷ 0x12
    ∷ b'"'
    ∷ b'D'
    ∷ b'I'
    ∷ b'R'
    ∷ b'E'
    ∷ b'C'
    ∷ b'T'
    ∷ b'O'
    ∷ b'R'
    ∷ b'Y'
    ∷ b'"'
    ∷ (spaces 13 ++ (0 ∷ []))

abbrev pub dir_footer : List ℕ
dir_footer =
    1
    ∷ 1
    ∷ 0xff
    ∷ 0xff
    ∷ b'B'
    ∷ b'L'
    ∷ b'O'
    ∷ b'C'
    ∷ b'K'
    ∷ b'S'
    ∷ b' '
    ∷ b'F'
    ∷ b'R'
    ∷ b'E'
    ∷ b'E'
    ∷ b'.'
    ∷ (spaces 13 ++ (0 ∷ 0 ∷ 0 ∷ []))

-- (file.size-PC64_HEADER_SIZE)/BLKSIZE, which is -1 for a file without a whole header
abbrev pub blocks : LocalFile → ℕ
blocks f = (length f.bytes - 26) / 256

abbrev pub packed_size : LocalFile → List ℕ
packed_size f =
    if ltb (length f.bytes) 26 then 255 ∷ 255 ∷ [] else u8 (blocks f) ∷ u8 (blocks f / 256) ∷ []

-- The number b of spaces before a name.
abbrev pub indent : ℕ → ℕ
indent size = 1 + (if ltb size 100 then 1 else 0) + (if ltb size 10 then 1 else 0)

pub dir_entry : LocalFile → List ℕ
unfolding pc64_c64_filename
dir_entry f =
    let name = without_padding (pc64_c64_filename f) in
    1
    ∷ 1
    ∷ (packed_size f
        ++ (spaces (indent (blocks f))
            ++ (b'"'
                ∷ (name
                    ++ (b'"'
                        ∷ (spaces (17 - length name)
                            ++ (b' '
                                ∷ b'P'
                                ∷ b'R'
                                ∷ b'G'
                                ∷ b' '
                                ∷ (spaces (3 - indent (blocks f)) ++ (0 ∷ [])))))))))

-- child.extname.downcase == ".p00"
pub is_listed : LocalFile → Bool
is_listed f = text_eq (map downcase (extname f.filename)) (b'.' ∷ b'p' ∷ b'0' ∷ b'0' ∷ [])

pub entries : List LocalFile → List ℕ
unfolding dir_entry is_listed
entries [] = []
entries (f ∷ fs) = let rest = entries fs in if is_listed f then dir_entry f ++ rest else rest

pub directory : List LocalFile → List ℕ
unfolding entries
directory files = dir_header ++ (entries files ++ dir_footer)

-- @c64file.c64[0] == "$"
abbrev pub is_listing : List ℕ → Bool
is_listing [] = false
is_listing (c ∷ cs) = c == b'$'

pub open_read : List ℕ → List LocalFile → Option (List ℕ)
unfolding find_local directory
open_read c64 files =
    if is_listing c64 then some (directory files) else behind_header (find_local c64 files)

-- local.unlink
pub unlink : List ℕ → List LocalFile → List LocalFile
unlink c64 [] = []
unlink c64 (f ∷ fs) = let rest = f ∷ unlink c64 fs in if is_named c64 f then fs else rest

abbrev pub is_local : ℕ → Bool
is_local c = is_digit c || (leb b'a' c && leb c b'z') || (c == b'_' || c == b'.' || c == b'-')

-- @c64.downcase.gsub(/[^0-9a-z_.-]/, "")
pub stripped : List ℕ → List ℕ
stripped [] = []
stripped (c ∷ cs) =
    let rest = stripped cs in if is_local (downcase c) then downcase c ∷ rest else rest

-- pc64_file, for a counter below 100
abbrev pub pc64_file : List ℕ → ℕ → List ℕ
pc64_file filename counter =
    filename ++ (b'.' ∷ b'p' ∷ (b'0' + counter / 10) ∷ (b'0' + counter % 10) ∷ [])

pub exists : List ℕ → List LocalFile → Bool
exists filename [] = false
exists filename (f ∷ fs) = text_eq f.filename filename || exists filename fs

-- The loop of local_encode with n counters left.
pub free_name : ℕ → ℕ → List ℕ → List LocalFile → Option (List ℕ)
unfolding exists
free_name zero counter filename files = none
free_name (suc n) counter filename files =
    let rest = free_name n (counter + 1) filename files in
    if exists (pc64_file filename counter) files then rest else some (pc64_file filename counter)

pub local_encode : List ℕ → List LocalFile → Option (List ℕ)
unfolding stripped free_name
local_encode c64 files = free_name 100 0 (stripped c64) files

abbrev pub zeros : ℕ → List ℕ
zeros zero = []
zeros (suc n) = 0 ∷ zeros n

-- pc64_write_header, for a name of at most 16 characters
abbrev pub pc64_header : List ℕ → List ℕ
pc64_header c64 = pc64_id ++ (0 ∷ ((c64 ++ zeros (16 - length c64)) ++ (0 ∷ 0 ∷ [])))

-- open_write, the bytes that are written, and close. The new file stands in the directory between
-- `before` and `behind`, which together are what is left of it.
abbrev pub created : List ℕ → List ℕ → List ℕ → LocalFile
created filename c64 bytes = record { filename = filename; bytes = pc64_header c64 ++ bytes }
