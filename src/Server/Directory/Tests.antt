-- ===== src/Server/Directory/Tests.antt =====
-- Files that are written to a directory of the server.
use c64iec.Base.{◌≡◌, refl, some, true, false, [], ◌∷◌, ◌++◌, arith}
use c64iec.Server.Directory.{
  LocalFile, open_read, created, unlink, local_encode, stripped, skip_dots, without_padding,
  find_local, is_pc64, pc64_c64_filename, from_last_dot, directory, dir_header, dir_footer, spaces,
  has_extension,
}
use c64iec.Server.Directory.Kept.{open_read-created, open_read-lost}

-- The file of another name.
abbrev other : LocalFile
other = created (b'b' ∷ b'.' ∷ b'p' ∷ b'0' ∷ b'0' ∷ []) (66 ∷ []) (1 ∷ 2 ∷ [])

-- The file of the name, before it is overwritten.
abbrev old : LocalFile
old = created (b'a' ∷ b'.' ∷ b'p' ∷ b'0' ∷ b'0' ∷ []) (65 ∷ []) (3 ∷ [])

open_read-created_example :
    open_read
      (65 ∷ [])
      (other ∷ created (b'a' ∷ b'.' ∷ b'p' ∷ b'0' ∷ b'0' ∷ []) (65 ∷ []) (7 ∷ []) ∷ [])
    ≡ some (7 ∷ [])
open_read-created_example =
    open_read-created (65 ∷ []) (omega arith) (7 ∷ []) (b'a' ∷ b'.' ∷ b'p' ∷ b'0' ∷ b'0' ∷ [])
      (other ∷ old ∷ []) (other ∷ []) [] refl (unfold without_padding in refl)
      (unfold stripped skip_dots in omega arith)
      (unfold unlink is_pc64 pc64_c64_filename from_last_dot skip_dots in refl)
      (unfold find_local is_pc64 pc64_c64_filename from_last_dot skip_dots in refl)
      (unfold local_encode unlink is_pc64 pc64_c64_filename from_last_dot skip_dots in refl)

open_read-lost_example :
    open_read
      (b'!' ∷ [])
      (other ∷ created (b'.' ∷ b'p' ∷ b'0' ∷ b'0' ∷ []) (b'!' ∷ []) (7 ∷ []) ∷ [])
    ≡ open_read (b'!' ∷ []) (other ∷ [])
open_read-lost_example =
    open_read-lost (b'!' ∷ []) (b'!' ∷ []) (7 ∷ []) (b'.' ∷ b'p' ∷ b'0' ∷ b'0' ∷ []) (other ∷ [])
      (other ∷ []) [] (unfold stripped skip_dots in refl) (unfold local_encode in refl)

-- The listing under $: the size of a file, its name and its kind.
listed :
    directory (old ∷ [])
    ≡ dir_header
      ++ ((1 ∷ 1 ∷ 0 ∷ 0 ∷ b' ' ∷ b' ' ∷ b' ' ∷ b'"' ∷ 65 ∷ b'"' ∷ spaces 16)
          ++ (b' ' ∷ b'P' ∷ b'R' ∷ b'G' ∷ b' ' ∷ 0 ∷ dir_footer))
unfolding directory from_last_dot skip_dots pc64_c64_filename
listed = refl

-- Two dots at the start of a name, and a line that ends behind the extension.
extensions :
    (has_extension (b'.' ∷ b'.' ∷ b'p' ∷ b'0' ∷ b'0' ∷ []) ≡ false)
    × (has_extension (b'a' ∷ b'.' ∷ b'P' ∷ b'0' ∷ b'0' ∷ 10 ∷ []) ≡ true)
unfolding has_extension from_last_dot skip_dots
extensions = (refl, refl)
