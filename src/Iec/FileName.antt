-- ===== src/Iec/FileName.antt =====
-- create_tftp_filename of c64iec.ino: the name of a file on the server, from the name that the Commodore
-- sent. MULTIDEVICE is defined, so the device number comes first.
pub mod Encoding
pub mod Result
use c64iec.Base.{
  ℕ, zero, suc, ◌+◌, ◌-◌, ◌*◌, ◌/◌, ◌%◌, Bool, true, false, ◌&&◌, ◌||◌, List, ltb, leb, ◌==◌,
  if◌then◌else◌, length, get_or, Memory, write, copy,
}

abbrev pub c64_file_limit : ℕ
c64_file_limit = 16

-- hexarray[n] for n < 16, "0123456789abcdef"
abbrev pub hexarray : ℕ → ℕ
hexarray n = if ltb n 10 then b'0' + n else b'a' + n - 10

-- The characters that stand for themselves.
abbrev pub is_plain : ℕ → Bool
is_plain c =
    leb b'0' c && leb c b'9'
    || leb b'A' c && leb c b'Z'
    || (c == b' ' || c == b'-' || c == b'_' || c == b'.')

-- The variables of the loop, with the array tftp_filename. out_size keeps its first value, 52.
pub record Name : Type 0 where
  pub out_pos : ℕ
  pub trailing : Bool
  pub filename : Memory

-- One round of the loop, at the character c64name[i]. c >> 4 & 0xf is c / 16 % 16.
pub name_step : ℕ → Name → Name
name_step c s =
    if c == 0xa0 || c == 0
    then s
    else if c == b' ' && s.trailing
    then s
    else if is_plain c
    then record {
      out_pos = s.out_pos - 1;
      trailing = false;
      filename = write (s.out_pos - 1) c s.filename;
    }
    else record {
      out_pos = s.out_pos - 3;
      trailing = false;
      filename = write (s.out_pos - 3 + 2) (hexarray (c % 16)) (
          write (s.out_pos - 3 + 1) (hexarray (c / 16 % 16))
            (write (s.out_pos - 3) b'%' s.filename));
    }

-- for(i = n - 1; i >= 0; --i)
pub name_loop : List ℕ → ℕ → Name → Name
unfolding name_step
name_loop c64name zero s = s
name_loop c64name (suc i) s = name_loop c64name i (name_step (get_or c64name i 0) s)

abbrev pub start_pos : List ℕ → ℕ
start_pos c64name = if ltb (length c64name) c64_file_limit then length c64name else c64_file_limit

-- c64name is the list of the characters before the terminator. The result is tftp_filename.
pub create_tftp_filename : List ℕ → ℕ → Memory → Memory
unfolding name_loop
create_tftp_filename c64name device_mode m =
    let s =
      name_loop c64name (start_pos c64name)
        (record { out_pos = c64_file_limit * 3 + 4; trailing = true; filename = m }) in
    let size = c64_file_limit * 3 + 4 - s.out_pos in
    write (size + 2) 0 (
      write 1 b'/'
        (write 0 (hexarray (device_mode % 16)) (copy 2 s.filename s.out_pos size s.filename)))
