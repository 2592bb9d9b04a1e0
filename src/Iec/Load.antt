-- ===== src/Iec/Load.antt =====
-- send_file of c64iec.ino: a LOAD, from the TFTP server to the Commodore.
pub mod Emit
pub mod Serve
pub mod Repeats
pub mod Complete
pub mod Options
pub mod File
pub mod Valid
use c64iec.Base.{
  ℕ, zero, suc, ◌+◌, ◌-◌, ◌*◌, Option, none, some, List, [], ◌∷◌, not, ltb, ◌==◌, if◌then◌else◌,
  write, c_string,
}
use c64iec.Tftp.{get_file, get_block, tftp_blksize}
use c64iec.Iec.Drive.{Arrival, Drive, tftp_get, pc64_size, ethernet_probe_for_packet, put_and_count}

-- The local variables that survive a round of the outer loop. unsent_data is 0 there, and eoi is 0
-- or the loop ends. sent_this_time is written and never read.
pub record Vars : Type 0 where
  pub at_start : ℕ
  pub iobuf_offset : ℕ

-- for(i = start; i < start + n; i++) put_byte(iobuf[i], 0), with its counter
pub put_range : ℕ → ℕ → Drive → Drive
put_range zero i d = d
put_range (suc n) i d = put_range n (i + 1) (put_and_count (d.iobuf i) 0 d)

-- The bound unsent_data - 1 + iobuf_offset of the loop, for unsent_data other than 0. A value from
-- 2^15 on is negative, and the loop has no round.
abbrev pub rounds : ℕ → ℕ → ℕ
rounds unsent_data iobuf_offset =
    if ltb unsent_data 32768 then unsent_data - 1 + iobuf_offset else 0

-- The body of the outer loop behind the inner one.
pub emit : Vars → ℕ → ℕ → Drive → Drive
unfolding put_range
emit v unsent_data eoi d =
    if not (unsent_data == 0)
    then (let d' = put_range (rounds unsent_data v.iobuf_offset) 0 d in
        if not (eoi == 0)
        then put_and_count
            (d'.iobuf (if not (v.at_start == 0) then unsent_data - 1 else unsent_data)) eoi d'
        else d')
    else if not (eoi == 0)
    then put_and_count (d.iobuf 0) 1 d
    else d

-- iobuf[0] = iobuf[TFTP_BLKSIZE-header*at_start-1+iobuf_offset], where eoi is 0
abbrev pub carry : Vars → Drive → Drive
carry v d = record d {
  iobuf = write 0 (d.iobuf (tftp_blksize - pc64_size * v.at_start - 1 + v.iobuf_offset)) d.iobuf;
}

-- One round of the inner loop, and the rest of the outer loop when the inner one ends. The loops
-- wait for packets, so they recur on the arrivals; none means that they still wait at the end.
pub send_loop : List Arrival → Drive → Vars → Option (Drive × ℕ)
unfolding emit
send_loop [] d v = none
send_loop (a ∷ later) d v =
    let t = ethernet_probe_for_packet a d.tftp in
    let (t', buf, unsent_data) =
      get_block t d.iobuf v.iobuf_offset (if not (v.at_start == 0) then pc64_size else 0) in
    let d' = record d { tftp = t'; iobuf = buf } in
    let rest =
      send_loop later (if unsent_data == 0 then d' else carry v (emit v unsent_data 0 d'))
        (if unsent_data == 0 then v else record { at_start = 0; iobuf_offset = 1 }) in
    if not (t.error == 0)
    then some (record d { tftp = t }, 0)
    else if not (t'.request_in_progress == tftp_get)
    then some (emit v unsent_data 1 d', 1)
    else rest

pub send_file : List Arrival → Drive → Option (Drive × ℕ)
unfolding send_loop
send_file arrivals d =
    let d' = record d {
      sent_to_c64 = 0;
      tftp = (get_file d.tftp (c_string 53 d.tftp_filename 0)).0;
    } in
    let sending = send_loop arrivals d' (record { at_start = 1; iobuf_offset = 0 }) in
    if d'.tftp.request_in_progress == tftp_get then sending else some (d', 1)
