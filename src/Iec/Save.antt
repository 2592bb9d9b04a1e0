-- ===== src/Iec/Save.antt =====
-- recv_file of c64iec.ino: a SAVE, from the Commodore to the TFTP server.
pub mod Wait
pub mod Rounds
pub mod File
pub mod Valid
pub mod Live
use c64iec.Base.{
  ℕ, ◌+◌, Bool, not, ◌&&◌, ◌||◌, Option, none, some, List, [], ◌∷◌, ◌==◌, if◌then◌else◌, Memory,
  write, c_string,
}
use c64iec.Tftp.{Tftp, put_file, put_block}
use c64iec.Iec.Drive.{Arrival, Drive, tftp_put, ethernet_probe_for_packet}

-- What the bus gives in one round of the loop: whether ATN is active at its start, the byte that
-- get_byte writes, none if it times out before it writes, and the result of get_byte.
pub record BusByte : Type 0 where
  pub atn : Bool
  pub written : Option ℕ
  pub eoi : ℕ

-- while(!tftp_put_block(iobuf, size)) ethernet_probe_for_packet();
-- The result has the arrivals that are left. It is none if the loop still waits at their end.
pub put_wait : List Arrival → Tftp → Memory → ℕ → Option (Tftp × List Arrival)
put_wait [] t m size =
    let (t', sent) = put_block t m size in if not (sent == 0) then some (t', []) else none
put_wait (a ∷ later) t m size =
    let (t', sent) = put_block t m size in
    let wait = put_wait later (ethernet_probe_for_packet a t') m size in
    if not (sent == 0) then some (t', a ∷ later) else wait

-- The second loop of recv_file that waits, behind the first one.
then_empty : Option (Tftp × List Arrival) → Bool → Memory → Option (Tftp × List Arrival)
then_empty none is_full m = none
then_empty (some (t, later)) is_full m = if is_full then put_wait later t m 0 else some (t, later)

-- The block of a bytes, and behind a full last block an empty one.
pub flush : List Arrival → Tftp → Memory → ℕ → ℕ → Option (Tftp × List Arrival)
unfolding then_empty
flush arrivals t m a eoi = then_empty (put_wait arrivals t m a) (a == 256 && not (eoi == 0)) m

-- output = &iobuf[a]
abbrev pub write_byte : Option ℕ → ℕ → Memory → Memory
write_byte none a m = m
write_byte (some x) a m = write a x m

-- The end of a round that has flushed: `next` makes the rounds that follow.
pub after_flush :
    Option (Tftp × List Arrival)
    → Drive
    → ℕ
    → (List Arrival → Drive → ℕ → Option (Drive × ℕ))
    → Option (Drive × ℕ)
after_flush none d eoi next = none
after_flush (some (t, left)) d eoi next =
    if not (eoi == 0) then some (record d { tftp = t }, 1) else next left (record d { tftp = t }) 0

-- The do loop, from the round that reads the byte at index a.
pub recv_loop : List BusByte → List Arrival → Drive → ℕ → Option (Drive × ℕ)
unfolding after_flush
recv_loop [] arrivals d a = none
recv_loop (b ∷ bs) [] d a = if b.atn then some (d, 0) else none
recv_loop (b ∷ bs) (p ∷ later) d a =
    let t = ethernet_probe_for_packet p d.tftp in
    let d' = record d { tftp = t; iobuf = write_byte b.written a d.iobuf } in
    let flushed = after_flush (flush later t d'.iobuf (a + 1) b.eoi) d' b.eoi (recv_loop bs) in
    let onward = recv_loop bs later d' (a + 1) in
    if b.atn
    then some (d, 0)
    else if not (t.request_in_progress == tftp_put) || not (t.error == 0)
    then some (d', 0)
    else if a + 1 == 256 || not (b.eoi == 0)
    then flushed
    else onward

pub recv_file : List BusByte → List Arrival → Drive → Option (Drive × ℕ)
recv_file bytes arrivals d =
    recv_loop bytes arrivals
      (record d { tftp = (put_file d.tftp (c_string 53 d.tftp_filename 0)).0 }) 0
