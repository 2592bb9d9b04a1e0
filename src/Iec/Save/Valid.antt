-- ===== src/Iec/Save/Valid.antt =====
-- recv_file leaves the TFTP client safe (c64iec.ino).
use c64iec.Base.{
  ℕ, ◌+◌, ◌≤◌, ◌<◌, ◌≡◌, sym, subst, Bool, false, Bool-cases, inl, inr, not, ◌&&◌, ◌||◌, Option,
  none, some, List, [], ◌∷◌, All, arith, Memory, c_string, ◌==◌,
}
use c64iec.Tftp.{Tftp, put_file, put_block}
use c64iec.Tftp.Safe.{Safe}
use c64iec.Iec.Drive.{Arrival, Drive, tftp_put, ethernet_probe_for_packet}
use c64iec.Iec.Bus.{Pin, Bus}
use c64iec.Iec.Save.{
  BusByte, put_wait, then_empty, flush, write_byte, after_flush, recv_loop, recv_file,
}
use c64iec.Iec.Save.Live.{Result, forget, bytes_of, recv_file_on, recv_file_on-recv_file}
use c64iec.Iec.Valid.{if-Keeps, Ends, Fitting, probe-Safe, put_file-Safe, put_block-Safe}

module _ (start : Memory) where
  abbrev Waited : Option (Tftp × List Arrival) → Type 0
  Waited none = Unit
  Waited (some (t, later)) = Safe start t × All Fitting later

  put_wait-Waited :
      (arrivals : List Arrival) (t : Tftp) (m : Memory) (n : ℕ)
      → n ≤ 256
      → All Fitting arrivals
      → Safe start t
      → Waited (put_wait arrivals t m n)
  unfolding put_wait
  put_wait-Waited [] t m n small fits i =
      let (t', sent) = put_block t m n in
      if-Keeps Waited (not (sent == 0)) (some (t', [])) none
        (put_block-Safe start t m n small i, tt) tt
  put_wait-Waited (a ∷ later) t m n small fits i =
      let (t', sent) = put_block t m n in
      let put = put_block-Safe start t m n small i in
      if-Keeps Waited (not (sent == 0)) (some (t', a ∷ later))
        (put_wait later (ethernet_probe_for_packet a t') m n) (put, fits)
        (put_wait-Waited later (ethernet_probe_for_packet a t') m n small fits.1
          (probe-Safe start a t' fits.0 put))

  then_empty-Waited :
      (o : Option (Tftp × List Arrival)) (full : Bool) (m : Memory)
      → Waited o
      → Waited (then_empty o full m)
  unfolding then_empty
  then_empty-Waited none full m i = tt
  then_empty-Waited (some (t, later)) full m i =
      if-Keeps Waited full (put_wait later t m 0) (some (t, later))
        (put_wait-Waited later t m 0 (omega arith) i.1 i.0) i

  flush-Waited :
      (arrivals : List Arrival) (t : Tftp) (m : Memory) (a eoi : ℕ)
      → a ≤ 256
      → All Fitting arrivals
      → Safe start t
      → Waited (flush arrivals t m a eoi)
  unfolding flush
  flush-Waited arrivals t m a eoi small fits i =
      then_empty-Waited (put_wait arrivals t m a) (a == 256 && not (eoi == 0)) m
        (put_wait-Waited arrivals t m a small fits i)

  after_flush-Ends :
      (o : Option (Tftp × List Arrival)) (d : Drive) (eoi : ℕ)
      (next : List Arrival → Drive → ℕ → Option (Drive × ℕ))
      → Waited o
      → ((left : List Arrival) (k : Drive)
          → All Fitting left
          → Safe start k.tftp
          → Ends start (next left k 0))
      → Ends start (after_flush o d eoi next)
  unfolding after_flush
  after_flush-Ends none d eoi next i go_on = tt
  after_flush-Ends (some (t, left)) d eoi next i go_on =
      if-Keeps (Ends start) (not (eoi == 0)) (some (record d { tftp = t }, 1))
        (next left (record d { tftp = t }) 0) i.0 (go_on left (record d { tftp = t }) i.1 i.0)

  recv_loop-Ends :
      (bytes : List BusByte) (arrivals : List Arrival) (d : Drive) (a : ℕ)
      → a < 256
      → All Fitting arrivals
      → Safe start d.tftp
      → Ends start (recv_loop bytes arrivals d a)
  unfolding recv_loop
  recv_loop-Ends [] arrivals d a room fits i = tt
  recv_loop-Ends (b ∷ bs) [] d a room fits i = if-Keeps (Ends start) b.atn (some (d, 0)) none i tt
  recv_loop-Ends (b ∷ bs) (p ∷ later) d a room fits i =
      let t = ethernet_probe_for_packet p d.tftp in
      let probed = probe-Safe start p d.tftp fits.0 i in
      let d' = record d { tftp = t; iobuf = write_byte b.written a d.iobuf } in
      let flushed = flush later t d'.iobuf (a + 1) b.eoi in
      let full = a + 1 == 256 || not (b.eoi == 0) in
      if-Keeps (Ends start) b.atn _ _ i (
        if-Keeps (Ends start) (not (t.request_in_progress == tftp_put) || not (t.error == 0)) _ _
          probed
          (elim (Bool-cases full) [
            | inl now ↦ rw now (
                after_flush-Ends flushed d' b.eoi (recv_loop bs)
                  (flush-Waited later t d'.iobuf (a + 1) b.eoi (omega arith) fits.1 probed)
                  λ left k left_fits kept. recv_loop-Ends bs left k 0 (omega arith) left_fits kept)
            | inr later_on ↦
                rw later_on
                  (recv_loop-Ends bs later d' (a + 1) (more a b.eoi room later_on) fits.1 probed)
          ]))
    where
      more : (a eoi : ℕ) → a < 256 → (a + 1 == 256 || not (eoi == 0)) ≡ false → a + 1 < 256
      more a eoi room h = ground arith

  recv_file-Ends :
      (bytes : List BusByte) (arrivals : List Arrival) (d : Drive)
      → All Fitting arrivals
      → Safe start d.tftp
      → Ends start (recv_file bytes arrivals d)
  unfolding recv_file
  recv_file-Ends bytes arrivals d fits i =
      let name = c_string 53 d.tftp_filename 0 in
      recv_loop-Ends bytes arrivals (record d { tftp = (put_file d.tftp name).0 }) 0 (omega arith)
        fits (put_file-Safe start d.tftp name i)

  -- The same on the pins.
  abbrev pub EndsOn : Result → Type 0
  EndsOn none = Unit
  EndsOn (some (d, bus, r)) = Safe start d.tftp

  forget-EndsOn : (o : Result) → Ends start (forget o) → EndsOn o
  forget-EndsOn none e = tt
  forget-EndsOn (some (d, bus, r)) e = e

  pub recv_file_on-EndsOn :
      (level : Pin → ℕ → Bool) (n : ℕ) (arrivals : List Arrival) (bus : Bus) (d : Drive)
      → All Fitting arrivals
      → Safe start d.tftp
      → EndsOn (recv_file_on level n arrivals bus d)
  recv_file_on-EndsOn level n arrivals bus d fits i =
      forget-EndsOn (recv_file_on level n arrivals bus d) (
        subst (Ends start) (sym (recv_file_on-recv_file level n arrivals bus d))
          (recv_file-Ends (bytes_of level n bus) arrivals d fits i))
