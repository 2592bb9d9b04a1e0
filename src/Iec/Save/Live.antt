-- ===== src/Iec/Save/Live.antt =====
-- recv_file on the pins of the bus (c64iec.ino), and the bytes that it reads there.
use c64iec.Base.{
  ℕ, zero, suc, ◌+◌, ◌≡◌, refl, Bool, true, false, not, ◌||◌, Option, none, some, List, [], ◌∷◌,
  ◌==◌, if◌then◌else◌, c_string, Bool-cases, inl, inr,
}
use c64iec.Tftp.{Tftp, put_file}
use c64iec.Iec.Bus.{Pin, Bus}
use c64iec.Iec.Drive.{Arrival, Drive, tftp_put, ethernet_probe_for_packet}
use c64iec.Iec.Save.{BusByte, flush, write_byte, after_flush, recv_loop, recv_file}
use c64iec.Iec.Machine.{next_byte}

abbrev pub Result : Type 0
Result = Option (Drive × Bus × ℕ)

-- The end of a round that has flushed, with the bus as it is then.
after_flush_on :
    Option (Tftp × List Arrival) → Drive → ℕ → Bus → (List Arrival → Drive → ℕ → Result) → Result
after_flush_on none d eoi bus next = none
after_flush_on (some (t, left)) d eoi bus next =
    if not (eoi == 0)
    then some (record d { tftp = t }, bus, 1)
    else next left (record d { tftp = t }) 0

abbrev pub forget : Result → Option (Drive × ℕ)
forget none = none
forget (some (d, bus, r)) = some (d, r)

after_flush_on-forget :
    (o : Option (Tftp × List Arrival)) (d : Drive) (eoi : ℕ) (bus : Bus)
    (next : List Arrival → Drive → ℕ → Result)
    (next' : List Arrival → Drive → ℕ → Option (Drive × ℕ))
    → ((left : List Arrival) (k : Drive) (i : ℕ) → forget (next left k i) ≡ next' left k i)
    → forget (after_flush_on o d eoi bus next) ≡ after_flush o d eoi next'
unfolding after_flush_on after_flush
after_flush_on-forget none d eoi bus next next' same = refl
after_flush_on-forget (some (t, left)) d eoi bus next next' same = elim (Bool-cases (eoi == 0)) [
  | inl more ↦ rw more (same left (record d { tftp = t }) 0)
  | inr over ↦ rw over refl
]

-- The four ways out of a round.
forget-branches :
    (c1 c2 c3 : Bool) (x1 x2 x3 x4 : Result) (y1 y2 y3 y4 : Option (Drive × ℕ))
    → forget x1 ≡ y1
    → forget x2 ≡ y2
    → forget x3 ≡ y3
    → forget x4 ≡ y4
    → forget (if c1 then x1 else if c2 then x2 else if c3 then x3 else x4)
      ≡ (if c1 then y1 else if c2 then y2 else if c3 then y3 else y4)
forget-branches true c2 c3 x1 x2 x3 x4 y1 y2 y3 y4 e1 e2 e3 e4 = e1
forget-branches false true c3 x1 x2 x3 x4 y1 y2 y3 y4 e1 e2 e3 e4 = e2
forget-branches false false true x1 x2 x3 x4 y1 y2 y3 y4 e1 e2 e3 e4 = e3
forget-branches false false false x1 x2 x3 x4 y1 y2 y3 y4 e1 e2 e3 e4 = e4

module _ (level : Pin → ℕ → Bool) where
  -- The do loop with at most n rounds, from the one that reads the byte at index a; none if it goes on
  -- behind them. The probes touch no pin, and get_byte no packet.
  pub recv_on : ℕ → List Arrival → Bus → Drive → ℕ → Result
  unfolding after_flush_on
  recv_on zero arrivals bus d a = none
  recv_on (suc n) [] bus d a =
      let (b, bus') = next_byte level bus in if b.atn then some (d, bus', 0) else none
  recv_on (suc n) (p ∷ later) bus d a =
      let (b, bus') = next_byte level bus in
      let t = ethernet_probe_for_packet p d.tftp in
      let d' = record d { tftp = t; iobuf = write_byte b.written a d.iobuf } in
      let flushed =
        after_flush_on (flush later t d'.iobuf (a + 1) b.eoi) d' b.eoi bus'
          (λ left k i. recv_on n left bus' k i) in
      let onward = recv_on n later bus' d' (a + 1) in
      if b.atn
      then some (d, bus', 0)
      else if not (t.request_in_progress == tftp_put) || not (t.error == 0)
      then some (d', bus', 0)
      else if a + 1 == 256 || not (b.eoi == 0)
      then flushed
      else onward

  pub recv_file_on : ℕ → List Arrival → Bus → Drive → Result
  unfolding recv_on
  recv_file_on n arrivals bus d =
      recv_on n arrivals bus
        (record d { tftp = (put_file d.tftp (c_string 53 d.tftp_filename 0)).0 }) 0

  -- The first n bytes of the bus.
  unfoldable pub bytes_of : ℕ → Bus → List BusByte
  bytes_of zero bus = []
  bytes_of (suc n) bus = let (b, bus') = next_byte level bus in b ∷ bytes_of n bus'

  recv_on-recv_loop :
      (n : ℕ) (arrivals : List Arrival) (bus : Bus) (d : Drive) (a : ℕ)
      → forget (recv_on n arrivals bus d a) ≡ recv_loop (bytes_of n bus) arrivals d a
  unfolding recv_on recv_loop bytes_of
  recv_on-recv_loop zero arrivals bus d a = refl
  recv_on-recv_loop (suc n) [] bus d a = elim (Bool-cases (next_byte level bus).0.atn) [
    | inl active ↦ rw active refl
    | inr quiet ↦ rw quiet refl
  ]
  recv_on-recv_loop (suc n) (p ∷ later) bus d a =
      let (b, bus') = next_byte level bus in
      let t = ethernet_probe_for_packet p d.tftp in
      let d' = record d { tftp = t; iobuf = write_byte b.written a d.iobuf } in
      forget-branches b.atn (not (t.request_in_progress == tftp_put) || not (t.error == 0))
        (a + 1 == 256 || not (b.eoi == 0)) (some (d, bus', 0)) (some (d', bus', 0))
        (after_flush_on (flush later t d'.iobuf (a + 1) b.eoi) d' b.eoi bus'
          (λ left k i. recv_on n left bus' k i))
        (recv_on n later bus' d' (a + 1)) (some (d, 0)) (some (d', 0))
        (after_flush (flush later t d'.iobuf (a + 1) b.eoi) d' b.eoi (recv_loop (bytes_of n bus')))
        (recv_loop (bytes_of n bus') later d' (a + 1)) refl refl
        (after_flush_on-forget (flush later t d'.iobuf (a + 1) b.eoi) d' b.eoi bus'
          (λ left k i. recv_on n left bus' k i) (recv_loop (bytes_of n bus'))
          (λ left k i. recv_on-recv_loop n left bus' k i))
        (recv_on-recv_loop n later bus' d' (a + 1))

  -- Of every behaviour of the pins and of every packets: recv_file with get_byte and atn_active on the
  -- pins, for at most n rounds, ends with the drive and the result of recv_file on the n bytes that
  -- the pins give, or goes on when that one does.
  pub recv_file_on-recv_file :
      (n : ℕ) (arrivals : List Arrival) (bus : Bus) (d : Drive)
      → forget (recv_file_on n arrivals bus d) ≡ recv_file (bytes_of n bus) arrivals d
  unfolding recv_file_on recv_file
  recv_file_on-recv_file n arrivals bus d =
      recv_on-recv_loop n arrivals bus
        (record d { tftp = (put_file d.tftp (c_string 53 d.tftp_filename 0)).0 }) 0
