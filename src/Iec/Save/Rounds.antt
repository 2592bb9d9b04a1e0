-- ===== src/Iec/Save/Rounds.antt =====
-- A round of recv_file, and what a SAVE is to send (c64iec.ino).
use native.Mathlib.Nat.{zero-add}
use c64iec.Base.{
  ℕ, ◌+◌, ◌≤◌, ◌<◌, ◌≡◌, ◌≢◌, ◌⊎◌, inl, refl, subst, ap, ap₂, ◌∙◌, true, false, not, ◌&&◌, ◌||◌,
  some, List, [], ◌∷◌, ◌++◌, arith, length, length-append, length-slice, Memory, write, slice,
  slice_ext, slice-append, ◌==◌, if◌then◌else◌, u16,
}
use c64iec.Tftp.{Tftp, Datagram}
use c64iec.Tftp.Wire.{datagram, data_bytes}
use c64iec.Tftp.Guards.{recv_packet-foreign}
use c64iec.Iec.Drive.{Arrival, Drive, ethernet_probe_for_packet}
use c64iec.Iec.Save.{BusByte, flush, put_wait, recv_loop}
use c64iec.Iec.Save.Wait.{Acked, put_wait-Acked}

-- The datagrams that carry `bytes` behind block k, on top of a log that has the newest in front: DATA
-- blocks of 256 bytes, numbered from k + 1 on, and one shorter block at the end, which may be empty.
pub data Blocks (port : ℕ) : ℕ → List ℕ → List Datagram → List Datagram → Type 0 where
  final :
      (k : ℕ) (bytes : List ℕ) (log out : List Datagram)
      → length bytes < 256
      → out ≡ datagram (data_bytes (u16 (k + 1)) bytes) port ∷ log
      → Blocks port k bytes log out
  whole :
      (k : ℕ) (bytes block rest : List ℕ) (log out : List Datagram)
      → length block ≡ 256
      → bytes ≡ block ++ rest
      → Blocks port (k + 1) rest (datagram (data_bytes (u16 (k + 1)) block) port ∷ log) out
      → Blocks port k bytes log out

-- A round that reads byte x with flag `eoi`, at a probe that finds no packet.
pub record Reads (b : BusByte) (p : Arrival) (x : ℕ) : Type 0 where
  pub quiet : b.atn ≡ false
  pub byte : b.written ≡ some x
  pub no_packet : p.plen ≡ 0

-- The bus brings the bytes `xs`, the first of them for index a of the buffer, with eoi at the last,
-- and the server acknowledges block k and each block that follows while the drive waits for it.
pub data Serviced (port : ℕ) : ℕ → ℕ → ℕ → List BusByte → List ℕ → List Arrival → Type 0 where
  more :
      {seen k a next x : ℕ} {b : BusByte} {bs : List BusByte} {xs : List ℕ} {p : Arrival}
      {later : List Arrival}
      → Reads b p x
      → b.eoi ≡ 0
      → a + 1 < 256
      → next ≡ a + 1
      → Serviced port seen k next bs xs later
      → Serviced port seen k a (b ∷ bs) (x ∷ xs) (p ∷ later)
  full :
      {seen k a next x number start : ℕ} {b : BusByte} {bs : List BusByte} {xs : List ℕ}
      {p : Arrival} {later left : List Arrival}
      → Reads b p x
      → b.eoi ≡ 0
      → a + 1 ≡ 256
      → Acked seen k port number left later
      → next ≡ k + 1
      → start ≡ 0
      → Serviced port number next start bs xs left
      → Serviced port seen k a (b ∷ bs) (x ∷ xs) (p ∷ later)
  last :
      {seen k a x number : ℕ} {b : BusByte} {bs : List BusByte} {xs : List ℕ} {p : Arrival}
      {later left : List Arrival}
      → Reads b p x
      → b.eoi ≡ 1
      → a + 1 < 256
      → xs ≡ []
      → Acked seen k port number left later
      → Serviced port seen k a (b ∷ bs) (x ∷ xs) (p ∷ later)
  last_full :
      {seen k a x number number' : ℕ} {b : BusByte} {bs : List BusByte} {xs : List ℕ} {p : Arrival}
      {later middle left : List Arrival}
      → Reads b p x
      → b.eoi ≡ 1
      → a + 1 ≡ 256
      → xs ≡ []
      → Acked seen k port number middle later
      → Acked number (k + 1) port number' left middle
      → Serviced port seen k a (b ∷ bs) (x ∷ xs) (p ∷ later)

-- The client is in a write request and waits for an acknowledgement.
pub record Writing (t : Tftp) (seen : ℕ) : Type 0 where
  pub active : t.request_in_progress ≡ 2
  pub fine : t.error ≡ 0
  pub held : t.clear_to_send ≡ 0
  pub newest : t.lastblk ≡ seen

pub slice-write_end :
    (m : Memory) (a x : ℕ) → slice (write a x m) 0 (a + 1) ≡ slice m 0 a ++ (x ∷ [])
slice-write_end m a x =
    slice-append (write a x m) 0 a 1
    ∙ ap₂ ◌++◌ (slice_ext (write a x m) m 0 0 a λ i lt. ground arith)
        (ap (λ i. slice (write a x m) i 1) (zero-add a) ∙ unfold slice in ground arith)

pub quiet_probe : (p : Arrival) (t : Tftp) → p.plen ≡ 0 → ethernet_probe_for_packet p t ≡ t
unfolding ethernet_probe_for_packet
quiet_probe p t none_came = recv_packet-foreign t p.ether p.plen (inl none_came)

-- A round that does not fill the buffer.
pub recv_loop-more :
    (b : BusByte) (bs : List BusByte) (p : Arrival) (later : List Arrival) (d : Drive)
    (a x seen : ℕ)
    → Reads b p x
    → Writing d.tftp seen
    → b.eoi ≡ 0
    → a + 1 < 256
    → recv_loop (b ∷ bs) (p ∷ later) d a
      ≡ recv_loop bs later (record d { iobuf = write a x d.iobuf }) (a + 1)
unfolding recv_loop
recv_loop-more b bs p later d a x seen r w e room =
    let same = quiet_probe p d.tftp r.no_packet in
    let active : (d.tftp.request_in_progress == 2) ≡ true = ground (arith, w.active) in
    let fine : (d.tftp.error == 0) ≡ true = ground (arith, w.fine) in
    let small : (a + 1 == 256) ≡ false = ground arith in
    rw (same, r.quiet, r.byte, e, active, fine, small) refl

-- A round that sends the block.
pub recv_loop-flush :
    (b : BusByte) (bs : List BusByte) (p : Arrival) (later left : List Arrival) (d : Drive)
    (a x seen : ℕ) (t' : Tftp)
    → Reads b p x
    → Writing d.tftp seen
    → (a + 1 ≡ 256) ⊎ (b.eoi ≡ 1)
    → flush later d.tftp (write a x d.iobuf) (a + 1) b.eoi ≡ some (t', left)
    → recv_loop (b ∷ bs) (p ∷ later) d a ≡ (
        if not (b.eoi == 0)
        then some (record d { tftp = t'; iobuf = write a x d.iobuf }, 1)
        else recv_loop bs left (record d { tftp = t'; iobuf = write a x d.iobuf }) 0)
unfolding recv_loop
recv_loop-flush b bs p later left d a x seen t' r w h sent =
    let same = quiet_probe p d.tftp r.no_packet in
    let active : (d.tftp.request_in_progress == 2) ≡ true = ground (arith, w.active) in
    let fine : (d.tftp.error == 0) ≡ true = ground (arith, w.fine) in
    let go : (a + 1 == 256 || not (b.eoi == 0)) ≡ true = ground arith in
    rw (same, r.quiet, r.byte, active, fine, go, sent) refl

-- What a flush at the end of a block does.
pub flush-part :
    (arrivals left : List Arrival) (t t' : Tftp) (m : Memory) (a eoi : ℕ)
    → put_wait arrivals t m a ≡ some (t', left)
    → (a ≢ 256) ⊎ (eoi ≡ 0)
    → flush arrivals t m a eoi ≡ some (t', left)
unfolding flush
flush-part arrivals left t t' m a eoi sent h =
    let e : (a == 256 && not (eoi == 0)) ≡ false = ground arith in rw (sent, e) refl

pub flush-full :
    (arrivals middle : List Arrival) (t t' : Tftp) (m : Memory) (a eoi : ℕ)
    → put_wait arrivals t m a ≡ some (t', middle)
    → a ≡ 256
    → eoi ≡ 1
    → flush arrivals t m a eoi ≡ put_wait middle t' m 0
unfolding flush
flush-full arrivals middle t t' m a eoi sent is_full is_last =
    let e : (a == 256 && not (eoi == 0)) ≡ true = ground arith in rw (sent, e) refl

pub slice-zero : (m : Memory) → slice m 0 0 ≡ []
unfolding slice
slice-zero m = refl

pub Blocks-cast :
    {port k k' : ℕ} {bs bs' : List ℕ} {log log' out : List Datagram}
    → k ≡ k'
    → bs ≡ bs'
    → log ≡ log'
    → Blocks port k bs log out
    → Blocks port k' bs' log' out
Blocks-cast {port} {k} {k'} {bs} {bs'} {log} {log'} {out} e f g h =
    subst (λ q. Blocks port q bs' log' out) e
      (subst (λ q. Blocks port k q log' out) f (subst (λ q. Blocks port k bs q out) g h))

-- The block that ends with byte x goes out when its predecessor is acknowledged.
pub block_sent :
    {later : List Arrival} (left : List Arrival) (d : Drive) (a x seen port k number : ℕ)
    → Writing d.tftp seen
    → a + 1 ≤ 256
    → Acked seen k port number left later
    → (t' : Tftp) × (put_wait later d.tftp (write a x d.iobuf) (a + 1) ≡ some (t', left))
      × (t'.sent
          ≡ datagram (data_bytes (u16 (k + 1)) (slice d.iobuf 0 a ++ (x ∷ []))) port ∷ d.tftp.sent)
      × (t'.request_in_progress ≡ (if a + 1 == 256 then 2 else 0))
      × (t'.clear_to_send ≡ 0)
      × (t'.lastblk ≡ number)
      × (t'.error ≡ 0)
block_sent left d a x seen port k number w small acks =
    let (t', run, sent, active, clear, newest, fine) =
      put_wait-Acked left d.tftp (write a x d.iobuf) (a + 1) k port number (rw w.newest acks) small
        w.active w.held in
    (
      t',
      run,
      sent
          ∙ ap (λ bs. datagram (data_bytes (u16 (k + 1)) bs) port ∷ d.tftp.sent)
              (slice-write_end d.iobuf a x),
      active,
      clear,
      newest,
      fine ∙ w.fine,
    )

-- The bytes of the buffer and the byte that was just read.
pub length-block : (m : Memory) (a x : ℕ) → length (slice m 0 a ++ (x ∷ [])) ≡ a + 1
length-block m a x = omega (arith, length-append (slice m 0 a) (x ∷ []), length-slice m 0 a)
