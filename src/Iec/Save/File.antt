-- ===== src/Iec/Save/File.antt =====
-- recv_file passes a whole file on (c64iec.ino).
use c64iec.Base.{
  ℕ, ◌+◌, ◌≤◌, ◌≡◌, inl, inr, refl, sym, subst, ap, ◌∙◌, true, false, some, List, [], ◌∷◌, ◌++◌,
  append_assoc, append-nil, arith, length, write, slice, c_string, ◌==◌, u16,
}
use c64iec.Tftp.{tftp_port, put_file}
use c64iec.Tftp.Wire.{datagram, data_bytes, request_bytes}
use c64iec.Tftp.Request.{put_file-idle}
use c64iec.Iec.Drive.{Arrival, Drive}
use c64iec.Iec.Save.{BusByte, recv_loop, recv_file}
use c64iec.Iec.Save.Wait.{put_wait-Acked}
use c64iec.Iec.Save.Rounds.{
  slice-write_end, recv_loop-more, recv_loop-flush, flush-part, flush-full, slice-zero, Blocks-cast,
  block_sent, length-block, Blocks, Serviced, Writing,
}

pub recv_loop-Serviced :
    {port seen k a : ℕ} {bs : List BusByte} {xs : List ℕ} {arrivals : List Arrival}
    → Serviced port seen k a bs xs arrivals
    → (d : Drive) → Writing d.tftp seen
    → (d' : Drive) × (recv_loop bs arrivals d a ≡ some (d', 1))
      × Blocks port k (slice d.iobuf 0 a ++ xs) d.tftp.sent d'.tftp.sent
      × (d'.tftp.request_in_progress ≡ 0)
recv_loop-Serviced {port = port} {seen = seen} {k = k} {a = a}
      (Serviced.more {x = x} {b = b} {bs = bs} {xs = xs} {p = p} {later = later} r e room at s) d
      w =
    let m = write a x d.iobuf in
    let (d', run, sent, ended) = recv_loop-Serviced s (record d { iobuf = m }) w in
    (
      d',
      recv_loop-more b bs p later d a x seen r w e room
          ∙ (ap (recv_loop bs later (record d { iobuf = m })) (sym at) ∙ run),
      subst (λ bytes. Blocks port k bytes d.tftp.sent d'.tftp.sent)
          (ap (λ i. slice m 0 i ++ xs) at
            ∙ (ap (λ ys. ys ++ xs) (slice-write_end d.iobuf a x)
                ∙ append_assoc (slice d.iobuf 0 a) (x ∷ []) xs))
          sent,
      ended,
    )
recv_loop-Serviced {port = port} {seen = seen} {k = k} {a = a}
      (Serviced.full {x = x} {number = number} {b = b} {bs = bs} {xs = xs} {p = p} {later = later}
        {left = left} r e is_full acks next_k zero_a s)
      d w =
    let (t', run, sent, active, clear, newest, fine) =
      block_sent left d a x seen port k number w (omega arith) acks in
    let go_on : (b.eoi == 0) ≡ true = ground arith in
    let d2 = record d { tftp = t'; iobuf = write a x d.iobuf } in
    let w' : Writing t' number = ground arith in
    let (d', run', sent', ended) = recv_loop-Serviced s d2 w' in
    (
      d',
      recv_loop-flush b bs p later left d a x seen t' r w (inl is_full)
            (flush-part later left d.tftp t' (write a x d.iobuf) (a + 1) b.eoi run (inr e))
          ∙ rw go_on (ap (recv_loop bs left d2) (sym zero_a) ∙ run'),
      Blocks.whole k (slice d.iobuf 0 a ++ (x ∷ xs)) (slice d.iobuf 0 a ++ (x ∷ [])) xs d.tftp.sent
          d'.tftp.sent (length-block d.iobuf a x ∙ is_full)
          (sym (append_assoc (slice d.iobuf 0 a) (x ∷ []) xs))
          (Blocks-cast next_k (ap (λ i. slice d2.iobuf 0 i ++ xs) zero_a ∙ (unfold slice in refl))
            sent sent'),
      ended,
    )
recv_loop-Serviced {port = port} {seen = seen} {k = k} {a = a}
      (Serviced.last {x = x} {number = number} {b = b} {bs = bs} {xs = xs} {p = p} {later = later}
        {left = left} r e room none_left acks)
      d w =
    let (t', run, sent, active, clear, newest, fine) =
      block_sent left d a x seen port k number w (omega arith) acks in
    let stop : (b.eoi == 0) ≡ false = ground arith in
    let part : (a + 1 == 256) ≡ false = ground arith in
    (
      record d { tftp = t'; iobuf = write a x d.iobuf },
      recv_loop-flush b bs p later left d a x seen t' r w (inr e) (
            flush-part later left d.tftp t' (write a x d.iobuf) (a + 1) b.eoi run
              (inl (ground arith)))
          ∙ rw stop refl,
      rw none_left (
          Blocks.final k (slice d.iobuf 0 a ++ (x ∷ [])) d.tftp.sent t'.sent
            (omega (arith, length-block d.iobuf a x)) sent),
      active ∙ rw part refl,
    )
recv_loop-Serviced {port = port} {seen = seen} {k = k} {a = a}
      (Serviced.last_full {x = x} {number = number} {number' = number'} {b = b} {bs = bs} {xs = xs}
        {p = p} {later = later} {middle = middle} {left = left} r e is_full none_left acks acks')
      d w =
    let (t1, run, sent, active, clear, newest, fine) =
      block_sent middle d a x seen port k number w (omega arith) acks in
    let m = write a x d.iobuf in
    let active1 : t1.request_in_progress ≡ 2 = ground arith in
    let (t', run', sent', active', clear', newest', fine') =
      put_wait-Acked left t1 m 0 (k + 1) port number' (rw newest acks') (omega arith) active1
        clear in
    let stop : (b.eoi == 0) ≡ false = ground arith in
    (
      record d { tftp = t'; iobuf = m },
      recv_loop-flush b bs p later left d a x seen t' r w (inr e)
            (flush-full later middle d.tftp t1 m (a + 1) b.eoi run is_full e ∙ run')
          ∙ rw stop refl,
      rw none_left (
          Blocks.whole k (slice d.iobuf 0 a ++ (x ∷ [])) (slice d.iobuf 0 a ++ (x ∷ [])) []
            d.tftp.sent t'.sent (length-block d.iobuf a x ∙ is_full) (sym (append-nil _))
            (Blocks.final (k + 1) [] _ t'.sent (omega arith) (
              (sent'
                ∙ ap (λ bs. datagram (data_bytes (u16 (k + 1 + 1)) bs) port ∷ t1.sent)
                    (slice-zero m))
              ∙ ap (λ l. datagram (data_bytes (u16 (k + 1 + 1)) []) port ∷ l) sent))),
      active' ∙ refl,
    )

-- A SAVE succeeds. When no request is in progress, the name has at most 20 characters, the bus
-- brings the bytes of a file with eoi at the last one, and the server acknowledges the request and
-- each block while the drive waits, behind any number of empty probes, then recv_file ends with
-- result 1 and no request in progress. On top of the write request it has sent exactly the DATA
-- blocks of the file: blocks of 256 bytes, numbered from 1 on, and one shorter block, which is empty
-- when the file's length is a multiple of 256.
pub recv_file-Serviced :
    (bytes : List BusByte) (arrivals : List Arrival) (d : Drive) (file : List ℕ) (port : ℕ)
    → d.tftp.request_in_progress ≡ 0
    → length (c_string 53 d.tftp_filename 0) ≤ 20
    → Serviced port 65535 0 0 bytes file arrivals
    → (d' : Drive) × (recv_file bytes arrivals d ≡ some (d', 1))
      × Blocks port 0 file
          (datagram (request_bytes 2 (c_string 53 d.tftp_filename 0)) tftp_port ∷ d.tftp.sent)
          d'.tftp.sent
      × (d'.tftp.request_in_progress ≡ 0)
unfolding recv_file
recv_file-Serviced bytes arrivals d file port idle short s =
    let f = c_string 53 d.tftp_filename 0 in
    let asked = put_file-idle d.tftp f idle short in
    let w : Writing (put_file d.tftp f).0 65535 = rw asked (ground arith) in
    let (d', run, sent, ended) =
      recv_loop-Serviced s (record d { tftp = (put_file d.tftp f).0 }) w in
    (
      d',
      run,
      Blocks-cast refl (ap (λ bs. bs ++ file) (slice-zero d.iobuf)) (ap (λ r. r.0.sent) asked) sent,
      ended,
    )
