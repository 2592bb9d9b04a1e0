-- ===== src/Iec/Load/Complete.antt =====
-- send_file passes a whole file on (c64iec.ino).
use c64iec.Base.{
  pushed, ℕ, ◌+◌, ◌-◌, ◌*◌, ◌≤◌, ◌<◌, ◌≡◌, inl, refl, sym, ap, ◌∙◌, true, false, List, [], ◌∷◌,
  ◌++◌, append_assoc, arith, length, length-slice, Memory, slice, slice-append, ◌==◌,
}
use c64iec.Tftp.{Datagram, packet_srvport, tftp_data}
use c64iec.Tftp.Download.{Carries, received, fetched, fetched_lem, fetched-sent, delivered}
use c64iec.Tftp.Wire.{datagram, ack_bytes}
use c64iec.Tftp.Guards.{recv_packet-repeated, recv_packet-foreign}
use c64iec.Iec.Drive.{Arrival, Call, Drive, ethernet_probe_for_packet}
use c64iec.Iec.Load.{Vars, emit, carry}
use c64iec.Iec.Load.Emit.{logged, eoi_calls, open_calls, logged-open_calls, emit-open, emit-last}
use c64iec.Iec.Load.Serve.{
  Serves, answers, Expects, Sends, send_loop-round, send_loop-stale, slice-buffer, got_block,
  probe_fine,
}

-- The byte that waits and the rest of the file, behind the calls for a whole block.
carry-puts :
    (v : Vars) (e : Drive) (buf : Memory) (log : List Call) (before blk rest : List ℕ)
    → e.iobuf ≡ buf
    → e.puts ≡ logged (open_calls (slice buf 0 (256 - 1 + v.iobuf_offset))) log
    → slice buf 0 (v.iobuf_offset + 256) ≡ before ++ blk
    → logged (eoi_calls (slice (carry v e).iobuf 0 1 ++ rest)) (carry v e).puts
      ≡ logged (eoi_calls (before ++ (blk ++ rest))) log
carry-puts v e buf log before blk rest same puts whole =
    let j : ℕ = 256 - 1 + v.iobuf_offset in
    rw (waits, puts)
      (logged-open_calls (slice buf 0 j) (buf (0 + j)) rest log
        ∙ ap (λ bs. logged (eoi_calls bs) log)
            (ap (λ bs. bs ++ rest) (sym split ∙ whole) ∙ append_assoc before blk rest))
  where
    split :
        slice buf 0 (v.iobuf_offset + 256)
        ≡ slice buf 0 (256 - 1 + v.iobuf_offset) ++ (buf (0 + (256 - 1 + v.iobuf_offset)) ∷ [])
    split =
        let size : v.iobuf_offset + 256 ≡ 256 - 1 + v.iobuf_offset + 1 = omega arith in
        ap (slice buf 0) size ∙ unfold slice in slice-append buf 0 (256 - 1 + v.iobuf_offset) 1

    waits : slice (carry v e).iobuf 0 1 ≡ buf (0 + (256 - 1 + v.iobuf_offset)) ∷ []
    waits =
        let at : 256 - 0 * v.at_start - 1 + v.iobuf_offset ≡ 0 + (256 - 1 + v.iobuf_offset) =
          omega arith in
        unfold slice in rw (at, same) refl

module _ (a : Arrival) (later : List Arrival) (d : Drive) (v : Vars) (b : ℕ) (w : Expects d.tftp b)
    (off : v.iobuf_offset ≤ 1) (start : v.at_start ≡ 1 - v.iobuf_offset) where
  -- The last block.
  last_block :
      (n : ℕ)
      → Carries a.ether a.plen tftp_data b n
      → n < 256
      → 0 < v.iobuf_offset + n
      → Sends
          (a ∷ later)
          d
          v
          (datagram (ack_bytes b) (packet_srvport a.ether.buffer) ∷ [])
          (slice a.ether.buffer 46 n)
  last_block n c short some_bytes =
      let t = fetched (received d.tftp a.ether b n) in
      let buf = delivered a.ether.buffer d.tftp.tftpdata n d.iobuf v.iobuf_offset in
      let d1 = record d { tftp = t; iobuf = buf } in
      let (puts, same) = emit-last v n d1 off start some_bytes (omega arith) in
      let ended : t.request_in_progress ≡ 0 =
        ground (arith, fetched_lem (received d.tftp a.ether b n)) in
      let stop : (t.request_in_progress == 1) ≡ false = ground arith in
      (
        emit v n 1 d1,
        send_loop-round a later d v t buf n (probe_fine a d b n c w (omega arith))
              (got_block a d v.iobuf_offset b n c w (omega arith))
            ∙ rw stop refl,
        puts
            ∙ ap (λ bs. logged (eoi_calls bs) d.puts)
                (slice-buffer a.ether.buffer d.tftp.tftpdata d.iobuf v.iobuf_offset n),
        ap (λ t'. t'.request_in_progress) same ∙ ended,
        unfold pushed in ap (λ t'. t'.sent) same ∙ fetched-sent (received d.tftp a.ether b n),
      )

  -- The state after a whole block: all but its last byte are put, and that byte waits.
  abbrev after_block : Drive
  after_block = carry v (
      emit v 256 0 (record d {
        tftp = fetched (received d.tftp a.ether b 256);
        iobuf = delivered a.ether.buffer d.tftp.tftpdata 256 d.iobuf v.iobuf_offset;
      }))

  after_block-Expects : Expects after_block.tftp (b + 1)
  after_block-Expects =
      let (puts, buf, same) =
        emit-open v 256
          (record d {
            tftp = fetched (received d.tftp a.ether b 256);
            iobuf = delivered a.ether.buffer d.tftp.tftpdata 256 d.iobuf v.iobuf_offset;
          })
          (omega arith) (omega arith) in
      rw same (ground (arith, fetched_lem (received d.tftp a.ether b 256), w))

  after_block-sent :
      after_block.tftp.sent ≡ datagram (ack_bytes b) (packet_srvport a.ether.buffer) ∷ d.tftp.sent
  after_block-sent =
      let t = fetched (received d.tftp a.ether b 256) in
      let buf = delivered a.ether.buffer d.tftp.tftpdata 256 d.iobuf v.iobuf_offset in
      let (puts, kept, same) =
        emit-open v 256 (record d { tftp = t; iobuf = buf }) (omega arith) (omega arith) in
      ap (λ t'. t'.sent) same ∙ fetched-sent (received d.tftp a.ether b 256)

  after_block-puts :
      (rest : List ℕ)
      → logged (eoi_calls (slice after_block.iobuf 0 1 ++ rest)) after_block.puts
        ≡ logged
            (eoi_calls (slice d.iobuf 0 v.iobuf_offset ++ (slice a.ether.buffer 46 256 ++ rest)))
            d.puts
  after_block-puts rest =
      let buf = delivered a.ether.buffer d.tftp.tftpdata 256 d.iobuf v.iobuf_offset in
      let d1 = record d { tftp = fetched (received d.tftp a.ether b 256); iobuf = buf } in
      let (puts, same_buf, same) = emit-open v 256 d1 (omega arith) (omega arith) in
      carry-puts v (emit v 256 0 d1) buf d.puts (slice d.iobuf 0 v.iobuf_offset)
        (slice a.ether.buffer 46 256) rest same_buf puts
        (slice-buffer a.ether.buffer d.tftp.tftpdata d.iobuf v.iobuf_offset 256)

  -- A whole block that others follow.
  whole_block :
      (sends : List Datagram) (rest : List ℕ)
      → Carries a.ether a.plen tftp_data b 256
      → Sends later after_block (record { at_start = 0; iobuf_offset = 1 }) sends rest
      → Sends
          (a ∷ later)
          d
          v
          (datagram (ack_bytes b) (packet_srvport a.ether.buffer) ∷ sends)
          (slice a.ether.buffer 46 256 ++ rest)
  whole_block sends rest c (d', run, puts, ended, sent) =
      let t = fetched (received d.tftp a.ether b 256) in
      let buf = delivered a.ether.buffer d.tftp.tftpdata 256 d.iobuf v.iobuf_offset in
      let active : t.request_in_progress ≡ 1 =
        ground (arith, fetched_lem (received d.tftp a.ether b 256), w) in
      let go : (t.request_in_progress == 1) ≡ true = ground arith in
      (
        d',
        send_loop-round a later d v t buf 256 (probe_fine a d b 256 c w (omega arith))
              (got_block a d v.iobuf_offset b 256 c w (omega arith))
            ∙ rw go run,
        puts ∙ after_block-puts rest,
        ended,
        unfold pushed in sent ∙ ap (pushed sends) after_block-sent,
      )

pub send_loop-Serves :
    {b : ℕ} {file : List ℕ} {arrivals : List Arrival} (s : Serves b file arrivals) (d : Drive)
    (v : Vars)
    → Expects d.tftp b
    → v.iobuf_offset ≤ 1
    → v.at_start ≡ 1 - v.iobuf_offset
    → 0 < v.iobuf_offset + length file
    → Sends arrivals d v (answers s) file
unfolding answers
send_loop-Serves {b = b} {file = file} (Serves.idle {later = later} a none_came s) d v w off start
      some_bytes =
    send_loop-stale a later d v d.tftp (answers s) (answers s) file
      (unfold ethernet_probe_for_packet in
        recv_packet-foreign d.tftp a.ether a.plen (inl none_came))
      refl w.fine w.active (ground (arith, w.before))
      (send_loop-Serves s d v w off start some_bytes)
send_loop-Serves {b = b} {file = file} (Serves.repeated {later = later} a kind prev n c pos e s) d v
      w off start some_bytes =
    let t = record d.tftp { blknum = prev; srvport = packet_srvport a.ether.buffer } in
    let same : d.tftp.lastblk ≡ prev = ground (arith, w.before) in
    let w' : Expects t b = ground (arith, w) in
    send_loop-stale a later d v t (answers s) (answers s) file
      (unfold ethernet_probe_for_packet in
        ap (λ r. r.0) (recv_packet-repeated d.tftp a.ether a.plen kind prev n c same))
      refl w.fine w.active (ground (arith, w.before))
      (send_loop-Serves s (record d { tftp = t }) v w' off start some_bytes)
send_loop-Serves {b = b} (Serves.block {rest = rest} {later = later} a c e next_b s) d v w off start
      some_bytes =
    let w' = after_block-Expects a later d v b w off start in
    let next_vars : Vars = record { at_start = 0; iobuf_offset = 1 } in
    let d1 = after_block a later d v b w off start in
    rw e (
      whole_block a later d v b w off start (answers s) rest c
        (send_loop-Serves s d1 next_vars (rw next_b w') (omega arith) refl (omega arith)))
send_loop-Serves {b = b} (Serves.last {later = later} a n c short e) d v w off start some_bytes =
    let size : length (slice a.ether.buffer 46 n) ≡ n = length-slice a.ether.buffer 46 n in
    rw e (last_block a later d v b w off start n c short (ground (arith, size, ap length e)))
