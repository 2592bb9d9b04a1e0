-- ===== src/Iec/Load/Valid.antt =====
-- send_file leaves the TFTP client safe (c64iec.ino).
use c64iec.Base.{
  ℕ, zero, suc, ◌+◌, ◌-◌, ◌≡◌, refl, sym, subst, not, List, [], ◌∷◌, All, Memory, c_string, ◌==◌,
  if◌then◌else◌,
}
use c64iec.Tftp.{get_file, get_block}
use c64iec.Tftp.Safe.{Safe}
use c64iec.Iec.Drive.{Arrival, Drive, tftp_get, pc64_size, ethernet_probe_for_packet, put_and_count}
use c64iec.Iec.Load.{Vars, put_range, rounds, emit, carry, send_loop, send_file}
use c64iec.Iec.Valid.{if-Keeps, Ends, Fitting, probe-Safe, get_file-Safe, get_block-Safe}

put_range-tftp : (n i : ℕ) (d : Drive) → (put_range n i d).tftp ≡ d.tftp
unfolding put_range
put_range-tftp zero i d = refl
put_range-tftp (suc n) i d = put_range-tftp n (i + 1) (put_and_count (d.iobuf i) 0 d)

emit-tftp : (v : Vars) (n e : ℕ) (d : Drive) → (emit v n e d).tftp ≡ d.tftp
unfolding emit
emit-tftp v n e d =
    let d' = put_range (rounds n v.iobuf_offset) 0 d in
    let kept = put_range-tftp (rounds n v.iobuf_offset) 0 d in
    if-Keeps (λ k. k.tftp ≡ d.tftp) (not (n == 0))
      (if not (e == 0)
        then put_and_count (d'.iobuf (if not (v.at_start == 0) then n - 1 else n)) e d'
        else d')
      (if not (e == 0) then put_and_count (d.iobuf 0) 1 d else d)
      (if-Keeps (λ k. k.tftp ≡ d.tftp) (not (e == 0))
        (put_and_count (d'.iobuf (if not (v.at_start == 0) then n - 1 else n)) e d') d' kept kept)
      (if-Keeps (λ k. k.tftp ≡ d.tftp) (not (e == 0)) (put_and_count (d.iobuf 0) 1 d) d refl refl)

module _ (start : Memory) where
  emit-Safe : (v : Vars) (n e : ℕ) (d : Drive) → Safe start d.tftp → Safe start (emit v n e d).tftp
  emit-Safe v n e d i = subst (Safe start) (sym (emit-tftp v n e d)) i

  send_loop-Ends :
      (arrivals : List Arrival) (d : Drive) (v : Vars)
      → All Fitting arrivals
      → Safe start d.tftp
      → Ends start (send_loop arrivals d v)
  unfolding send_loop
  send_loop-Ends [] d v fits i = tt
  send_loop-Ends (a ∷ later) d v fits i =
      let t = ethernet_probe_for_packet a d.tftp in
      let probed = probe-Safe start a d.tftp fits.0 i in
      let skip = if not (v.at_start == 0) then pc64_size else 0 in
      let (t', buf, n) = get_block t d.iobuf v.iobuf_offset skip in
      let fetched = get_block-Safe start t d.iobuf v.iobuf_offset skip probed in
      let d' = record d { tftp = t'; iobuf = buf } in
      let next = if n == 0 then d' else carry v (emit v n 0 d') in
      let kept : Safe start next.tftp =
        if-Keeps (λ k. Safe start k.tftp) (n == 0) d' (carry v (emit v n 0 d')) fetched
          (emit-Safe v n 0 d' fetched) in
      let vars : Vars = if n == 0 then v else record { at_start = 0; iobuf_offset = 1 } in
      if-Keeps (Ends start) (not (t.error == 0)) _ _ probed (
        if-Keeps (Ends start) (not (t'.request_in_progress == tftp_get)) _ _
          (emit-Safe v n 1 d' fetched) (send_loop-Ends later next vars fits.1 kept))

  pub send_file-Ends :
      (arrivals : List Arrival) (d : Drive)
      → All Fitting arrivals
      → Safe start d.tftp
      → Ends start (send_file arrivals d)
  unfolding send_file
  send_file-Ends arrivals d fits i =
      let name = c_string 53 d.tftp_filename 0 in
      let d' = record d { sent_to_c64 = 0; tftp = (get_file d.tftp name).0 } in
      let opened = get_file-Safe start d.tftp name i in
      if-Keeps (Ends start) (d'.tftp.request_in_progress == tftp_get) _ _
        (send_loop-Ends arrivals d' (record { at_start = 1; iobuf_offset = 0 }) fits opened) opened
