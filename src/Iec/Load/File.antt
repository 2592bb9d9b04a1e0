-- ===== src/Iec/Load/File.antt =====
-- send_file as a whole (c64iec.ino): a LOAD that succeeds, and what it does when there is no file.
use c64iec.Base.{
  pushed, ℕ, ◌≤◌, ◌<◌, ◌≡◌, ◌≢◌, ◌⊎◌, refl, sym, ap, ◌∙◌, true, false, some, List, ◌∷◌, arith,
  length, slice, c_string, ◌==◌,
}
use c64iec.Tftp.Wire.{datagram, request_bytes}
use c64iec.Tftp.{tftp_port, tftp_data, tftp_error, get_file}
use c64iec.Tftp.Request.{get_file-idle, get_file-refused, cleared_for_get}
use c64iec.Tftp.Download.{Carries, noted, received, fetched, fetched_lem}
use c64iec.Tftp.Guards.{recv_packet-error}
use c64iec.Iec.Drive.{Arrival, Drive, ethernet_probe_for_packet}
use c64iec.Iec.Load.{Vars, emit, send_loop, send_file}
use c64iec.Iec.Load.Emit.{logged, eoi_calls}
use c64iec.Iec.Load.Serve.{Expects, send_loop-round, send_loop-error, got_block, probe_fine}
use c64iec.Iec.Load.Options.{Delivers, all_answers, Fresh, send_loop-Delivers}

-- The state in which the loop starts.
abbrev begun : Drive → Drive
begun d = record d { sent_to_c64 = 0; tftp = (get_file d.tftp (c_string 53 d.tftp_filename 0)).0 }

abbrev first_vars : Vars
first_vars = record { at_start = 1; iobuf_offset = 0 }

begun-Fresh :
    (d : Drive)
    → d.tftp.request_in_progress ≡ 0
    → length (c_string 53 d.tftp_filename 0) ≤ 20
    → Fresh (begun d).tftp
begun-Fresh d idle short =
    rw (get_file-idle d.tftp (c_string 53 d.tftp_filename 0) idle short)
      (record { expects = ground arith; no_data = refl; none_before = refl })

begun-Expects :
    (d : Drive)
    → d.tftp.request_in_progress ≡ 0
    → length (c_string 53 d.tftp_filename 0) ≤ 20
    → Expects (begun d).tftp 1
begun-Expects d idle short = (begun-Fresh d idle short).expects

begun-sent :
    (d : Drive)
    → d.tftp.request_in_progress ≡ 0
    → length (c_string 53 d.tftp_filename 0) ≤ 20
    → (begun d).tftp.sent
      ≡ datagram (request_bytes 1 (c_string 53 d.tftp_filename 0)) tftp_port ∷ d.tftp.sent
begun-sent d idle short =
    ap (λ r. r.0.sent) (get_file-idle d.tftp (c_string 53 d.tftp_filename 0) idle short)

send_file-begun :
    (arrivals : List Arrival) (d : Drive)
    → Expects (begun d).tftp 1
    → send_file arrivals d ≡ send_loop arrivals (begun d) first_vars
unfolding send_file
send_file-begun arrivals d w =
    let e : ((begun d).tftp.request_in_progress == 1) ≡ true = ground (arith, w.active) in rw e

-- A LOAD succeeds. When no request is in progress, the name has at most 20 characters and the
-- arrivals bring a file of at least one byte block by block, with or without an answer to the
-- options of the request, and with empty probes and repetitions in between, then send_file ends
-- with result 1 and no request in progress, and its calls of put_byte are those for exactly the
-- bytes of the file in their order, the last one alone with eoi. It has sent the read request for
-- the name and behind it the acknowledgement of the options, if they came, and one of each block in
-- its order, each to the port that its packet came from, and nothing else.
pub send_file-Serves :
    (arrivals : List Arrival) (d : Drive) (file : List ℕ)
    → d.tftp.request_in_progress ≡ 0
    → length (c_string 53 d.tftp_filename 0) ≤ 20
    → 0 < length file
    → (s : Delivers file arrivals)
    → (d' : Drive) × (send_file arrivals d ≡ some (d', 1))
      × (d'.puts ≡ logged (eoi_calls file) d.puts)
      × (d'.tftp.request_in_progress ≡ 0)
      × (d'.tftp.sent
          ≡ pushed
              (all_answers s)
              (datagram (request_bytes 1 (c_string 53 d.tftp_filename 0)) tftp_port ∷ d.tftp.sent))
send_file-Serves arrivals d file idle short some_bytes s =
    let w = begun-Expects d idle short in
    let (d', run, puts, ended, sent) =
      send_loop-Delivers s (begun d) first_vars (begun-Fresh d idle short) (omega arith) refl
        (omega arith) in
    (
      d',
      send_file-begun arrivals d w ∙ run,
      unfold slice in puts,
      ended,
      sent ∙ ap (pushed (all_answers s)) (begun-sent d idle short),
    )

-- An empty file is passed on as one byte: when the server answers the request with an empty block 1,
-- send_file puts the byte that was left at the start of iobuf, with eoi, and ends with result 1.
pub send_file-empty :
    (a : Arrival) (later : List Arrival) (d : Drive)
    → d.tftp.request_in_progress ≡ 0
    → length (c_string 53 d.tftp_filename 0) ≤ 20
    → Carries a.ether a.plen tftp_data 1 0
    → (d' : Drive) × (send_file (a ∷ later) d ≡ some (d', 1))
      × (d'.puts ≡ record { value = d.iobuf 0; eoi = 1 } ∷ d.puts)
send_file-empty a later d idle short c =
    let w = begun-Expects d idle short in
    let t = fetched (received (begun d).tftp a.ether 1 0) in
    let stop : (t.request_in_progress == 1) ≡ false =
      ground (arith, fetched_lem (received (begun d).tftp a.ether 1 0)) in
    (
      emit first_vars 0 1 (record (begun d) { tftp = t }),
      send_file-begun (a ∷ later) d w
          ∙ (send_loop-round a later (begun d) first_vars t d.iobuf 0
                (probe_fine a (begun d) 1 0 c w (omega arith))
                (got_block a (begun d) 0 1 0 c w (omega arith))
              ∙ rw stop refl),
      unfold emit in refl,
    )

-- A LOAD that cannot be asked for looks like one that succeeds: when another request is in progress
-- that is no read, or the name has more than 20 characters and none is in progress, send_file
-- returns 1 without a packet, a call of put_byte or a word to the server.
pub send_file-refused :
    (arrivals : List Arrival) (d : Drive)
    → ((d.tftp.request_in_progress ≢ 0) × (d.tftp.request_in_progress ≢ 1))
      ⊎ ((d.tftp.request_in_progress ≡ 0) × (20 < length (c_string 53 d.tftp_filename 0)))
    → send_file arrivals d ≡ some (record d { sent_to_c64 = 0; tftp = cleared_for_get d.tftp }, 1)
unfolding send_file
send_file-refused arrivals d h =
    ground (arith, (get_file-refused d.tftp (c_string 53 d.tftp_filename 0) (ground arith)).0)

-- When the server answers with an ERROR packet, send_file returns 0 and puts nothing.
pub send_file-error :
    (a : Arrival) (later : List Arrival) (d : Drive) (code n : ℕ)
    → d.tftp.request_in_progress ≡ 0
    → length (c_string 53 d.tftp_filename 0) ≤ 20
    → Carries a.ether a.plen tftp_error code n
    → code ≢ 65535
    → (d' : Drive) × (send_file (a ∷ later) d ≡ some (d', 0))
      × (d'.puts ≡ d.puts)
      × (d'.tftp.request_in_progress ≡ 0)
send_file-error a later d code n idle short c new =
    let w = begun-Expects d idle short in
    let t = record (noted (begun d).tftp a.ether) { error = 1; request_in_progress = 0 } in
    let old : (begun d).tftp.lastblk ≡ 65535 = (begun-Fresh d idle short).none_before in
    let came : ethernet_probe_for_packet a (begun d).tftp ≡ t =
      unfold ethernet_probe_for_packet in
      ap (λ r. r.0)
        (recv_packet-error (begun d).tftp a.ether a.plen code n c (λ e. new (sym e ∙ old))) in
    (
      record (begun d) { tftp = t },
      send_file-begun (a ∷ later) d w
          ∙ send_loop-error a later (begun d) first_vars t came (omega arith),
      refl,
      refl,
    )
