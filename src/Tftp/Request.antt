-- ===== src/Tftp/Request.antt =====
-- Opening a transfer: tftp_get_file and tftp_put_file (tftp.cpp).
use c64iec.Base.{
  ℕ, inl, inr, Bool-cases, ◌+◌, ◌≤◌, ◌<◌, ◌≡◌, ◌≢◌, ◌⊎◌, List, ◌∷◌, arith, length, store,
  store_above, ltb,
}
use c64iec.Tftp.{
  Tftp, tftp_port, tftp_rrq, tftp_wrq, build_request, send_request, get_file, put_file,
}
use c64iec.Tftp.Wire.{
  request_bytes, datagram, build_request_lem, slice-request, length-request_bytes,
}

-- What an accepted request leaves behind.
abbrev pub opened : Tftp → List ℕ → ℕ → Tftp
opened t f mode = record t {
  tftpdata = store 0 (request_bytes mode f) t.tftpdata;
  sent = datagram (request_bytes mode f) tftp_port ∷ t.sent;
  request_in_progress = mode;
  filesize = 0;
}

send_request-idle :
    (t : Tftp) (f : List ℕ) (mode : ℕ)
    → t.request_in_progress ≡ 0
    → length f ≤ 20
    → send_request t f mode ≡ (opened t f mode, length f + 21)
unfolding send_request
send_request-idle t f mode idle short =
    rw (build_request_lem t f mode short) (ground (arith, slice-request mode f t.tftpdata))

send_request-refused :
    (t : Tftp) (f : List ℕ) (mode : ℕ)
    → (t.request_in_progress ≢ 0) ⊎ (20 < length f)
    → send_request t f mode ≡ (t, 0)
unfolding send_request
send_request-refused t f mode h = ground arith

abbrev pub cleared_for_get : Tftp → Tftp
cleared_for_get t = record t {
  data_available = 0;
  end_of_data = 0;
  lastgot = 0;
  error = 0;
  lastblk = 65535;
}

abbrev pub cleared_for_put : Tftp → Tftp
cleared_for_put t = record t { clear_to_send = 0; error = 0; lastblk = 65535 }

-- When no request is in progress and the name has at most 20 characters, tftp_get_file sends one
-- datagram to port 53280, the read request of RFC 1350 for the name, in mode octet and with the
-- block size option 256; the request is then in progress, the flags of the transfer are reset, and
-- the size of the datagram is returned.
pub get_file-idle :
    (t : Tftp) (f : List ℕ)
    → t.request_in_progress ≡ 0
    → length f ≤ 20
    → get_file t f ≡ (opened (cleared_for_get t) f tftp_rrq, length f + 21)
unfolding get_file
get_file-idle t f idle short = send_request-idle (cleared_for_get t) f tftp_rrq idle short

pub put_file-idle :
    (t : Tftp) (f : List ℕ)
    → t.request_in_progress ≡ 0
    → length f ≤ 20
    → put_file t f ≡ (opened (cleared_for_put t) f tftp_wrq, length f + 21)
unfolding put_file
put_file-idle t f idle short = send_request-idle (cleared_for_put t) f tftp_wrq idle short

-- While a request is in progress, or when the name has more than 20 characters, tftp_get_file and
-- tftp_put_file send nothing and return 0; they have reset the flags of the transfer all the same.
pub get_file-refused :
    (t : Tftp) (f : List ℕ)
    → (t.request_in_progress ≢ 0) ⊎ (20 < length f)
    → (get_file t f ≡ (cleared_for_get t, 0)) × (put_file t f ≡ (cleared_for_put t, 0))
unfolding get_file put_file
get_file-refused t f h = (
  send_request-refused (cleared_for_get t) f tftp_rrq h,
  send_request-refused (cleared_for_put t) f tftp_wrq h,
)

-- Building a request of any name and any mode writes at most the first 41 bytes of tftpdata.
pub build_request-within :
    (t : Tftp) (f : List ℕ) (mode i : ℕ)
    → 41 ≤ i
    → (build_request t f mode).0.tftpdata i ≡ t.tftpdata i
unfolding build_request
build_request-within t f mode i h = elim (Bool-cases (ltb 20 (length f))) [
  | inl long ↦ rw (long, build_request)
  | inr short ↦
      rw (build_request_lem t f mode (ground arith))
        (store_above 0 (request_bytes mode f) t.tftpdata i (beyond (ground arith)))
]
  where
    beyond : length f ≤ 20 → 0 + length (request_bytes mode f) ≤ i
    beyond le = omega (arith, length-request_bytes mode f)
