-- ===== src/Server/Request.antt =====
-- The read request of the drive at the server (tools/tftp.rb).
use c64iec.Base.{
  ℕ, suc, ◌+◌, ◌%◌, ◌≤◌, ◌<◌, ◌≡◌, refl, ap, false, some, List, [], ◌∷◌, ◌++◌, arith, length,
  length-append, take, All, IsByte, ◌==◌,
}
use c64iec.Tftp.{octet_text, blksize_text, size_text}
use c64iec.Tftp.Wire.{request_bytes, request_tail}
use c64iec.Iec.FileName.Encoding.{kept, encode}
use c64iec.Iec.FileName.Result.{tftp_name, encode-pos}
use c64iec.Server.{
  drop, up_to_zero, cstring, tftp_options, Session, Devices, build_packet, option_text,
  file_not_found,
}
use c64iec.Iec.FileName.{hexarray}
use c64iec.Server.Packet.{packet_rrq, packet_wrq, answer_read, answer_write}
use c64iec.Server.Names.{plain_name, find_device-tftp_name, decode-name}

up_to_zero-append : (f ys : List ℕ) → All (λ x. 0 < x) f → up_to_zero (f ++ (0 ∷ ys)) ≡ f
up_to_zero-append [] ys pos = refl
up_to_zero-append (x ∷ xs) ys pos = ground (arith, up_to_zero-append xs ys pos.1)

pub cstring-append :
    (x : ℕ) (xs ys : List ℕ)
    → All (λ x. 0 < x) (x ∷ xs)
    → cstring (x ∷ (xs ++ (0 ∷ ys))) ≡ some (x ∷ xs)
cstring-append x xs ys pos =
    let e : (x == 0) ≡ false = ground arith in
    rw e (ap (λ zs. some (x ∷ zs)) (up_to_zero-append xs ys pos.1))

pub drop-append : (f ys : List ℕ) (n : ℕ) → n ≡ length f + 1 → drop n (f ++ (0 ∷ ys)) ≡ ys
drop-append [] ys n e = rw e refl
drop-append (x ∷ xs) ys n e =
    let size : n ≡ suc (length xs + 1) = omega arith in
    rw size (drop-append xs ys (length xs + 1) refl)

-- The options of the drive.
abbrev pub block_size : List (List ℕ × List ℕ)
block_size = (b'b' ∷ b'l' ∷ b'k' ∷ b's' ∷ b'i' ∷ b'z' ∷ b'e' ∷ [], b'2' ∷ b'5' ∷ b'6' ∷ []) ∷ []

tftp_options-request :
    (fuel : ℕ)
    → tftp_options (suc (suc (suc fuel))) (octet_text ++ (blksize_text ++ size_text)) []
      ≡ some block_size
unfolding tftp_options
tftp_options-request fuel = refl

pub asked_options :
    (mode : ℕ) (f : List ℕ)
    → tftp_options
        (length (request_bytes mode f))
        (drop (2 + length f + 1) (request_bytes mode f))
        []
      ≡ some block_size
asked_options mode f =
    let size : 2 + length f + 1 ≡ suc (suc (length f + 1)) = omega arith in
    let fuel : length (f ++ request_tail) ≡ suc (length f + 18) =
      omega (arith, length-append f request_tail) in
    rw (size, fuel, drop-append f (octet_text ++ (blksize_text ++ size_text)) (length f + 1) refl)
      (tftp_options-request (length f + 18))

-- The OACK for these.
abbrev pub oack : List ℕ
oack = build_packet 6 0 (option_text block_size)

abbrev pub not_found : List ℕ
not_found = build_packet 5 1 file_not_found

-- The session behind the request for a name.
abbrev pub asked : ℕ → List ℕ → Session → Session
asked device rest s = record s { device_num = device; filename = rest; options = block_size }

hex-pos : (n : ℕ) → 0 < hexarray n
hex-pos n = ground arith

tftp_name-pos : (name : List ℕ) (device : ℕ) → All (λ x. 0 < x) (tftp_name name device)
tftp_name-pos name device = (hex-pos (device % 16), (omega arith, encode-pos (kept (take 16 name))))

module _ (name : List ℕ) (device : ℕ) (bytes : All IsByte name) (h : 8 ≤ device % 16) where
  abbrev rest_of : List ℕ
  rest_of = encode (kept (take 16 name))

  abbrev read_request : List ℕ
  read_request = request_bytes 1 (tftp_name name device)

  named_request :
      (mode : ℕ)
      → cstring (drop 2 (request_bytes mode (tftp_name name device))) ≡ some (tftp_name name device)
  named_request mode =
      cstring-append (hexarray (device % 16)) (b'/' ∷ rest_of)
        (octet_text ++ (blksize_text ++ size_text)) (tftp_name-pos name device)

  pub packet_rrq-answer :
      (devices : Devices) (s : Session)
      → packet_rrq devices read_request s
        ≡ answer_read
            (devices.file_of (device % 16) (plain_name name))
            (asked (device % 16) rest_of s)
  unfolding packet_rrq
  packet_rrq-answer devices s =
      rw
        (
          named_request 1,
          asked_options 1 (tftp_name name device),
          find_device-tftp_name name device h,
        )
        (ap (λ n. answer_read (devices.file_of (device % 16) n) (asked (device % 16) rest_of s))
          (decode-name name bytes))

  abbrev write_request : List ℕ
  write_request = request_bytes 2 (tftp_name name device)

  pub packet_wrq-answer :
      (devices : Devices) (s : Session)
      → packet_wrq devices write_request s
        ≡ answer_write
            (devices.can_create (device % 16) (plain_name name))
            (asked (device % 16) rest_of s)
  unfolding packet_wrq
  packet_wrq-answer devices s =
      rw
        (
          named_request 2,
          asked_options 2 (tftp_name name device),
          find_device-tftp_name name device h,
        )
        (ap (λ n. answer_write (devices.can_create (device % 16) n) (asked (device % 16) rest_of s))
          (decode-name name bytes))
