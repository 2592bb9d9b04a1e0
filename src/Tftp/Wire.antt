-- ===== src/Tftp/Wire.antt =====
-- What tftp_build_request and tftp_build_ack put on the wire (tftp.cpp).
use c64iec.Base.{
  ℕ, ◌+◌, ◌≤◌, ◌≡◌, refl, ap, ◌∙◌, List, [], ◌∷◌, ◌++◌, arith, length, length-append, append_assoc,
  Memory, write, copy, store, slice_ext, slice-append, slice-copy, slice, slice-store, store-append,
  u8, high,
}
use c64iec.Tftp.{Tftp, Datagram, srcport, octet_text, blksize_text, size_text, build_request}

-- The options that follow the file name.
abbrev pub request_tail : List ℕ
request_tail = 0 ∷ (octet_text ++ (blksize_text ++ size_text))

-- A request of RFC 1350 with the option of RFC 2348.
abbrev pub request_bytes : ℕ → List ℕ → List ℕ
request_bytes mode filename = high mode ∷ u8 mode ∷ (filename ++ request_tail)

abbrev pub ack_bytes : ℕ → List ℕ
ack_bytes n = 0 ∷ 4 ∷ high n ∷ u8 n ∷ []

abbrev pub data_bytes : ℕ → List ℕ → List ℕ
data_bytes n bytes = 0 ∷ 3 ∷ high n ∷ u8 n ∷ bytes

abbrev pub datagram : List ℕ → ℕ → Datagram
datagram bytes port = record { payload = bytes; sport = srcport; dport = port }

-- A store at the end of another prolongs it.
store_next :
    (a : ℕ) (xs ys : List ℕ) (m : Memory) (b : ℕ)
    → b ≡ a + length xs
    → store b ys (store a xs m) ≡ store a (xs ++ ys) m
store_next a xs ys m b e = rw e (store-append a xs ys m)

-- The nested stores of the request are one store of its bytes.
request_store :
    (mode : ℕ) (f : List ℕ) (m : Memory)
    → store (2 + length f + 1 + 6 + 8) size_text (
        store (2 + length f + 1 + 6) blksize_text (
          store (2 + length f + 1) octet_text (
            store (2 + length f) (0 ∷ []) (store 2 f (write 1 (u8 mode) (write 0 (high mode) m))))))
      ≡ store 0 (request_bytes mode f) m
request_store mode f m =
    let x = write 1 (u8 mode) (write 0 (high mode) m) in
    rw (store_next 2 f (0 ∷ []) x (2 + length f) refl) (
      rw (store_next 2 (f ++ 0 ∷ []) octet_text x (2 + length f + 1) (omega (arith, size (0 ∷ []))))
        (rw (append_assoc f (0 ∷ []) octet_text) (
          rw
            (store_next 2 (f ++ 0 ∷ octet_text) blksize_text x (2 + length f + 1 + 6)
              (omega (arith, size (0 ∷ octet_text))))
            (rw (append_assoc f (0 ∷ octet_text) blksize_text) (
              rw
                (store_next 2 (f ++ 0 ∷ (octet_text ++ blksize_text)) size_text x
                  (2 + length f + 1 + 6 + 8)
                  (omega (arith, size (0 ∷ (octet_text ++ blksize_text)))))
                (rw (append_assoc f (0 ∷ (octet_text ++ blksize_text)) size_text)
                  (unfold store in refl)))))))
  where
    size : (ys : List ℕ) → length (f ++ ys) ≡ length f + length ys
    size ys = length-append f ys

-- An accepted request is one store of its bytes at the start of tftpdata.
pub build_request_lem :
    (t : Tftp) (filename : List ℕ) (mode : ℕ)
    → length filename ≤ 20
    → build_request t filename mode ≡ (
      record t { tftpdata = store 0 (request_bytes mode filename) t.tftpdata },
      length filename + 21,
    )
unfolding build_request
build_request_lem t filename mode h = ground (arith, request_store mode filename t.tftpdata)

pub length-request_bytes : (mode : ℕ) (f : List ℕ) → length (request_bytes mode f) ≡ length f + 21
length-request_bytes mode f = omega (arith, length-append f request_tail)

-- The payload of a request of that size is its bytes.
pub slice-request :
    (mode : ℕ) (f : List ℕ) (m : Memory)
    → slice (store 0 (request_bytes mode f) m) 0 (length f + 21) ≡ request_bytes mode f
slice-request mode f m = rw (← length-request_bytes mode f) (slice-store 0 (request_bytes mode f) m)

pub slice-ack :
    (n : ℕ) (m : Memory)
    → slice (write 3 (u8 n) (write 2 (high n) (write 1 4 (write 0 0 m)))) 0 4 ≡ ack_bytes n
unfolding slice
slice-ack n m = refl

-- A header written over the first four bytes leaves what stands behind them.
slice-header :
    (h0 h1 h2 h3 : ℕ) (m : Memory) (n : ℕ)
    → slice (write 3 h3 (write 2 h2 (write 1 h1 (write 0 h0 m)))) 0 (n + 4)
      ≡ h0 ∷ h1 ∷ h2 ∷ h3 ∷ slice m 4 n
slice-header h0 h1 h2 h3 m n =
    let k = write 3 h3 (write 2 h2 (write 1 h1 (write 0 h0 m))) in
    let e : n + 4 ≡ 4 + n = omega arith in
    rw e (
      slice-append k 0 4 n
      ∙ unfold slice in
        ap (λ xs. h0 ∷ h1 ∷ h2 ∷ h3 ∷ xs) (slice_ext k m 4 4 n λ i lt. ground arith))

-- The four bytes of a header before `n` bytes of data.
pub slice-data :
    (b : ℕ) (from m : Memory) (n : ℕ)
    → slice
        (write 3 (u8 b) (write 2 (high b) (write 1 3 (write 0 0 (copy 4 from 0 n m)))))
        0
        (n + 4)
      ≡ data_bytes b (slice from 0 n)
slice-data b from m n =
    slice-header 0 3 (high b) (u8 b) (copy 4 from 0 n m) n
    ∙ ap (data_bytes b) (slice-copy 4 from 0 n m)
