-- ===== src/Tftp/Invariant.antt =====
-- What holds of the client's globals but tftpdata in every state that its operations reach (tftp.cpp).
use c64iec.Base.{
  ℕ, ◌+◌, ◌≤◌, ◌<◌, ◌≡◌, ◌≢◌, ◌⊎◌, inl, inr, refl, ap, Bool-cases, List, ◌∷◌, All, arith, length,
  length-slice, Memory, slice, IsWord, u16, ◌==◌, ltb,
}
use c64iec.Tftp.{
  packet_srvport, Ether, Datagram, Tftp, initial, tftp_port, get_file, get_block, put_file,
  put_block, recv_packet,
}
use c64iec.Tftp.Wire.{datagram, ack_bytes, data_bytes, request_bytes}
use c64iec.Tftp.Request.{get_file-idle, put_file-idle, get_file-refused}
use c64iec.Tftp.Download.{send_ack_lem}
use c64iec.Tftp.Upload.{put_block-branches}
use c64iec.Tftp.Guards.{recv_packet-sent}

-- A message of the protocol: a request for a name of at most 20 characters, an acknowledgement, or a
-- block of at most 256 bytes, each to a port.
pub data IsMessage : Datagram → Type 0 where
  request :
      (mode : ℕ) (f : List ℕ)
      → (mode ≡ 1) ⊎ (mode ≡ 2)
      → length f ≤ 20
      → IsMessage (datagram (request_bytes mode f) tftp_port)
  acknowledgement : (n port : ℕ) → IsWord port → IsMessage (datagram (ack_bytes n) port)
  block :
      (n port : ℕ) (bytes : List ℕ)
      → length bytes ≤ 256
      → IsWord port
      → IsMessage (datagram (data_bytes n bytes) port)

-- The operations of the client, with whatever packets and arguments come.
pub data Step (t u : Tftp) : Type 0 where
  by_get_file : (f : List ℕ) → u ≡ (get_file t f).0 → Step t u
  by_get_block : (to : Memory) (at offset : ℕ) → u ≡ (get_block t to at offset).0 → Step t u
  by_put_file : (f : List ℕ) → u ≡ (put_file t f).0 → Step t u
  by_put_block : (from : Memory) (n : ℕ) → n ≤ 256 → u ≡ (put_block t from n).0 → Step t u
  by_recv_packet : (e : Ether) (plen : ℕ) → u ≡ (recv_packet t e plen).0 → Step t u

pub data Reach (t : Tftp) : Tftp → Type 0 where
  here : Reach t t
  next : {u v : Tftp} → Reach t u → Step u v → Reach t v

pub record IsValid (t : Tftp) : Type 0 where
  pub mode : t.request_in_progress ≤ 2
  pub error_flag : t.error ≤ 1
  pub stopped : (t.error ≡ 0) ⊎ (t.request_in_progress ≡ 0)
  pub ready_flag : t.clear_to_send ≤ 1
  pub end_flag : t.end_of_data ≤ 1
  pub blknum_word : IsWord t.blknum
  pub lastblk_word : IsWord t.lastblk
  pub lastgot_word : IsWord t.lastgot
  pub filesize_word : IsWord t.filesize
  pub srvport_word : IsWord t.srvport
  pub available_word : IsWord t.data_available

pub record Inv (t : Tftp) : Type 0 where
  pub valid : IsValid t
  pub messages : All IsMessage t.sent

initial-Inv : (m : Memory) → Inv (initial m)
initial-Inv m = record { valid = omega arith; messages = tt }

get_file-IsValid : (t : Tftp) (f : List ℕ) → IsValid t → IsValid (get_file t f).0
unfolding get_file
get_file-IsValid t f v = ground arith

put_file-IsValid : (t : Tftp) (f : List ℕ) → IsValid t → IsValid (put_file t f).0
unfolding put_file
put_file-IsValid t f v = ground arith

get_block-IsValid :
    (t : Tftp) (to : Memory) (at offset : ℕ) → IsValid t → IsValid (get_block t to at offset).0
unfolding get_block
get_block-IsValid t to at offset v = ground arith

put_block-IsValid : (t : Tftp) (from : Memory) (n : ℕ) → IsValid t → IsValid (put_block t from n).0
unfolding put_block
put_block-IsValid t from n v = ground arith

recv_packet-IsValid :
    (t : Tftp) (e : Ether) (plen : ℕ) → IsValid t → IsValid (recv_packet t e plen).0
unfolding recv_packet
recv_packet-IsValid t e plen v = ground arith

-- A request that is opened, or nothing.
open_messages :
    (t u : Tftp) (f : List ℕ) (mode : ℕ)
    → (mode ≡ 1) ⊎ (mode ≡ 2)
    → (t.request_in_progress ≡ 0
        → length f ≤ 20
        → u.sent ≡ datagram (request_bytes mode f) tftp_port ∷ t.sent)
    → ((t.request_in_progress ≢ 0) ⊎ (20 < length f) → u.sent ≡ t.sent)
    → All IsMessage t.sent
    → All IsMessage u.sent
open_messages t u f mode which idle refused a = elim (Bool-cases (t.request_in_progress == 0)) [
  | inr busy ↦ rw (refused (inl (ground arith))) a
  | inl free ↦ elim (Bool-cases (ltb 20 (length f))) [
    | inl long ↦ rw (refused (inr (ground arith))) a
    | inr short ↦
        let le : length f ≤ 20 = ground arith in
        rw (idle (ground arith) le) (IsMessage.request mode f which le, a)
  ]
]

get_file-messages :
    (t : Tftp) (f : List ℕ) → All IsMessage t.sent → All IsMessage (get_file t f).0.sent
get_file-messages t f a =
    open_messages t (get_file t f).0 f 1 (inl refl)
      (λ idle short. ap (λ r. r.0.sent) (get_file-idle t f idle short))
      (λ h. ap (λ r. r.0.sent) (get_file-refused t f h).0) a

put_file-messages :
    (t : Tftp) (f : List ℕ) → All IsMessage t.sent → All IsMessage (put_file t f).0.sent
put_file-messages t f a =
    open_messages t (put_file t f).0 f 2 (inr refl)
      (λ idle short. ap (λ r. r.0.sent) (put_file-idle t f idle short))
      (λ h. ap (λ r. r.0.sent) (get_file-refused t f h).1) a

get_block-sent :
    (t : Tftp) (to : Memory) (at offset : ℕ)
    → ((get_block t to at offset).0.sent ≡ t.sent)
      ⊎ ((get_block t to at offset).0.sent ≡ datagram (ack_bytes t.blknum) t.srvport ∷ t.sent)
unfolding get_block
get_block-sent t to at offset =
    ground (arith, send_ack_lem (record t { lastgot = t.blknum }) t.srvport t.blknum)

put_block-messages :
    (t : Tftp) (from : Memory) (n : ℕ)
    → n ≤ 256
    → IsWord t.srvport
    → All IsMessage t.sent
    → All IsMessage (put_block t from n).0.sent
put_block-messages t from n small w a =
    let b = u16 (t.blknum + 1) in
    rw (put_block-branches t from n small).0 (elim (Bool-cases (t.clear_to_send == 0)) [
      | inl held ↦ rw held a
      | inr goes ↦
          rw goes (
            IsMessage.block b t.srvport (slice from 0 n) (omega (arith, length-slice from 0 n)) w,
            a,
          )
    ])

recv_packet-messages :
    (t : Tftp) (e : Ether) (plen : ℕ)
    → All IsMessage t.sent
    → All IsMessage (recv_packet t e plen).0.sent
recv_packet-messages t e plen a = elim (recv_packet-sent t e plen) [
  | inl same ↦ rw same a
  | inr (_, _, ack) ↦
      rw ack (IsMessage.acknowledgement 0 (packet_srvport e.buffer) (omega arith), a)
]

get_block-messages :
    (t : Tftp) (to : Memory) (at offset : ℕ)
    → IsWord t.srvport
    → All IsMessage t.sent
    → All IsMessage (get_block t to at offset).0.sent
get_block-messages t to at offset w a = elim (get_block-sent t to at offset) [
  | inl same ↦ rw same a
  | inr ack ↦ rw ack (IsMessage.acknowledgement t.blknum t.srvport w, a)
]

-- Every operation keeps the invariant.
pub Step-Inv : {t u : Tftp} → Step t u → Inv t → Inv u
Step-Inv {t} (by_get_file f e) i =
    rw e
      (record { valid = get_file-IsValid t f i.valid; messages = get_file-messages t f i.messages })
Step-Inv {t} (by_get_block to at offset e) i = rw e (record {
  valid = get_block-IsValid t to at offset i.valid;
  messages = get_block-messages t to at offset i.valid.srvport_word i.messages;
})
Step-Inv {t} (by_put_file f e) i =
    rw e
      (record { valid = put_file-IsValid t f i.valid; messages = put_file-messages t f i.messages })
Step-Inv {t} (by_put_block from n small e) i = rw e (record {
  valid = put_block-IsValid t from n i.valid;
  messages = put_block-messages t from n small i.valid.srvport_word i.messages;
})
Step-Inv {t} (by_recv_packet e plen q) i = rw q (record {
  valid = recv_packet-IsValid t e plen i.valid;
  messages = recv_packet-messages t e plen i.messages;
})

-- With tftpdata as a memory of its own, every reachable state has the invariant; Tftp/Safe says when
-- the program's tftpdata is one.
pub Reach-Inv : {m : Memory} {t : Tftp} → Reach (initial m) t → Inv t
Reach-Inv {m} here = initial-Inv m
Reach-Inv (next r s) = Step-Inv s (Reach-Inv r)
