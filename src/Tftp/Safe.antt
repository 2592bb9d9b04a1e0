-- ===== src/Tftp/Safe.antt =====
-- The memory behind the buffer tftpdata[260], where the other globals of tftp.cpp may stand.
use c64iec.Base.{
  ℕ, ◌≤◌, ◌≡◌, refl, ap, ◌∙◌, inl, Bool-cases, List, arith, length, ltb, ◌==◌, Memory, ◌<◌, ◌≢◌,
  ◌⊎◌, inr, store, store_above,
}
use c64iec.Tftp.{
  Ether, Tftp, initial, packet_datasize, send_ack, get_file, get_block, put_file, put_block,
}
use c64iec.Tftp.Wire.{request_bytes, length-request_bytes}
use c64iec.Tftp.Request.{get_file-idle, put_file-idle, get_file-refused}
use c64iec.Tftp.Guards.{recv_packet-within}
use c64iec.Tftp.Invariant.{
  Step, Reach, Inv, Step-Inv, Reach-Inv, by_get_file, by_get_block, by_put_file, by_put_block,
  by_recv_packet, here, next,
}

-- A packet whose data size is not more than the 260 bytes of tftpdata.
abbrev pub Fits : Ether → Type 0
Fits e = packet_datasize e.buffer ≤ 260

abbrev pub FitsIn : {t u : Tftp} → Step t u → Type 0
FitsIn (by_get_file f e) = Unit
FitsIn (by_get_block to at offset e) = Unit
FitsIn (by_put_file f e) = Unit
FitsIn (by_put_block from n small e) = Unit
FitsIn (by_recv_packet e plen q) = Fits e

-- All packets among the steps fit.
abbrev pub AllFit : {t u : Tftp} → Reach t u → Type 0
AllFit here = Unit
AllFit (next r s) = AllFit r × FitsIn s

-- The invariant of the client, and that nothing behind tftpdata has been written since it was `start`.
pub record Safe (start : Memory) (t : Tftp) : Type 0 where
  pub inv : Inv t
  pub within : (i : ℕ) → 260 ≤ i → t.tftpdata i ≡ start i

-- A request that is opened, or nothing.
request-within :
    (t u : Tftp) (f : List ℕ) (mode i : ℕ)
    → (t.request_in_progress ≡ 0
        → length f ≤ 20
        → u.tftpdata ≡ store 0 (request_bytes mode f) t.tftpdata)
    → ((t.request_in_progress ≢ 0) ⊎ (20 < length f) → u.tftpdata ≡ t.tftpdata)
    → 260 ≤ i
    → u.tftpdata i ≡ t.tftpdata i
request-within t u f mode i idle refused far = elim (Bool-cases (t.request_in_progress == 0)) [
  | inr busy ↦ rw (refused (inl (ground arith))) refl
  | inl free ↦ elim (Bool-cases (ltb 20 (length f))) [
    | inl long ↦ rw (refused (inr (ground arith))) refl
    | inr short ↦
        let le : length f ≤ 20 = ground arith in
        rw (idle (ground arith) le) (
          store_above 0 (request_bytes mode f) t.tftpdata i
            (omega (arith, length-request_bytes mode f)))
  ]
]

get_file-within :
    (t : Tftp) (f : List ℕ) (i : ℕ) → 260 ≤ i → (get_file t f).0.tftpdata i ≡ t.tftpdata i
get_file-within t f i far =
    request-within t (get_file t f).0 f 1 i
      (λ idle short. ap (λ r. r.0.tftpdata) (get_file-idle t f idle short))
      (λ h. ap (λ r. r.0.tftpdata) (get_file-refused t f h).0) far

put_file-within :
    (t : Tftp) (f : List ℕ) (i : ℕ) → 260 ≤ i → (put_file t f).0.tftpdata i ≡ t.tftpdata i
put_file-within t f i far =
    request-within t (put_file t f).0 f 2 i
      (λ idle short. ap (λ r. r.0.tftpdata) (put_file-idle t f idle short))
      (λ h. ap (λ r. r.0.tftpdata) (get_file-refused t f h).1) far

get_block-within :
    (t : Tftp) (to : Memory) (at offset i : ℕ)
    → 260 ≤ i
    → (get_block t to at offset).0.tftpdata i ≡ t.tftpdata i
unfolding get_block send_ack
get_block-within t to at offset i far = ground arith

put_block-within :
    (t : Tftp) (from : Memory) (n i : ℕ)
    → n ≤ 256
    → 260 ≤ i
    → (put_block t from n).0.tftpdata i ≡ t.tftpdata i
unfolding put_block
put_block-within t from n i small far = ground arith

Step-within : {t u : Tftp} (s : Step t u) (i : ℕ) → FitsIn s → 260 ≤ i → u.tftpdata i ≡ t.tftpdata i
Step-within {t} (by_get_file f e) i fits far = rw e (get_file-within t f i far)
Step-within {t} (by_get_block to at offset e) i fits far =
    rw e (get_block-within t to at offset i far)
Step-within {t} (by_put_file f e) i fits far = rw e (put_file-within t f i far)
Step-within {t} (by_put_block from n small e) i fits far =
    rw e (put_block-within t from n i small far)
Step-within {t} (by_recv_packet e plen q) i fits far = rw q (recv_packet-within t e plen i fits far)

pub Step-Safe :
    {start : Memory} {t u : Tftp} (s : Step t u) → FitsIn s → Safe start t → Safe start u
Step-Safe s fits h = record {
  inv = Step-Inv s h.inv;
  within = λ i far. Step-within s i fits far ∙ h.within i far;
}

-- In every state that the five operations of the client reach from its initial one, with any file
-- names and buffers, with blocks of at most 256 bytes and with any packets whose data size is at most
-- 260: nothing is written behind the 260 bytes of tftpdata; all that the client has sent are requests
-- for names of at most 20 characters, acknowledgements and DATA blocks of at most 256 bytes; the mode
-- of the request is none, read or write; after an error no request is in progress; the flags are 0 or
-- 1; and the block numbers, the port and the sizes fit in 16 bits.
pub Reach-Safe : {start : Memory} {t : Tftp} (r : Reach (initial start) t) → AllFit r → Safe start t
Reach-Safe {start} here fits = record { inv = Reach-Inv Reach.here; within = λ i far. refl }
Reach-Safe (next r s) fits = Step-Safe s fits.1 (Reach-Safe r fits.0)
