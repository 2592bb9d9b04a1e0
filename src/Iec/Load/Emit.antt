-- ===== src/Iec/Load/Emit.antt =====
-- The calls of put_byte that a round of send_file makes (c64iec.ino).
use c64iec.Base.{
  ℕ, sym, slice-append, append_assoc, false, not, zero, suc, ◌+◌, ◌-◌, ◌≤◌, ◌<◌, ◌≡◌, refl, ap, ◌∙◌,
  List, [], ◌∷◌, ◌++◌, arith, Memory, slice, if◌then◌else◌, ◌==◌,
}
use native.Mathlib.Nat.{zero-add}
use mathlib.Core.List.{reverse, reverse-append, append-nil}
use c64iec.Iec.Drive.{Call, Drive, put_and_count}
use c64iec.Iec.Load.{Vars, put_range, emit, rounds}

-- Calls added to a log that has the newest in front.
pub logged : List Call → List Call → List Call
logged [] log = log
logged (c ∷ cs) log = logged cs (c ∷ log)

-- The calls for bytes that others follow.
pub open_calls : List ℕ → List Call
open_calls [] = []
open_calls (x ∷ xs) = record { value = x; eoi = 0 } ∷ open_calls xs

-- The calls for a whole file: the last byte alone comes with the end-or-identify signal.
unfoldable pub eoi_calls : List ℕ → List Call
eoi_calls [] = []
eoi_calls (x ∷ []) = record { value = x; eoi = 1 } ∷ []
eoi_calls (x ∷ y ∷ ys) = record { value = x; eoi = 0 } ∷ eoi_calls (y ∷ ys)

pub logged-append : (cs ds log : List Call) → logged (cs ++ ds) log ≡ logged ds (logged cs log)
unfolding logged
logged-append [] ds log = refl
logged-append (c ∷ cs) ds log = logged-append cs ds (c ∷ log)

pub eoi_calls-append :
    (xs : List ℕ) (y : ℕ) (ys : List ℕ)
    → eoi_calls (xs ++ (y ∷ ys)) ≡ open_calls xs ++ eoi_calls (y ∷ ys)
unfolding eoi_calls open_calls
eoi_calls-append [] y ys = refl
eoi_calls-append (x ∷ []) y ys = refl
eoi_calls-append (x ∷ z ∷ zs) y ys =
    ap (λ cs. record { value = x; eoi = 0 } ∷ cs) (eoi_calls-append (z ∷ zs) y ys)

-- The loop puts the bytes of the buffer and keeps all but the log and the counter.
pub put_range_lem :
    (n i : ℕ) (d : Drive)
    → ((put_range n i d).puts ≡ logged (open_calls (slice d.iobuf i n)) d.puts)
      × ((put_range n i d).iobuf ≡ d.iobuf)
      × ((put_range n i d).tftp ≡ d.tftp)
unfolding put_range logged open_calls slice
put_range_lem zero i d = (refl, refl, refl)
put_range_lem (suc n) i d = put_range_lem n (i + 1) (put_and_count (d.iobuf i) 0 d)

-- A round in the middle of a file puts all but the last of the bytes that wait in the buffer.
pub emit-open :
    (v : Vars) (n : ℕ) (d : Drive)
    → 0 < n
    → n ≤ 256
    → ((emit v n 0 d).puts ≡ logged (open_calls (slice d.iobuf 0 (n - 1 + v.iobuf_offset))) d.puts)
      × ((emit v n 0 d).iobuf ≡ d.iobuf)
      × ((emit v n 0 d).tftp ≡ d.tftp)
unfolding emit
emit-open v n d pos small =
    let e : rounds n v.iobuf_offset ≡ n - 1 + v.iobuf_offset = ground arith in
    let f : (n == 0) ≡ false = ground arith in
    rw (f, e) (put_range_lem (n - 1 + v.iobuf_offset) 0 d)

-- The calls for j + 1 bytes are the open ones for j of them and the one for the last.
logged-last :
    (m : Memory) (j k : ℕ) (log : List Call)
    → k ≡ j + 1
    → logged (eoi_calls (slice m 0 k)) log
      ≡ record { value = m j; eoi = 1 } ∷ logged (open_calls (slice m 0 j)) log
unfolding slice eoi_calls logged open_calls
logged-last m j k log e =
    rw (e, slice-append m 0 j 1)
      (ap (λ cs. logged cs log) (eoi_calls-append (slice m 0 j) (m (0 + j)) [])
        ∙ (logged-append (open_calls (slice m 0 j)) (eoi_calls (m (0 + j) ∷ [])) log
            ∙ unfold eoi_calls logged in
              ap (λ i. record { value = m i; eoi = 1 } ∷ logged (open_calls (slice m 0 j)) log)
                (zero-add j)))

-- The last round puts what waits in the buffer, the last byte with the signal.
pub emit-last :
    (v : Vars) (n : ℕ) (d : Drive)
    → v.iobuf_offset ≤ 1
    → v.at_start ≡ 1 - v.iobuf_offset
    → 0 < v.iobuf_offset + n
    → n ≤ 256
    → ((emit v n 1 d).puts ≡ logged (eoi_calls (slice d.iobuf 0 (v.iobuf_offset + n))) d.puts)
      × ((emit v n 1 d).tftp ≡ d.tftp)
emit-last v zero d off start some_bytes small = (
  unfold emit in
      sym (logged-last d.iobuf 0 (v.iobuf_offset + 0) d.puts (omega arith) ∙ none_before),
  unfold emit in refl,
)
  where
    none_before :
        record { value = d.iobuf 0; eoi = 1 } ∷ logged (open_calls (slice d.iobuf 0 0)) d.puts
        ≡ record { value = d.iobuf 0; eoi = 1 } ∷ d.puts
    none_before = unfold logged open_calls slice in refl
emit-last v (suc k) d off start some_bytes small =
    let e : rounds (suc k) v.iobuf_offset ≡ k + v.iobuf_offset = ground arith in
    let f : (suc k == 0) ≡ false = ground arith in
    let g : (if not (v.at_start == 0) then suc k - 1 else suc k) ≡ k + v.iobuf_offset =
      ground arith in
    let (puts, buf, same) = put_range_lem (k + v.iobuf_offset) 0 d in
    (
      unfold emit in
          rw (f, e, g, puts, buf)
            (sym (
              logged-last d.iobuf (k + v.iobuf_offset) (v.iobuf_offset + suc k) d.puts
                (omega arith))),
      unfold emit in rw (f, e) same,
    )

-- Open calls, and then the calls for what is left, are the calls for the whole.
pub logged-open_calls :
    (xs : List ℕ) (y : ℕ) (rest : List ℕ) (log : List Call)
    → logged (eoi_calls (y ∷ rest)) (logged (open_calls xs) log)
      ≡ logged (eoi_calls ((xs ++ (y ∷ [])) ++ rest)) log
logged-open_calls xs y rest log =
    sym (logged-append (open_calls xs) (eoi_calls (y ∷ rest)) log)
    ∙ ap (λ cs. logged cs log)
        (sym (eoi_calls-append xs y rest) ∙ ap eoi_calls (sym (append_assoc xs (y ∷ []) rest)))

-- The log in the order of the calls.
pub reverse-logged : (cs log : List Call) → reverse (logged cs log) ≡ reverse log ++ cs
unfolding logged
reverse-logged [] log = sym (append-nil (reverse log))
reverse-logged (c ∷ cs) log =
    reverse-logged cs (c ∷ log)
    ∙ (ap (λ xs. xs ++ cs) (reverse-append (c ∷ []) log) ∙ append_assoc (reverse log) (c ∷ []) cs)
