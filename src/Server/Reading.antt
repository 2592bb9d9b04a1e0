-- ===== src/Server/Reading.antt =====
-- How the server sends a file (tools/tftp.rb).
use c64iec.Base.{
  ℕ, ◌+◌, ◌≤◌, ◌<◌, ◌≡◌, ◌⊎◌, inl, inr, refl, ap, ◌∙◌, Bool, true, false, List, [], ◌∷◌, arith,
  length, take, length-take, ◌==◌, Bool-cases,
}
use c64iec.Tftp.Wire.{data_bytes}
use c64iec.Server.{drop, Status, Handle, Session, send_data, sent_block, read_block}
use c64iec.Server.Blocks.{take_all, length-drop}

-- The session has the bytes `left` to send.
pub record Has (s : Session) (left : List ℕ) : Type 0 where
  pub open_file : s.file ≡ Handle.reading left
  pub unfinished : s.last_packet ≡ false
  pub emptied : (s.send_empty ≡ false) ⊎ (left ≡ [])

-- The session has sent a message and waits.
pub record Sent (log : List (List ℕ)) (msg : List ℕ) (last : Bool) (left : List ℕ) (s' : Session)
    : Type 0 where
  pub on_top : s'.sent ≡ msg ∷ log
  pub waits : s'.status ≡ Status.wait_for_ack
  pub final : s'.last_packet ≡ last
  pub handle_left : s'.file ≡ Handle.reading left
  pub empty_next : (s'.send_empty ≡ false) ⊎ (left ≡ [])

nothing_left : (xs : List ℕ) → (length xs == 0) ≡ true → xs ≡ []
nothing_left [] h = refl
nothing_left (x ∷ xs) h = absurd (ground arith)

sent_block-short :
    (left : List ℕ) (s : Session)
    → length left < 256
    → Sent s.sent (data_bytes (s.blocknum + 1) left) true [] (sent_block left s)
sent_block-short left s short =
    let all : take 256 left ≡ left = take_all 256 left (omega arith) in
    let none_left : drop 256 left ≡ [] =
      nothing_left (drop 256 left) (ground (arith, length-drop 256 left)) in
    let part : (length left == 256) ≡ false = ground arith in
    rw (all, none_left, part)
      (record {
        on_top = refl;
        waits = refl;
        final = refl;
        handle_left = refl;
        empty_next = inr refl;
      })

emptied_next : (xs : List ℕ) → ((length xs == 0) ≡ false) ⊎ (xs ≡ [])
emptied_next [] = inr refl
emptied_next (x ∷ xs) = inl (ground arith)

sent_block-whole :
    (left : List ℕ) (s : Session)
    → 256 ≤ length left
    → Sent s.sent
        (data_bytes (s.blocknum + 1) (take 256 left))
        false
        (drop 256 left)
        (sent_block left s)
sent_block-whole left s long =
    let whole : (length (take 256 left) == 256) ≡ true = ground (arith, length-take 256 left) in
    rw whole (record {
      on_top = refl;
      waits = refl;
      final = refl;
      handle_left = refl;
      empty_next = emptied_next (drop 256 left);
    })

-- send_data at block b of a session that has bytes to send.
abbrev pub at_block : ℕ → Session → Session
at_block b s = record s { blocknum = b; status = Status.ready }

send_data-false : (s : Session) → send_data false s ≡ read_block s.file s
unfolding send_data
send_data-false s = refl

send_data-reads :
    (s : Session) (b : ℕ) (left : List ℕ)
    → s.file ≡ Handle.reading left
    → s.send_empty ≡ false
    → send_data s.send_empty (at_block b s) ≡ sent_block left (at_block b s)
send_data-reads s b left open_file more =
    ap (λ e. send_data e (at_block b s)) more
    ∙ (send_data-false (at_block b s) ∙ ap (λ f. read_block f (at_block b s)) open_file)

send_data-empty :
    (s : Session) (b : ℕ) (left : List ℕ)
    → s.file ≡ Handle.reading left
    → left ≡ []
    → s.send_empty ≡ true
    → Sent s.sent (data_bytes (b + 1) left) true [] (send_data s.send_empty (at_block b s))
unfolding send_data
send_data-empty s b left open_file none_left e =
    rw (e, none_left)
      (record {
        on_top = refl;
        waits = refl;
        final = refl;
        handle_left = open_file ∙ ap Handle.reading none_left;
        empty_next = inr refl;
      })

pub send_data-short :
    (s : Session) (b : ℕ) (left : List ℕ)
    → Has s left
    → length left < 256
    → Sent s.sent (data_bytes (b + 1) left) true [] (send_data s.send_empty (at_block b s))
send_data-short s b left has short = elim (Bool-cases s.send_empty) [
  | inl e ↦ send_data-empty s b left has.open_file (ground (arith, has.emptied)) e
  | inr e ↦
      rw (send_data-reads s b left has.open_file e) (sent_block-short left (at_block b s) short)
]

pub send_data-whole :
    (s : Session) (b : ℕ) (left : List ℕ)
    → Has s left
    → 256 ≤ length left
    → Sent s.sent
        (data_bytes (b + 1) (take 256 left))
        false
        (drop 256 left)
        (send_data s.send_empty (at_block b s))
send_data-whole s b left has long =
    let more : s.send_empty ≡ false = ground (arith, has.emptied) in
    rw (send_data-reads s b left has.open_file more) (sent_block-whole left (at_block b s) long)
