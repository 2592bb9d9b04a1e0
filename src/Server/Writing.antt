-- ===== src/Server/Writing.antt =====
-- How the server takes a file (tools/tftp.rb).
use c64iec.Base.{
  ℕ, zero, suc, ◌+◌, ◌*◌, ◌≤◌, ◌<◌, ◌≡◌, refl, sym, subst, ap, ◌∙◌, true, false, none, some, List,
  [], ◌∷◌, ◌++◌, IsWord, word-high, arith, length, take, length-take, append_assoc, pushed, ltb,
  if◌then◌else◌,
}
use c64iec.Tftp.Wire.{ack_bytes, data_bytes}
use c64iec.Server.{drop, Status, Handle, Session, Devices, send_ack}
use c64iec.Server.Packet.{packet_data, write_block, after_data, close_at_end, handle, serve}
use c64iec.Server.Blocks.{take-drop, length-drop, blocks, acks}
use c64iec.Server.Serving.{serve-next, serve-once}

-- The session behind a block that it has written.
abbrev wrote : ℕ → List ℕ → List ℕ → Session → Session
wrote b bytes block s = record s {
  blocknum = b;
  file = Handle.writing (bytes ++ block);
  sent = ack_bytes b ∷ s.sent;
  status = Status.wait_for_data;
}

module _ (devices : Devices) where
  written :
      (b : ℕ) (bytes block : List ℕ) (s : Session)
      → write_block (Handle.writing bytes) b (data_bytes b block) s ≡ (
          if ltb (length (data_bytes b block)) 256
          then close_at_end (wrote b bytes block s)
          else wrote b bytes block s)
  unfolding send_ack
  written b bytes block s = refl

  -- A block at the server. The test is on the packet, with its header of four bytes.
  handle-data :
      (b : ℕ) (bytes block : List ℕ) (s : Session)
      → IsWord b
      → s.file ≡ Handle.writing bytes
      → handle devices (data_bytes b block) s ≡ (
          if ltb (length block + 4) 256
          then close_at_end (wrote b bytes block s)
          else wrote b bytes block s)
  unfolding handle packet_data
  handle-data b bytes block s small open_file =
      let size : length (data_bytes b block) ≡ length block + 4 = omega arith in
      ap (λ n. after_data (some n) (data_bytes b block) s) (word-high b small)
      ∙ (ap (λ h. write_block h b (data_bytes b block) s) open_file
          ∙ (written b bytes block s
              ∙ ap
                  (λ n.
                    if ltb n 256
                    then close_at_end (wrote b bytes block s)
                    else wrote b bytes block s)
                  size))

  -- The session behind the last packet of a file: the server closes the file if the packet is shorter
  -- than 256 bytes, and waits for another one if it is not.
  pub record Took (log : List (List ℕ)) (bytes : List ℕ) (s : Session) : Type 0 where
    pub acknowledged : s.sent ≡ log
    pub is_over : s.status ≡ Status.finished
    pub closed_file : s.closed ≡ some bytes

  pub record Holds (log : List (List ℕ)) (bytes : List ℕ) (s : Session) : Type 0 where
    pub acknowledged : s.sent ≡ log
    pub still_waits : s.status ≡ Status.wait_for_data
    pub not_closed : s.closed ≡ none
    pub held : s.file ≡ Handle.writing bytes

  abbrev pub made_ready : Session → Session
  made_ready s = record s { status = Status.ready }

  pub last-short :
      (b : ℕ) (bytes block : List ℕ) (s : Session)
      → IsWord b
      → s.file ≡ Handle.writing bytes
      → length block < 252
      → Took (ack_bytes b ∷ s.sent) (bytes ++ block) (serve devices (data_bytes b block) [] s)
  last-short b bytes block s small open_file short =
      let test : ltb (length block + 4) 256 ≡ true = ground arith in
      rw
        (
          serve-once devices (data_bytes b block) s,
          handle-data b bytes block (made_ready s) small open_file,
          test,
        )
        (record { acknowledged = refl; is_over = refl; closed_file = refl })

  pub last-long :
      (b : ℕ) (bytes block : List ℕ) (s : Session)
      → IsWord b
      → s.file ≡ Handle.writing bytes
      → s.closed ≡ none
      → 252 ≤ length block
      → Holds (ack_bytes b ∷ s.sent) (bytes ++ block) (serve devices (data_bytes b block) [] s)
  last-long b bytes block s small open_file new_file long =
      let test : ltb (length block + 4) 256 ≡ false = ground arith in
      rw
        (
          serve-once devices (data_bytes b block) s,
          handle-data b bytes block (made_ready s) small open_file,
          test,
        )
        (record { acknowledged = refl; still_waits = refl; not_closed = new_file; held = refl })

  -- A whole block, and the packet behind it.
  serve-block :
      (b : ℕ) (bytes block next : List ℕ) (later : List (List ℕ)) (s : Session)
      → IsWord b
      → s.file ≡ Handle.writing bytes
      → 252 ≤ length block
      → serve devices (data_bytes b block) (next ∷ later) s
        ≡ serve devices next later (wrote b bytes block (made_ready s))
  serve-block b bytes block next later s small open_file long =
      let test : ltb (length block + 4) 256 ≡ false = ground arith in
      serve-next devices (data_bytes b block) next later s (wrote b bytes block (made_ready s))
        (handle-data b bytes block (made_ready s) small open_file ∙ rw test refl) refl

  abbrev pub serve_all : List (List ℕ) → Session → Session
  serve_all [] s = s
  serve_all (packet ∷ later) s = serve devices packet later s

  serve-block_on :
      (b : ℕ) (bytes block : List ℕ) (k b' : ℕ) (left : List ℕ) (s : Session)
      → IsWord b
      → s.file ≡ Handle.writing bytes
      → 252 ≤ length block
      → serve devices (data_bytes b block) (blocks b' k left) s
        ≡ serve_all (blocks b' k left) (wrote b bytes block (made_ready s))
  unfolding blocks
  serve-block_on b bytes block zero b' left s small open_file long =
      serve-block b bytes block (data_bytes (b' + 1) left) [] s small open_file long
  serve-block_on b bytes block (suc k) b' left s small open_file long =
      serve-block b bytes block (data_bytes (b' + 1) (take 256 left))
        (blocks (b' + 1) k (drop 256 left)) s small open_file long

  -- What holds behind the last packet holds behind the whole, with the bytes before it.
  module _ (P : List (List ℕ) → List ℕ → Session → Type 0) (low high : ℕ)
      (at_end : (b : ℕ) (bytes block : List ℕ) (s : Session)
        → IsWord b
        → s.file ≡ Handle.writing bytes
        → s.closed ≡ none
        → low ≤ length block
        → length block < high
        → P (ack_bytes b ∷ s.sent) (bytes ++ block) (serve devices (data_bytes b block) [] s)) where
    pub serve-blocks :
        (k b : ℕ) (left bytes : List ℕ) (s : Session)
        → s.file ≡ Handle.writing bytes
        → s.closed ≡ none
        → b + k + 1 < 65536
        → k * 256 + low ≤ length left
        → length left < k * 256 + high
        → P (pushed (acks b k) s.sent) (bytes ++ left) (serve_all (blocks b k left) s)
    unfolding blocks acks pushed
    serve-blocks zero b left bytes s open_file new_file small from to =
        at_end (b + 1) bytes left s (omega arith) open_file new_file (omega arith) (omega arith)
    serve-blocks (suc k) b left bytes s open_file new_file small from to =
        let block = take 256 left in
        let rest = drop 256 left in
        let s' = wrote (b + 1) bytes block (made_ready s) in
        let parts : (bytes ++ block) ++ rest ≡ bytes ++ left =
          append_assoc bytes block rest ∙ ap (λ xs. bytes ++ xs) (take-drop 256 left) in
        let step =
          serve-block_on (b + 1) bytes block k (b + 1) rest s (omega arith) open_file
            (omega (arith, length-take 256 left)) in
        subst (P (pushed (acks (b + 1) k) s'.sent) (bytes ++ left)) (sym step) (
          subst
            (λ xs. P (pushed (acks (b + 1) k) s'.sent) xs (serve_all (blocks (b + 1) k rest) s'))
            parts
            (serve-blocks k (b + 1) rest (bytes ++ block) s' refl new_file (omega arith)
              (omega (arith, length-drop 256 left)) (omega (arith, length-drop 256 left))))
