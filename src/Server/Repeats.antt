-- ===== src/Server/Repeats.antt =====
-- An acknowledgement that comes twice at the server (tools/tftp.rb).
use c64iec.Base.{ℕ, ◌+◌, ◌≤◌, ◌≡◌, refl, ap, ◌∙◌, false, List, [], ◌∷◌, arith, length, take, IsWord}
use c64iec.Tftp.Wire.{ack_bytes, data_bytes}
use c64iec.Server.{drop, Handle, Session, Devices}
use c64iec.Server.Packet.{serve}
use c64iec.Server.Blocks.{length-drop}
use c64iec.Server.Reading.{Has, send_data-whole}
use c64iec.Server.Serving.{answered, handle-unfinished, serve-next, serve-once}

module _ (devices : Devices) where
  -- An acknowledgement that comes twice costs 256 bytes. When the session has at least 512 bytes to send
  -- and the acknowledgement of block b comes twice in a row, the server sends two packets with the
  -- number b + 1: the first has the next 256 bytes, the second the 256 bytes behind them, and what
  -- is left to send are the bytes behind both.
  pub serve-ack_twice :
      (b : ℕ) (left : List ℕ) (s : Session)
      → Has s left
      → IsWord b
      → 512 ≤ length left
      → let s' = serve devices (ack_bytes b) (ack_bytes b ∷ []) s in
        (s'.sent
          ≡ data_bytes (b + 1) (take 256 (drop 256 left))
            ∷ data_bytes (b + 1) (take 256 left)
            ∷ s.sent)
        × (s'.file ≡ Handle.reading (drop 256 (drop 256 left)))
  serve-ack_twice b left s has small long =
      let first = send_data-whole s b left has (omega arith) in
      let s1 = answered devices b s in
      let has' : Has s1 (drop 256 left) = record {
        open_file = first.handle_left;
        unfinished = first.final;
        emptied = first.empty_next;
      } in
      let second =
        send_data-whole s1 b (drop 256 left) has' (omega (arith, length-drop 256 left)) in
      let runs =
        serve-next devices (ack_bytes b) (ack_bytes b) [] s s1
          (handle-unfinished devices b s small has.unfinished) (rw first.waits refl) in
      let ends = last_one s1 has'.unfinished in
      (
        ap (λ x. x.sent) (runs ∙ ends)
            ∙ (second.on_top
                ∙ ap (λ xs. data_bytes (b + 1) (take 256 (drop 256 left)) ∷ xs) first.on_top),
        ap (λ x. x.file) (runs ∙ ends) ∙ second.handle_left,
      )
    where
      last_one :
          (t : Session)
          → t.last_packet ≡ false
          → serve devices (ack_bytes b) [] t ≡ answered devices b t
      last_one t more =
          serve-once devices (ack_bytes b) t ∙ handle-unfinished devices b t small more
