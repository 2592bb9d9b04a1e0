-- ===== src/Server/Serving.antt =====
-- How the server answers a read request and the acknowledgements that follow (tools/tftp.rb).
use c64iec.Base.{
  ℕ, zero, suc, ◌+◌, ◌*◌, ◌/◌, ◌%◌, All, IsByte, ◌≤◌, ◌<◌, ◌≡◌, inl, refl, ap, ◌∙◌, true, false,
  some, List, [], ◌∷◌, arith, length, take, pushed, IsWord, word-high,
}
use c64iec.Tftp.Wire.{ack_bytes}
use c64iec.Server.{drop, Status, Handle, Session, Devices, send_data}
use c64iec.Server.Blocks.{length-drop, blocks, acks}
use c64iec.Tftp.Wire.{request_bytes}
use c64iec.Iec.FileName.Encoding.{kept, encode}
use c64iec.Iec.FileName.Result.{tftp_name}
use c64iec.Server.{new, send_oack}
use c64iec.Server.Names.{plain_name}
use c64iec.Server.Request.{block_size, oack, asked, packet_rrq-answer}
use c64iec.Server.Packet.{packet_rrq, answer_read, after_ack, packet_ack, handle, serve, is_waiting}
use c64iec.Server.Reading.{Has, at_block, send_data-short, send_data-whole}

-- An acknowledgement at the server.
handle-ack :
    (devices : Devices) (b : ℕ) (s : Session)
    → IsWord b
    → handle devices (ack_bytes b) s ≡ after_ack (some b) s
unfolding handle packet_ack
handle-ack devices b s small = ap (λ n. after_ack (some n) s) (word-high b small)

pub serve-next :
    (devices : Devices) (packet next : List ℕ) (later : List (List ℕ)) (s s' : Session)
    → handle devices packet (record s { status = Status.ready }) ≡ s'
    → is_waiting s'.status ≡ true
    → serve devices packet (next ∷ later) s ≡ serve devices next later s'
unfolding serve
serve-next devices packet next later s s' e w = rw (e, w) refl

pub serve-once :
    (devices : Devices) (packet : List ℕ) (s : Session)
    → serve devices packet [] s ≡ handle devices packet (record s { status = Status.ready })
unfolding serve
serve-once devices packet s = refl

-- A session that has sent all that it has to, and ends.
pub record Ends (log : List (List ℕ)) (s : Session) : Type 0 where
  pub sent_all : s.sent ≡ log
  pub over : s.status ≡ Status.finished
  pub shut_file : s.file ≡ Handle.shut

serve-last :
    (devices : Devices) (b : ℕ) (s : Session) (left : List ℕ)
    → IsWord b
    → s.last_packet ≡ true
    → s.file ≡ Handle.reading left
    → Ends s.sent (serve devices (ack_bytes b) [] s)
unfolding serve
serve-last devices b s left small last open_file =
    rw (handle-ack devices b (record s { status = Status.ready }) small, last, open_file)
      (record { sent_all = refl; over = refl; shut_file = refl })

Ends-cast :
    {log log' : List (List ℕ)} {s s' : Session} → log ≡ log' → s ≡ s' → Ends log s' → Ends log' s
Ends-cast {s = s} e f h = record {
  sent_all = ap (λ x. x.sent) f ∙ (h.sent_all ∙ e);
  over = ap (λ x. x.status) f ∙ h.over;
  shut_file = ap (λ x. x.file) f ∙ h.shut_file;
}

-- The session that has offered the options for a file.
abbrev offered : List ℕ → Session → Session
offered file s = record s {
  file = Handle.reading file;
  sent = oack ∷ s.sent;
  status = Status.wait_for_ack;
}

answer_read-offered :
    (file : List ℕ) (s : Session)
    → s.options ≡ block_size
    → answer_read (some file) s ≡ offered file s
unfolding send_oack
answer_read-offered file s e = rw e refl

offered-Has :
    (file : List ℕ) (s : Session)
    → s.last_packet ≡ false
    → s.send_empty ≡ false
    → Has (offered file s) file
offered-Has file s more e = record { open_file = refl; unfinished = more; emptied = inl e }

offered-waits : (file : List ℕ) (s : Session) → is_waiting (offered file s).status ≡ true
offered-waits file s = refl

module _ (devices : Devices) where
  -- What a session sends for an acknowledgement.
  abbrev pub answered : ℕ → Session → Session
  answered b s = send_data s.send_empty (at_block b s)

  pub handle-unfinished :
      (b : ℕ) (s : Session)
      → IsWord b
      → s.last_packet ≡ false
      → handle devices (ack_bytes b) (record s { status = Status.ready }) ≡ answered b s
  handle-unfinished b s small more =
      handle-ack devices b (record s { status = Status.ready }) small ∙ rw more refl

  pub handle-rrq :
      (f : List ℕ) (s : Session)
      → handle devices (request_bytes 1 f) s ≡ packet_rrq devices (request_bytes 1 f) s
  unfolding handle
  handle-rrq f s = refl

  -- The acknowledgement of block b lets the server send the blocks behind it, each when the one before
  -- is acknowledged, and end.
  pub serve-acks :
      (k b : ℕ) (left : List ℕ) (s : Session)
      → Has s left
      → b + k + 1 < 65536
      → k * 256 ≤ length left
      → length left < k * 256 + 256
      → Ends (pushed (blocks b k left) s.sent) (serve devices (ack_bytes b) (acks b k) s)
  unfolding blocks acks pushed
  serve-acks zero b left s has small low high =
      let sent = send_data-short s b left has (omega arith) in
      Ends-cast (sent.on_top)
        (serve-next devices (ack_bytes b) (ack_bytes (b + 1)) [] s (answered b s)
          (handle-unfinished b s (omega arith) has.unfinished) (rw sent.waits refl))
        (serve-last devices (b + 1) (answered b s) [] (omega arith) sent.final sent.handle_left)
  serve-acks (suc k) b left s has small low high =
      let sent = send_data-whole s b left has (omega arith) in
      let rest = drop 256 left in
      let has' : Has (answered b s) rest = record {
        open_file = sent.handle_left;
        unfinished = sent.final;
        emptied = sent.empty_next;
      } in
      Ends-cast (ap (pushed (blocks (b + 1) k rest)) sent.on_top)
        (serve-next devices (ack_bytes b) (ack_bytes (b + 1)) (acks (b + 1) k) s (answered b s)
          (handle-unfinished b s (omega arith) has.unfinished) (rw sent.waits refl))
        (serve-acks k (b + 1) rest (answered b s) has' (omega arith)
          (omega (arith, length-drop 256 left)) (omega (arith, length-drop 256 left)))

  -- A read request and its answers, at the server. For a name of bytes, a device whose number is 8 to 15
  -- in its lowest four bits, and a file of less than 65535 * 256 bytes that this device has under the
  -- name: when the drive acknowledges the options and each block, a new session sends the OACK and then
  -- exactly the DATA packets for the bytes of the file, in their order, and ends with its file closed.
  pub serve-read :
      (name : List ℕ) (device : ℕ) (file : List ℕ)
      → All IsByte name
      → 8 ≤ device % 16
      → devices.file_of (device % 16) (plain_name name) ≡ some file
      → length file < 65535 * 256
      → Ends (pushed (blocks 0 (length file / 256) file) (oack ∷ [])) (
          serve devices
            (request_bytes 1 (tftp_name name device))
            (ack_bytes 0 ∷ acks 0 (length file / 256))
            new)
  serve-read name device file bytes h there small =
      let start = asked (device % 16) (encode (kept (take 16 name))) new in
      let s = offered file start in
      Ends-cast refl
        (serve-next devices (request_bytes 1 (tftp_name name device)) (ack_bytes 0)
          (acks 0 (length file / 256)) new s
          (handle-rrq (tftp_name name device) new
            ∙ (packet_rrq-answer name device bytes h devices new
                ∙ (ap (λ f. answer_read f start) there ∙ answer_read-offered file start refl)))
          (offered-waits file start))
        (serve-acks (length file / 256) 0 file s (offered-Has file start refl refl) (omega arith)
          (omega arith) (omega arith))
