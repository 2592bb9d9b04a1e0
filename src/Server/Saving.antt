-- ===== src/Server/Saving.antt =====
-- How the server takes a file from its write request on (tools/tftp.rb).
use c64iec.Base.{
  ℕ, zero, suc, ◌*◌, ◌/◌, ◌%◌, ◌≤◌, ◌<◌, ◌≡◌, refl, ap, ◌∙◌, true, List, [], ◌∷◌, All, IsByte,
  arith, length, take, pushed,
}
use c64iec.Tftp.Wire.{request_bytes, data_bytes}
use c64iec.Iec.FileName.Encoding.{kept, encode}
use c64iec.Iec.FileName.Result.{tftp_name}
use c64iec.Server.{drop, Status, Handle, Session, Devices, new, send_oack}
use c64iec.Server.Packet.{packet_wrq, answer_write, handle, serve}
use c64iec.Server.Names.{plain_name}
use c64iec.Server.Blocks.{blocks, acks}
use c64iec.Server.Request.{block_size, oack, asked, packet_wrq-answer}
use c64iec.Server.Serving.{serve-next}
use c64iec.Server.Writing.{Took, Holds, serve_all, made_ready, serve-blocks, last-short, last-long}

module _ (devices : Devices) where
  -- The session that has offered the options for a file to write.
  abbrev taking : Session → Session
  taking s = record s {
    file = Handle.writing [];
    sent = oack ∷ s.sent;
    status = Status.wait_for_data;
  }

  answer_write-taking : (s : Session) → s.options ≡ block_size → answer_write true s ≡ taking s
  unfolding send_oack
  answer_write-taking s e = rw e refl

  handle-wrq :
      (f : List ℕ) (s : Session)
      → handle devices (request_bytes 2 f) s ≡ packet_wrq devices (request_bytes 2 f) s
  unfolding handle
  handle-wrq f s = refl

  module _ (name : List ℕ) (device : ℕ) (bytes : All IsByte name) (h : 8 ≤ device % 16)
      (can : devices.can_create (device % 16) (plain_name name) ≡ true) where
    abbrev start : Session
    start = asked (device % 16) (encode (kept (take 16 name))) new

    requested :
        handle devices (request_bytes 2 (tftp_name name device)) (made_ready devices new)
        ≡ taking start
    requested =
        handle-wrq (tftp_name name device) new
        ∙ (packet_wrq-answer name device bytes h devices new
            ∙ (ap (λ c. answer_write c start) can ∙ answer_write-taking start refl))

    serve-wrq :
        (k : ℕ) (file : List ℕ)
        → serve devices (request_bytes 2 (tftp_name name device)) (blocks 0 k file) new
          ≡ serve_all devices (blocks 0 k file) (taking start)
    unfolding blocks
    serve-wrq zero file =
        serve-next devices (request_bytes 2 (tftp_name name device)) (data_bytes 1 file) [] new
          (taking start) requested refl
    serve-wrq (suc k) file =
        serve-next devices (request_bytes 2 (tftp_name name device)) (data_bytes 1 (take 256 file))
          (blocks 1 k (drop 256 file)) new (taking start) requested refl

    -- A write request and the DATA packets of a file, at the server. For a name of bytes, a device whose
    -- number is 8 to 15 in its lowest four bits and that lets the server create the file: when the
    -- packets of a file of less than 65535 * 256 bytes come, whose last block has fewer than 252
    -- bytes, a new session answers with the OACK and an acknowledgement of each block, ends, and has
    -- closed a file with exactly these bytes.
    pub serve-write :
        (file : List ℕ)
        → length file < 65535 * 256
        → length file % 256 < 252
        → Took devices (pushed (acks 0 (length file / 256)) (oack ∷ [])) file (
            serve devices
              (request_bytes 2 (tftp_name name device))
              (blocks 0 (length file / 256) file)
              new)
    serve-write file small short = rw (serve-wrq (length file / 256) file) (
        serve-blocks devices (Took devices) 0 252
          (λ b before block s w open_file new_file low high.
            last-short devices b before block s w open_file high)
          (length file / 256) 0 file [] (taking start) refl refl (omega arith) (omega arith)
          (omega arith))

    -- When the last block has 252 to 255 bytes, its packet with the header has 256 or more, and the server
    -- takes it for a whole block. For a name of bytes, a device whose number is 8 to 15 in its lowest
    -- four bits and that lets the server create the file, and a file of less than 65535 * 256 bytes
    -- with such a last block, a new session that gets the write request and the packets of the file
    -- answers with the OACK and an acknowledgement of each block and has the bytes of the file, but
    -- it waits for another packet and has not closed the file.
    pub serve-write_open :
        (file : List ℕ)
        → length file < 65535 * 256
        → 252 ≤ length file % 256
        → Holds devices (pushed (acks 0 (length file / 256)) (oack ∷ [])) file (
            serve devices
              (request_bytes 2 (tftp_name name device))
              (blocks 0 (length file / 256) file)
              new)
    serve-write_open file small long = rw (serve-wrq (length file / 256) file) (
        serve-blocks devices (Holds devices) 252 256
          (λ b before block s w open_file new_file low high.
            last-long devices b before block s w open_file new_file low)
          (length file / 256) 0 file [] (taking start) refl refl (omega arith) (omega arith)
          (omega arith))
