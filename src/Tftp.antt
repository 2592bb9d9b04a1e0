-- ===== src/Tftp.antt =====
-- tftp.h and tftp.cpp: the TFTP client. The globals of tftp.cpp are the fields of Tftp, and each
-- function returns the new globals with its result. A call of ether.sendUdp, whose server is always
-- ether.serverip, adds its datagram to `sent`, the newest first. tftpdata is a memory of its own, in
-- which a write behind its 260 bytes stays; in the program such a write meets the globals that stand
-- there. Only a packet with more than 260 bytes of data causes one (Tftp/Guards), and a statement about
-- the globals behind such a packet does not hold of the program. Tftp/Safe has the packets that fit.
pub mod Wire
pub mod Request
pub mod Download
pub mod Upload
pub mod Guards
pub mod Log
pub mod Invariant
pub mod Safe
pub mod Tests
use c64iec.Base.{
  ℕ, ◌+◌, Bool, ◌&&◌, ◌||◌, not, Option, none, some, List, [], ◌∷◌, ltb, leb, ◌==◌, if◌then◌else◌,
  length, Memory, write, copy, store, slice, u8, u16, high, word, sub16,
}

-- The file-scope object `ether` as the client reads it.
pub record Ether : Type 0 where
  pub buffer : Memory
  pub is_my_ip : ℕ → Bool

pub record Datagram : Type 0 where
  pub payload : List ℕ
  pub sport : ℕ
  pub dport : ℕ

pub record Tftp : Type 0 where
  pub request_in_progress : ℕ
  pub filesize : ℕ
  pub wrq_datasize : ℕ
  pub error : ℕ
  pub srvport : ℕ
  pub blknum : ℕ
  pub lastblk : ℕ
  pub lastgot : ℕ
  pub tftpdata : Memory
  pub data_available : ℕ
  pub clear_to_send : ℕ
  pub end_of_data : ℕ
  pub sent : List Datagram

abbrev pub srcport : ℕ
srcport = 53280

abbrev pub tftp_port : ℕ
tftp_port = 53280

abbrev pub tftp_norq : ℕ
tftp_norq = 0

abbrev pub tftp_rrq : ℕ
tftp_rrq = 1

abbrev pub tftp_wrq : ℕ
tftp_wrq = 2

abbrev pub tftp_data : ℕ
tftp_data = 3

abbrev pub tftp_ack : ℕ
tftp_ack = 4

abbrev pub tftp_error : ℕ
tftp_error = 5

abbrev pub tftp_optack : ℕ
tftp_optack = 6

abbrev pub tftp_blksize : ℕ
tftp_blksize = 256

-- The initial values of the globals.
abbrev pub initial : Memory → Tftp
initial m = record {
  request_in_progress = 0;
  filesize = 0;
  wrq_datasize = 0;
  error = 0;
  srvport = 0;
  blknum = 0;
  lastblk = 65535;
  lastgot = 0;
  tftpdata = m;
  data_available = 0;
  clear_to_send = 0;
  end_of_data = 0;
  sent = [];
}

-- The macros that read the received frame. UDP_DATA_P is 42, and an Ethernet header, an IP header of
-- 20 bytes and a UDP header of 8 bytes stand below it.
abbrev pub udp_data_p : ℕ
udp_data_p = 42

abbrev pub packet_blknum : Memory → ℕ
packet_blknum b = word (b 44) (b 45)

abbrev pub packet_type : Memory → ℕ
packet_type b = word (b 42) (b 43)

-- The UDP length less its header and the four bytes of a DATA header, modulo 2^16.
abbrev pub packet_datasize : Memory → ℕ
packet_datasize b = sub16 (word (b 38) (b 39)) 12

abbrev pub packet_srvport : Memory → ℕ
packet_srvport b = word (b 34) (b 35)

abbrev pub packet_dstport : Memory → ℕ
packet_dstport b = word (b 36) (b 37)

abbrev pub octet_text : List ℕ
octet_text = b'o' ∷ b'c' ∷ b't' ∷ b'e' ∷ b't' ∷ 0 ∷ []

abbrev pub blksize_text : List ℕ
blksize_text = b'b' ∷ b'l' ∷ b'k' ∷ b's' ∷ b'i' ∷ b'z' ∷ b'e' ∷ 0 ∷ []

abbrev pub size_text : List ℕ
size_text = b'2' ∷ b'5' ∷ b'6' ∷ 0 ∷ []

-- ether.sendUdp((char *)tftpdata, len, SRCPORT, ether.serverip, port)
pub send_udp : Tftp → ℕ → ℕ → Tftp
send_udp t len port = record t {
  sent = record { payload = slice t.tftpdata 0 len; sport = srcport; dport = port } ∷ t.sent;
}

-- A file name is the list of its characters; strcpy copies the terminator too.
pub build_request : Tftp → List ℕ → ℕ → Tftp × ℕ
build_request t filename mode = if ltb 20 (length filename) then (t, 0) else (
  record t {
    tftpdata = store (2 + length filename + 1 + 6 + 8) size_text (
        store (2 + length filename + 1 + 6) blksize_text (
          store (2 + length filename + 1) octet_text (
            store (2 + length filename) (0 ∷ [])
              (store 2 filename (write 1 (u8 mode) (write 0 (high mode) t.tftpdata))))));
  },
  2 + length filename + 1 + 6 + 8 + 4,
)

pub build_ack : Tftp → ℕ → Tftp × ℕ
build_ack t blknum = (
  record t {
    tftpdata =
        write 3 (u8 blknum) (write 2 (high blknum) (write 1 tftp_ack (write 0 0 t.tftpdata)));
  },
  4,
)

-- The body that tftp_send_rrq and tftp_send_wrq share, at their mode.
send_request : Tftp → List ℕ → ℕ → Tftp × ℕ
unfolding build_request send_udp
send_request t filename mode =
    if not (t.request_in_progress == 0)
    then (t, 0)
    else (let (t', size) = build_request t filename mode in
        if leb size 0 then (t', 0) else (
          record (send_udp t' size tftp_port) { request_in_progress = mode; filesize = 0 },
          size,
        ))

pub send_rrq : Tftp → List ℕ → Tftp × ℕ
unfolding send_request
send_rrq t filename = send_request t filename tftp_rrq

pub send_wrq : Tftp → List ℕ → Tftp × ℕ
unfolding send_request
send_wrq t filename = send_request t filename tftp_wrq

pub send_ack : Tftp → ℕ → ℕ → Tftp
unfolding build_ack send_udp
send_ack t port blknum = let (t', size) = build_ack t blknum in send_udp t' size port

-- The result -1 is the word 65535.
pub recv_data : Tftp → Memory → ℕ → Tftp × ℕ
recv_data t buffer data_size = (
  record t {
    filesize = u16 (t.filesize + data_size);
    tftpdata = if ltb 0 data_size then copy 0 buffer 46 data_size t.tftpdata else t.tftpdata;
  },
  if not (data_size == tftp_blksize) || data_size == 0 then 65535 else data_size,
)

pub send_data : Tftp → ℕ → ℕ → Tftp
unfolding send_udp
send_data t port blknum =
    send_udp
      (record t {
        tftpdata =
            write 3 (u8 blknum) (write 2 (high blknum) (write 1 tftp_data (write 0 0 t.tftpdata)));
        filesize = u16 (t.filesize + t.wrq_datasize);
      })
      (u16 (t.wrq_datasize + 4)) port

-- The chain of tests on the type of a packet that is not a repetition.
pub dispatch : Tftp → Memory → Tftp
unfolding send_ack recv_data
dispatch t b =
    if packet_type b == tftp_optack && not (t.request_in_progress == tftp_wrq)
    then send_ack t (packet_srvport b) 0
    else if packet_type b == tftp_data && t.request_in_progress == tftp_rrq
    then (let (t', status) = recv_data t b (packet_datasize b) in
        record t' {
          data_available = if not (status == 0) then packet_datasize b else t.data_available;
          end_of_data = if status == 65535 then 1 else t.end_of_data;
        })
    else if (packet_type b == tftp_ack || packet_type b == tftp_optack)
        && t.request_in_progress == tftp_wrq
    then record t {
      blknum = if packet_type b == tftp_optack then 0 else t.blknum;
      clear_to_send = 1;
    }
    else if packet_type b == tftp_error
    then record t { error = 1; request_in_progress = tftp_norq }
    else t

-- The result is none where the function runs off its end, past the guards: C leaves it undefined.
pub recv_packet : Tftp → Ether → ℕ → Tftp × Option ℕ
unfolding dispatch
recv_packet t e plen =
    if leb plen 0
    then (t, some 0)
    else if not (e.is_my_ip plen)
    then (t, some 0)
    else if not (e.buffer 23 == 17 && packet_dstport e.buffer == srcport)
    then (t, none)
    else if t.lastblk == packet_blknum e.buffer
    then (record t { blknum = packet_blknum e.buffer; srvport = packet_srvport e.buffer }, some 0)
    else (
      dispatch
          (record t {
            blknum = packet_blknum e.buffer;
            srvport = packet_srvport e.buffer;
            lastblk = packet_blknum e.buffer;
          })
          e.buffer,
      none,
    )

pub get_file : Tftp → List ℕ → Tftp × ℕ
unfolding send_rrq
get_file t filename =
    send_rrq
      (record t { data_available = 0; end_of_data = 0; lastgot = 0; error = 0; lastblk = 65535 })
      filename

-- `to` is the array that receive_buffer points into, at the index `at`.
pub get_block : Tftp → Memory → ℕ → ℕ → Tftp × Memory × ℕ
unfolding send_ack
get_block t to at offset =
    if t.data_available == 0 && t.end_of_data == 0
    then (t, to, 0)
    else if not (t.lastgot == 0) && leb t.blknum t.lastgot
    then (t, to, 0)
    else (let t' = send_ack (record t { lastgot = t.blknum }) t.srvport t.blknum in
        (
          record t' {
            request_in_progress = if t.end_of_data == 0 then t.request_in_progress else tftp_norq;
          },
          if t.data_available == 0
              then to
              else copy at t.tftpdata offset (sub16 t.data_available offset) to,
          sub16 t.data_available offset,
        ))

pub put_file : Tftp → List ℕ → Tftp × ℕ
unfolding send_wrq
put_file t filename = send_wrq (record t { clear_to_send = 0; error = 0; lastblk = 65535 }) filename

pub put_block : Tftp → Memory → ℕ → Tftp × ℕ
unfolding send_data
put_block t from size =
    if t.clear_to_send == 0
    then (t, 0)
    else (let t' =
          send_data
            (record t {
              clear_to_send = 0;
              tftpdata = if ltb 0 size then copy 4 from 0 size t.tftpdata else t.tftpdata;
              wrq_datasize = size;
            })
            t.srvport (u16 (t.blknum + 1)) in
        (
          record t' {
            request_in_progress =
                if size == 0 || not (size == tftp_blksize)
                then tftp_norq
                else t.request_in_progress;
          },
          1,
        ))
