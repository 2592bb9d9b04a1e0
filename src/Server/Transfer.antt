-- ===== src/Server/Transfer.antt =====
-- The messages of the server on their way to the drive: what tftp_recv_packet finds in the frames, and
-- what the drive answers (tools/tftp.rb, tftp.cpp).
use c64iec.Base.{
  ℕ, zero, suc, ◌+◌, ◌*◌, ◌/◌, ◌≤◌, ◌<◌, ◌≡◌, refl, sym, subst, ap, ap₂, ◌∙◌, true, List, [], ◌∷◌,
  ◌++◌, arith, map, length, take, length-take, word, u8, high, IsWord, word-high, Memory, slice,
  sub16,
}
use c64iec.Tftp.{Datagram, srcport, tftp_port, packet_srvport, packet_dstport}
use c64iec.Tftp.Wire.{datagram, ack_bytes, data_bytes}
use c64iec.Tftp.Download.{Carries}
use c64iec.Iec.Drive.{Arrival}
use c64iec.Iec.Load.Serve.{Serves, answers}
use c64iec.Iec.Load.Options.{Delivers, all_answers}
use c64iec.Server.{drop, option_text}
use c64iec.Server.Blocks.{take-drop, length-drop, blocks, acks}
use c64iec.Server.Request.{oack, block_size}

-- An arrival with a message of the server: a UDP datagram for this host, to the port of the drive, from
-- the port of the server.
pub record Brings (message : List ℕ) (a : Arrival) : Type 0 where
  pub arrived : 0 < a.plen
  pub mine : a.ether.is_my_ip a.plen ≡ true
  pub udp : a.ether.buffer 23 ≡ 17
  pub to_drive : packet_dstport a.ether.buffer ≡ srcport
  pub from_server : packet_srvport a.ether.buffer ≡ tftp_port
  pub udp_length : word (a.ether.buffer 38) (a.ether.buffer 39) ≡ length message + 8
  pub payload : slice a.ether.buffer 42 (length message) ≡ message

-- The arrivals bring the messages in their order, and probes that find no packet in between.
pub data Brought : List (List ℕ) → List Arrival → Type 0 where
  done : {arrivals : List Arrival} → Brought [] arrivals
  quiet :
      {messages : List (List ℕ)} {later : List Arrival} (a : Arrival)
      → a.plen ≡ 0
      → Brought messages later
      → Brought messages (a ∷ later)
  message :
      {m : List ℕ} {messages : List (List ℕ)} {later : List Arrival} (a : Arrival)
      → Brings m a
      → Brought messages later
      → Brought (m ∷ messages) (a ∷ later)

pieces :
    (m : Memory) (k h l : ℕ) (bytes : List ℕ)
    → slice m 42 (length (0 ∷ k ∷ h ∷ l ∷ bytes)) ≡ 0 ∷ k ∷ h ∷ l ∷ bytes
    → (m 42 ≡ 0) × (m 43 ≡ k) × (m 44 ≡ h) × (m 45 ≡ l) × (slice m 46 (length bytes) ≡ bytes)
unfolding slice
pieces m k h l bytes e = ground arith

-- A message with its header.
module _ (a : Arrival) (kind number : ℕ) (bytes : List ℕ) (k : kind < 256) (w : IsWord number)
    (size : length bytes ≤ 256) (b : Brings (0 ∷ kind ∷ high number ∷ u8 number ∷ bytes) a) where
  header :
      (a.ether.buffer 42 ≡ 0)
      × (a.ether.buffer 43 ≡ kind)
      × (a.ether.buffer 44 ≡ high number)
      × (a.ether.buffer 45 ≡ u8 number)
      × (slice a.ether.buffer 46 (length bytes) ≡ bytes)
  header = pieces a.ether.buffer kind (high number) (u8 number) bytes b.payload

  pub Brings-bytes : slice a.ether.buffer 46 (length bytes) ≡ bytes
  Brings-bytes = header.4

  pub Brings-Carries : Carries a.ether a.plen kind number (length bytes)
  Brings-Carries = record {
    arrived = b.arrived;
    mine = b.mine;
    udp = b.udp;
    port = b.to_drive;
    of_kind = ap₂ word header.0 header.1 ∙ omega arith;
    of_block = ap₂ word header.2 header.3 ∙ word-high number w;
    of_size = ap (λ n. sub16 n 12) b.udp_length ∙ omega arith;
  }

abbrev pub to_server : List ℕ → Datagram
to_server bytes = datagram bytes tftp_port

-- The rest of a transfer, and what the drive answers to it.
abbrev Transfer : ℕ → ℕ → List ℕ → List Arrival → Type 0
Transfer k b left arrivals =
    (s : Serves (b + 1) left arrivals) × (answers s ≡ map to_server (acks b k))

Transfer-quiet :
    (k b : ℕ) (left : List ℕ) (a : Arrival) (later : List Arrival)
    → a.plen ≡ 0
    → Transfer k b left later
    → Transfer k b left (a ∷ later)
unfolding answers
Transfer-quiet k b left a later none_came (s, e) = (Serves.idle a none_came s, e)

answer_to :
    (a : Arrival) (m : List ℕ) (b : ℕ)
    → Brings m a
    → datagram (ack_bytes b) (packet_srvport a.ether.buffer) ≡ to_server (ack_bytes b)
answer_to a m b brings = ap (datagram (ack_bytes b)) brings.from_server

Transfer-last :
    (b : ℕ) (left : List ℕ) (a : Arrival) (later : List Arrival)
    → Brings (data_bytes (b + 1) left) a
    → IsWord (b + 1)
    → length left < 256
    → Transfer zero b left (a ∷ later)
unfolding answers acks
Transfer-last b left a later brings w short = (
  Serves.last a (length left) (Brings-Carries a 3 (b + 1) left (omega arith) w (omega arith) brings)
      short (sym (Brings-bytes a 3 (b + 1) left (omega arith) w (omega arith) brings)),
  ap (λ x. x ∷ []) (answer_to a (data_bytes (b + 1) left) (b + 1) brings),
)

Transfer-block :
    (k b : ℕ) (left : List ℕ) (a : Arrival) (later : List Arrival)
    → Brings (data_bytes (b + 1) (take 256 left)) a
    → IsWord (b + 1)
    → 256 ≤ length left
    → Transfer k (b + 1) (drop 256 left) later
    → Transfer (suc k) b left (a ∷ later)
unfolding answers acks
Transfer-block k b left a later brings w long (s, e) =
    let block = take 256 left in
    let size : length block ≡ 256 = omega (arith, length-take 256 left) in
    let carried = Brings-Carries a 3 (b + 1) block (omega arith) w (omega arith) brings in
    let held = Brings-bytes a 3 (b + 1) block (omega arith) w (omega arith) brings in
    (
      Serves.block a (subst (Carries a.ether a.plen 3 (b + 1)) size carried)
          (sym (take-drop 256 left)
            ∙ ap (λ bs. bs ++ drop 256 left) (sym held ∙ ap (slice a.ether.buffer 46) size))
          refl s,
      ap₂ (λ x xs. x ∷ xs) (answer_to a (data_bytes (b + 1) block) (b + 1) brings) e,
    )

-- Arrivals with the DATA packets of a file serve the file.
pub serves :
    {messages : List (List ℕ)} {arrivals : List Arrival}
    → Brought messages arrivals
    → (k b : ℕ) (left : List ℕ) → messages ≡ blocks b k left
    → b + k + 1 < 65536
    → k * 256 ≤ length left
    → length left < k * 256 + 256
    → Transfer k b left arrivals
unfolding blocks
serves done zero b left e small low high = absurd (cc)
serves done (suc k) b left e small low high = absurd (cc)
serves (quiet {later = later} a none_came rest) k b left e small low high =
    Transfer-quiet k b left a later none_came (serves rest k b left e small low high)
serves (message {m = m} {later = later} a brings rest) zero b left e small low high =
    Transfer-last b left a later (subst (λ x. Brings x a) (ground arith) brings) (omega arith)
      (omega arith)
serves (message {m = m} {later = later} a brings rest) (suc k) b left e small low high =
    Transfer-block k b left a later (subst (λ x. Brings x a) (ground arith) brings) (omega arith)
      (omega arith)
      (serves rest k (b + 1) (drop 256 left) (ground arith) (omega arith)
        (omega (arith, length-drop 256 left)) (omega (arith, length-drop 256 left)))

-- The OACK comes before the blocks.
pub delivers :
    {messages : List (List ℕ)} {arrivals : List Arrival}
    → Brought messages arrivals
    → (file : List ℕ) → messages ≡ oack ∷ blocks 0 (length file / 256) file
    → length file < 65535 * 256
    → (s : Delivers file arrivals) × (all_answers s
        ≡ map to_server (ack_bytes 0 ∷ acks 0 (length file / 256)))
unfolding all_answers
delivers done file e small = absurd (cc)
delivers (quiet a none_came rest) file e small =
    let (s, same) = delivers rest file e small in (Delivers.quiet a none_came s, same)
delivers (message {m = m} a brings rest) file e small =
    let first : Brings oack a = subst (λ x. Brings x a) (ground arith) brings in
    let (s, same) =
      serves rest (length file / 256) 0 file (ground arith) (omega arith) (omega arith)
        (omega arith) in
    (
      Delivers.options a 12
          (Brings-Carries a 6 0 (option_text block_size) (omega arith) (omega arith) (omega arith)
            first)
          s,
      ap₂ (λ x xs. x ∷ xs) (answer_to a oack 0 first) same,
    )
