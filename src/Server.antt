-- ===== src/Server.antt =====
-- The TFTP server of the repository (tools/tftp.rb), and the names of tools/device.rb. The files of the
-- devices are a parameter: the disk images and the directories that device.rb reads are not modelled,
-- nor is the output for debugging. A wait that ends without a packet ends the session.
pub mod Packet
pub mod Names
pub mod Request
pub mod Blocks
pub mod Reading
pub mod Serving
pub mod Repeats
pub mod Transfer
pub mod Whole
pub mod Stored
pub mod Missing
pub mod Directory
mod Tests
pub mod Writing
pub mod Saving
use c64iec.Base.{
  ℕ, zero, suc, ◌+◌, ◌-◌, ◌*◌, Bool, true, false, not, ◌&&◌, ◌||◌, Option, none, some, List, [],
  ◌∷◌, ◌++◌, length, take, leb, ◌==◌, if◌then◌else◌, high, u8, word,
}

abbrev pub drop {ℓ} : {A : Type ℓ} → ℕ → List A → List A
drop zero xs = xs
drop (suc n) [] = []
drop (suc n) (x ∷ xs) = drop n xs

-- Equal texts.
abbrev pub text_eq : List ℕ → List ℕ → Bool
text_eq [] [] = true
text_eq [] (y ∷ ys) = false
text_eq (x ∷ xs) [] = false
text_eq (x ∷ xs) (y ∷ ys) = x == y && text_eq xs ys

-- data.uint16(offset), none where it has no value
abbrev pub uint16 : List ℕ → Option ℕ
uint16 [] = none
uint16 (x ∷ []) = none
uint16 (x ∷ y ∷ ys) = some (word x y)

-- The characters before the first zero.
abbrev pub up_to_zero : List ℕ → List ℕ
up_to_zero [] = []
up_to_zero (x ∷ xs) = let rest = up_to_zero xs in if x == 0 then [] else x ∷ rest

abbrev pub all_zero : List ℕ → Bool
all_zero [] = true
all_zero (x ∷ xs) = x == 0 && all_zero xs

-- split("\x00").first, none where it is nil
abbrev pub cstring : List ℕ → Option (List ℕ)
cstring xs = if all_zero xs then none else some (up_to_zero xs)

abbrev pub is_digit : ℕ → Bool
is_digit c = leb b'0' c && leb c b'9'

abbrev pub is_hex : ℕ → Bool
is_hex c = is_digit c || (leb b'a' c && leb c b'f') || (leb b'A' c && leb c b'F')

abbrev pub hex_value : ℕ → ℕ
hex_value c = if is_digit c then c - b'0' else if leb b'a' c then c - b'a' + 10 else c - b'A' + 10

-- gsub(/%([a-fA-F0-9]{2})/) with the byte of these digits
pub unpercent : List ℕ → List ℕ
unpercent [] = []
unpercent (c ∷ []) = c ∷ []
unpercent (c ∷ h ∷ []) = c ∷ h ∷ []
unpercent (c ∷ h ∷ l ∷ rest) =
    let byte = (hex_value h * 16 + hex_value l) ∷ unpercent rest in
    let same = c ∷ unpercent (h ∷ l ∷ rest) in
    if c == b'%' && is_hex h && is_hex l then byte else same

-- gsub(/^@\d:/, ''), where `start` says that the text is at the start of a line
pub without_marks : Bool → List ℕ → List ℕ
without_marks start [] = []
without_marks start (c ∷ []) = c ∷ []
without_marks start (c ∷ d ∷ []) = c ∷ d ∷ []
without_marks start (c ∷ d ∷ e ∷ rest) =
    let found = without_marks false rest in
    let same = c ∷ without_marks (c == 10) (d ∷ e ∷ rest) in
    if start && c == b'@' && is_digit d && e == b':' then found else same

-- C64File.decode
pub decode : List ℕ → List ℕ
unfolding unpercent without_marks
decode encoded = without_marks true (unpercent encoded)

-- .*, which ends before a newline
abbrev pub line : List ℕ → List ℕ
line [] = []
line (c ∷ cs) = let rest = line cs in if c == 10 then [] else c ∷ rest

-- [89abcdef] and "89abcdef".index(c) + 8
abbrev pub is_device : ℕ → Bool
is_device c = (c == b'8' || c == b'9') || (leb b'a' c && leb c b'f')

abbrev pub device_of : ℕ → ℕ
device_of c = if leb b'a' c then c - b'a' + 10 else c - b'0'

-- The first match of /^([89abcdef])\/(.*)/
pub find_device : Bool → List ℕ → Option (ℕ × List ℕ)
find_device start [] = none
find_device start (c ∷ []) = none
find_device start (c ∷ d ∷ rest) =
    let later = find_device (c == 10) (d ∷ rest) in
    if start && is_device c && d == b'/' then some (device_of c, line rest) else later

pub data Status : Type 0 where
  ready : Status
  wait_for_ack : Status
  wait_for_data : Status
  error : Status
  finished : Status
  raised : Status

-- The file that the device has open: the bytes that are left to read, or those written so far.
pub data Handle : Type 0 where
  shut : Handle
  reading : List ℕ → Handle
  writing : List ℕ → Handle

-- A session. `sent` has the newest message in front; `closed` holds what close has left in a file that
-- was written.
pub record Session : Type 0 where
  pub device_num : ℕ
  pub filename : List ℕ
  pub blocknum : ℕ
  pub options : List (List ℕ × List ℕ)
  pub last_packet : Bool
  pub send_empty : Bool
  pub file : Handle
  pub closed : Option (List ℕ)
  pub sent : List (List ℕ)
  pub status : Status

-- What the devices have: the file under a name of the Commodore, and where a file can be created.
pub record Devices : Type 0 where
  pub file_of : ℕ → List ℕ → Option (List ℕ)
  pub can_create : ℕ → List ℕ → Bool

-- TFTP.new
abbrev pub new : Session
new = record {
  device_num = 8;
  filename = [];
  blocknum = 0;
  options = [];
  last_packet = false;
  send_empty = false;
  file = Handle.shut;
  closed = none;
  sent = [];
  status = Status.ready;
}

abbrev pub build_packet : ℕ → ℕ → List ℕ → List ℕ
build_packet kind number rest = high kind ∷ u8 kind ∷ high number ∷ u8 number ∷ rest

abbrev pub send : List ℕ → Session → Session
send msg s = record s { sent = msg ∷ s.sent }

abbrev pub raise : Session → Session
raise s = record s { status = Status.raised }

-- The text "File not found" and its terminator.
abbrev pub file_not_found : List ℕ
file_not_found =
    b'F' ∷ b'i' ∷ b'l' ∷ b'e' ∷ b' ' ∷ b'n' ∷ b'o' ∷ b't' ∷ b' ' ∷ b'f' ∷ b'o' ∷ b'u' ∷ b'n' ∷ b'd'
    ∷ 0 ∷ []

pub send_err : ℕ → List ℕ → Session → Session
send_err code msg s = record (send (build_packet 5 code msg) s) { status = Status.error }

pub send_ack : Session → Session
send_ack s = record (send (build_packet 4 s.blocknum []) s) { status = Status.wait_for_data }

-- "octet" and "netascii"
abbrev pub is_mode : List ℕ → Bool
is_mode key =
    text_eq key (b'o' ∷ b'c' ∷ b't' ∷ b'e' ∷ b't' ∷ [])
    || text_eq key (b'n' ∷ b'e' ∷ b't' ∷ b'a' ∷ b's' ∷ b'c' ∷ b'i' ∷ b'i' ∷ [])

-- @options[key] = value, in the order of the first assignments
pub put_option : List ℕ → List ℕ → List (List ℕ × List ℕ) → List (List ℕ × List ℕ)
put_option k v [] = (k, v) ∷ []
put_option k v ((j, w) ∷ os) = if text_eq j k then (k, v) ∷ os else (j, w) ∷ put_option k v os

-- The loop of tftp_options on the bytes from its offset on; each round passes at least one byte, so
-- their number is fuel enough. It is none where a key or a value is nil.
pub tftp_options : ℕ → List ℕ → List (List ℕ × List ℕ) → Option (List (List ℕ × List ℕ))
unfolding put_option
tftp_options zero xs os = some os
tftp_options (suc fuel) [] os = some os
tftp_options (suc fuel) (x ∷ xs) os = elim (cstring (x ∷ xs)) [
  | none ↦ none
  | some key ↦
      let behind = drop (length key + 1) (x ∷ xs) in
      elim (is_mode key) [
        | true ↦ tftp_options fuel behind os
        | false ↦ elim (cstring behind) [
          | none ↦ none
          | some value ↦
              tftp_options fuel (drop (length value + 1) behind) (put_option key value os)
        ]
      ]
]

-- The options of an OACK.
abbrev pub option_text : List (List ℕ × List ℕ) → List ℕ
option_text [] = []
option_text ((k, v) ∷ os) = k ++ (0 ∷ (v ++ (0 ∷ option_text os)))

pub send_oack : Status → Session → Session
send_oack wait_status s = record (send (build_packet 6 0 (option_text s.options)) s) {
  status = wait_status;
}

-- device.read(256), with the bytes that are left
abbrev pub sent_block : List ℕ → Session → Session
sent_block left s =
    let block = take 256 left in
    let rest = drop 256 left in
    let at_end = length rest == 0 in
    let whole = length block == 256 in
    record (send (build_packet 3 (s.blocknum + 1) block) s) {
      blocknum = s.blocknum + 1;
      file = Handle.reading rest;
      last_packet = not whole;
      send_empty = whole && at_end;
      status = Status.wait_for_ack;
    }

abbrev pub read_block : Handle → Session → Session
read_block Handle.shut s = raise s
read_block (Handle.writing bytes) s = raise s
read_block (Handle.reading left) s = sent_block left s

pub send_data : Bool → Session → Session
send_data send_empty s =
    if send_empty
    then record (send (build_packet 3 (s.blocknum + 1) []) s) {
      blocknum = s.blocknum + 1;
      last_packet = true;
      send_empty = false;
      status = Status.wait_for_ack;
    }
    else read_block s.file s
