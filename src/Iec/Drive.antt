-- ===== src/Iec/Drive.antt =====
-- The state of c64iec.ino that the transfers share. Packets come as a list of arrivals, one for each
-- call of ethernet_probe_for_packet; ether.packetLoop touches nothing that the transfers read.
use c64iec.Base.{ℕ, ◌+◌, List, ◌∷◌, Memory, u16}
use c64iec.Tftp.{Ether, Tftp, recv_packet}

-- What ether.packetReceive leaves in `ether`, and the length that it returns.
pub record Arrival : Type 0 where
  pub ether : Ether
  pub plen : ℕ

-- A call of put_byte with its value and its eoi flag.
pub record Call : Type 0 where
  pub value : ℕ
  pub eoi : ℕ

-- `puts` holds the calls of put_byte, the newest first.
pub record Drive : Type 0 where
  pub tftp : Tftp
  pub iobuf : Memory
  pub tftp_filename : Memory
  pub device_mode : ℕ
  pub secondary : ℕ
  pub sent_to_c64 : ℕ
  pub puts : List Call

abbrev pub tftp_get : ℕ
tftp_get = 1

abbrev pub tftp_put : ℕ
tftp_put = 2

abbrev pub pc64_size : ℕ
pc64_size = 0

-- What a probe does to the TFTP client.
unfoldable pub ethernet_probe_for_packet : Arrival → Tftp → Tftp
ethernet_probe_for_packet a t = (recv_packet t a.ether a.plen).0

-- put_byte(value, eoi); sent_to_c64++;
abbrev pub put_and_count : ℕ → ℕ → Drive → Drive
put_and_count v e d = record d {
  puts = record { value = v; eoi = e } ∷ d.puts;
  sent_to_c64 = u16 (d.sent_to_c64 + 1);
}
