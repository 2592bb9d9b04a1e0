-- ===== src/Tftp/Log.antt =====
-- What tftp_recv_packet sends does not depend on what has been sent before (tftp.cpp).
use c64iec.Base.{ℕ, ◌≡◌, [], ◌++◌, arith}
use c64iec.Tftp.{Ether, Tftp, recv_packet}

abbrev pub emptied : Tftp → Tftp
emptied t = record t { sent = [] }

abbrev pub behind : Tftp → Tftp → Tftp
behind t u = record u { sent = u.sent ++ t.sent }

pub recv_packet-emptied :
    (t : Tftp) (e : Ether) (plen : ℕ)
    → recv_packet t e plen
      ≡ (behind t (recv_packet (emptied t) e plen).0, (recv_packet (emptied t) e plen).1)
unfolding recv_packet
recv_packet-emptied t e plen = ground arith
