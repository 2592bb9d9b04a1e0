-- ===== src/Iec/Probe/Tests.antt =====
-- A DATA packet that comes in a frame (c64iec.ino).
use c64iec.Base.{◌≡◌, refl, [], arith, store}
use c64iec.Net.{is_my_ip}
use c64iec.Net.Tests.{net}
use c64iec.Tftp.{initial, get_file}
use c64iec.Tftp.Tests.{no_bytes, packet, name}
use c64iec.Tftp.Invariant.{Step, Reach}
use c64iec.Iec.Probe.{Host, Received, fetch, put_datagrams, take_packet, probe}
use c64iec.Iec.Probe.Undefined.{IsTftp, IsSetUp, probe-take_packet}
use c64iec.Iec.Probe.Frames.{Frames, Reach-Frames}

abbrev host : Host
host = record { net = net; tftp = record (initial no_bytes) { request_in_progress = 1 } }

-- An option acknowledgement, behind which the function runs off its end.
abbrev received : Received
received = record { frame = packet 6 0 []; plen = 60 }

received-IsTftp : IsTftp received net
unfolding is_my_ip store
received-IsTftp = ground arith

net-IsSetUp : IsSetUp net
net-IsSetUp = ground arith

probe-take_packet_example :
    probe 0 received host ≡ (take_packet 60 (record host { net = fetch received net })).0
probe-take_packet_example = probe-take_packet 0 received host received-IsTftp net-IsSetUp

Reach-Frames_example :
    let t = (get_file (initial no_bytes) name).0 in
    Frames net.serverip [] t.sent (put_datagrams t.sent net).sent
Reach-Frames_example =
    Reach-Frames {m = no_bytes} net (Reach.next Reach.here (Step.by_get_file name refl))
