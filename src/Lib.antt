-- ===== src/Lib.antt =====
-- The firmware of an Arduino that a Commodore 64 sees as a disk drive on its serial bus, and that
-- keeps the files on a TFTP server.
--
-- The parts and their files:
--   Base: byte arrays as functions from an index to a byte, machine words as native numbers with their
--     wrap-around, lists and Boolean tests.
--   Tftp (tftp.h, tftp.cpp): the client. Tftp has the globals of tftp.cpp without their prefix, and
--     each function keeps its name without the prefix. The received frame is a value of type Ether, and
--     a call of ether.sendUdp adds a datagram to the log `sent`. tftp_send_rrq and tftp_send_wrq
--     share the body send_request; dispatch is the chain of tests of tftp_recv_packet. Tftp/Wire has the
--     bytes of each message, Tftp/Request, Tftp/Download and Tftp/Upload the two directions of
--     a transfer, Tftp/Guards what the handler refuses, and Tftp/Invariant the states that the operations
--     reach, in any order. tftpdata is a memory of its own in the model, which the program's is only
--     while no packet brings more than its 260 bytes; Tftp/Safe has the packets that fit, and a packet
--     that does not ends what the model says of the other globals.
--   Webutil (EtherCard/webutil.cpp): urlDecode and urlEncode.
--   Net (EtherCard/tcpip.cpp): the addresses and the frame buffer of the network library, with the
--     checksum, ARP and the senders of UDP; Net/Tcp and Net/Loop have the TCP headers and packetLoop,
--     and Net/Requests what a sketch may ask for besides. Statements stand in their order, joined
--     by ▸, and a frame that is sent goes to the log `sent`.
--   Dhcp (EtherCard/dhcp.cpp): the DHCP client over Net: its messages and the reading of options, and in
--     Dhcp/Machine its states and the timers of the lease, with a list of rounds for what arrives and for
--     the clock.
--   Iec/FileName (c64iec.ino): create_tftp_filename. Iec/FileName/Encoding has its specification.
--   Iec/Bus (c64iec.ino): the pins, the wait loops, get_byte and put_byte. The level of a pin at each call
--     of digitalRead is a function of the number of the call, and what is done to the pins is a log.
--     The loop of wait_data_inf has a bound, `patience`, and waits for ever behind it.
--   Iec/Drive, Iec/Load and Iec/Save (c64iec.ino): send_file and recv_file, which are the clients of
--     Tftp. A call of ethernet_probe_for_packet takes the next element of a list of arrivals; the
--     calls of put_byte go to the log `puts`, and what get_byte and atn_active give is a list of BusByte.
--     Iec/Save/Live has recv_file on the pins instead, for a bounded number of bytes, `rounds`.
--   Iec/Probe (c64iec.ino): ethernet_probe_for_packet with the network below the client. What a call of
--     tftp_recv_packet gives where it runs off its end is the parameter `undefined`.
--   Iec/Header (c64iec.ino): pc64_make_header.
--   Iec/Setup (c64iec.ino, EtherCard/EtherCard.cpp): setup, with the wait for the server's MAC address.
--   Iec/Machine and Iec/Command (c64iec.ino): the drive with its bus, and handle_atn with the commands
--     that it starts: handle_open reads the name, handle_listen is a SAVE and handle_talk a LOAD.
--     Iec/Command/Whole has both from ATN on, Iec/Command/Opening the OPEN before them and the passes
--     in between, Iec/Command/Sessions the whole sequence, and Iec/Command/Passes any number of passes
--     of loop, with packets that fit in tftpdata.
--     Since send_file touches no pin but in put_byte, handle_talk plays its log of calls on the bus;
--     `patience` bounds the wait of each call for its listener, and a call that waits longer gives none.
--   Server (tools/tftp.rb, with the names of tools/device.rb and tools/common.rb): a session of the TFTP
--     server. Server/Packet has its handlers and the loop of packet, which recurs on the packets that
--     its waits find; an exception is the status raised. Server/Names undoes create_tftp_filename;
--     Server/Serving and Server/Saving have a file on its way out and in; Server/Transfer takes the
--     messages to the drive, and Server/Whole, Server/Stored and Server/Missing join both sides.
--     tftp_options has as much fuel as the packet has bytes, and each round takes one.
--     Server/Directory (tools/device.rb) has the PC64 files of DeviceDir with the listing of them, and
--     local_encode as many rounds as there are counters.
--
-- Loops: those of create_tftp_filename are structural. send_file, recv_file and the loop that waits
-- in recv_file recur on the arrivals that are still to come; the result is none where the code still
-- waits at their end, so a run that ends is a result that is not none.
--
-- Loops of the network: three rounds fold any sum of a checksum; the scans of options take as many
-- rounds as the message has bytes and one more, and each round moves on; dhcp_fsm recurs on its rounds.
--
-- Parameters: isalnum of the C library, and EtherCard's is_myIp as the field is_my_ip of Ether, which
-- Net defines. A frame's bytes are the field buffer. The callbacks of packetLoop are parameters. Serial
-- output is left out. What the devices of the server have under a name is a parameter too, Devices,
-- and how a message comes to the drive is a predicate on the frame, Brings.
--
-- Not modelled: in EtherCard, which is a copy of a network library, the driver of the controller, DNS,
-- Stash and the web client; the disk images of the server, its sockets, and the example
-- sketches. The driver is hardware, and the firmware calls nothing of the rest.
pub mod Base
pub mod Server
pub mod Tftp
pub mod Webutil
pub mod Net
pub mod Dhcp
pub mod Iec
