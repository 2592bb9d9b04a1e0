-- ===== src/Server/Missing.antt =====
-- A LOAD of a file that the server does not have (c64iec.ino, tftp.cpp, tools/tftp.rb).
use c64iec.Base.{
  ℕ, ◌%◌, ◌≤◌, ◌≡◌, refl, sym, subst, ap, ◌∙◌, Bool, inr, none, some, List, [], ◌∷◌, All, IsByte,
  take, arith, length,
}
use c64iec.Tftp.Wire.{request_bytes}
use c64iec.Iec.Bus.{Pin, Bus, act, ◌>>◌, release_clock, release_data}
use c64iec.Iec.Drive.{Arrival, Drive}
use c64iec.Iec.FileName.Encoding.{kept, encode}
use c64iec.Iec.FileName.Result.{tftp_name}
use c64iec.Iec.Machine.{Machine, run}
use c64iec.Iec.Command.{
  loop, mode_of, address_of, iec_talk, iec_data, turn, turn_back, secondary_command, on_bus,
}
use c64iec.Iec.Command.Atn.{told, handle_atn-Commanded, secondary_command-talk}
use c64iec.Iec.Command.Opening.{probed, probe-idle, answered, Calls, loop-called, Between}
use c64iec.Iec.Command.Sessions.{Opens, Between-Named, wanted}
use c64iec.Iec.Command.Transfers.{handle_talk-error}
use c64iec.Server.{Devices, Session, Status, send_err, new, file_not_found}
use c64iec.Server.Packet.{serve, answer_read}
use c64iec.Server.Names.{plain_name}
use c64iec.Server.Request.{asked, not_found, packet_rrq-answer}
use c64iec.Server.Serving.{handle-rrq, serve-once}
use c64iec.Server.Transfer.{Brings, Brings-Carries}

-- The session that has refused a request.
record Refused (s : Session) : Type 0 where
  pub told_so : s.sent ≡ not_found ∷ []
  pub is_over : s.status ≡ Status.error

answer_read-none : (s : Session) → s.sent ≡ [] → Refused (answer_read none s)
unfolding send_err
answer_read-none s e = record { told_so = ap (λ xs. not_found ∷ xs) e; is_over = refl }

module _ (devices : Devices) where
  serve-missing :
      (name : List ℕ) (device : ℕ)
      → All IsByte name
      → 8 ≤ device % 16
      → devices.file_of (device % 16) (plain_name name) ≡ none
      → Refused (serve devices (request_bytes 1 (tftp_name name device)) [] new)
  serve-missing name device bytes h missing =
      let start = asked (device % 16) (encode (kept (take 16 name))) new in
      subst Refused
        (sym (
          serve-once devices (request_bytes 1 (tftp_name name device)) new
          ∙ (handle-rrq devices (tftp_name name device) new
              ∙ (packet_rrq-answer name device bytes h devices new
                  ∙ ap (λ f. answer_read f start) missing))))
        (answer_read-none start refl)

module _ (level : Pin → ℕ → Bool) (devices : Devices) where
  -- A LOAD of a file that the server does not have. No request is in progress; the computer
  -- sends OPEN with a name of at most 256 bytes, none of them 0, any passes in between, and a TALK with
  -- data for a device whose number is 8 to 15 in its lowest four bits; the
  -- server's name for the file has at most 20 characters, this device of the server has no file
  -- under it, and the first arrival behind the request brings what the server sends to it. Then the
  -- server sends one message, the ERROR packet, and its session ends in an error; the drive puts no
  -- byte on the bus, but releases CLOCK and DATA, and no request is in progress any more.
  pub load_missing :
      (patience rounds : ℕ) (p a : Arrival) (later : List Arrival) {m n k : Machine} (name : List ℕ)
      (device sec : ℕ) (b : Bus)
      → m.drive.tftp.request_in_progress ≡ 0
      → Opens level m name n
      → Between level n k
      → Calls level k.bus device sec b
      → mode_of device ≡ iec_talk
      → mode_of sec ≡ iec_data
      → All IsByte name
      → length (tftp_name name device) ≤ 20
      → 8 ≤ device % 16
      → devices.file_of (device % 16) (plain_name name) ≡ none
      → Brings not_found a
      → let s = serve devices (request_bytes 1 (tftp_name name device)) [] new in
        (s.sent ≡ not_found ∷ [])
        × (s.status ≡ Status.error)
        × ((d : Drive) × (loop level patience rounds p (a ∷ later) k
              ≡ some (record {
                bus =
                    run
                      (act release_data >> act release_clock)
                      (run (act release_clock >> act release_data) (run (turn level) b));
                drive = d;
              }))
            × (d.tftp.request_in_progress ≡ 0))
  load_missing patience rounds p a later {k = k} name device sec b idle o between c talk kind bytes
        short h missing brings =
      let refused = serve-missing devices name device bytes h missing in
      let named = Between-Named level idle o between in
      let asked_name = wanted level p device sec named in
      let t : Machine = record { bus = b; drive = told (probed p k) device sec } in
      let (d, runs, over) =
        handle_talk-error level patience a later (address_of sec) (on_bus (turn level) t) 1 15
          (probe-idle p k.drive.tftp named.idle)
          (subst (λ xs. length xs ≤ 20) (sym asked_name) short)
          (Brings-Carries a 5 1 file_not_found (omega arith) (omega arith) (omega arith) brings)
          (omega arith) in
      (
        refused.told_so,
        refused.is_over,
        (
          d,
          loop-called level patience rounds p (a ∷ later) k c.active
              ∙ (handle_atn-Commanded level patience rounds (a ∷ later)
                    (record { bus = answered level k.bus; drive = probed p k }) device sec b
                    c.command (inr talk)
                  ∙ (ap (λ x. secondary_command level patience rounds (a ∷ later) x sec t) talk
                      ∙ (secondary_command-talk level patience rounds (a ∷ later) sec t kind
                          ∙ ap (turn_back level) runs))),
          over,
        ),
      )
