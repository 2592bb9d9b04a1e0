-- ===== src/Iec/Command/Passes.antt =====
-- Passes of loop (c64iec.ino): the TFTP client stays safe, whatever the computer does.
use c64iec.Base.{
  ℕ, zero, suc, ◌+◌, ◌≡◌, refl, Bool, not, Option, none, some, List, All, Memory, ◌==◌,
}
use c64iec.Tftp.Safe.{Safe}
use c64iec.Iec.Bus.{Pin, Bus}
use c64iec.Iec.Drive.{Arrival, Drive}
use c64iec.Iec.Save.{write_byte}
use c64iec.Iec.Machine.{Machine, atn_active, take_byte}
use c64iec.Iec.Valid.{if-Keeps, Fitting}
use c64iec.Iec.Command.{open_loop, loop}

abbrev Keeps : Memory → Option Machine → Type 0
Keeps start none = Unit
Keeps start (some m) = Safe start m.drive.tftp

module _ (level : Pin → ℕ → Bool) where
  pub open_loop-tftp : (n a : ℕ) (m : Machine) → (open_loop level n a m).drive.tftp ≡ m.drive.tftp
  unfolding open_loop
  open_loop-tftp zero a m = refl
  open_loop-tftp (suc n) a m =
      let (active, bus) = atn_active level m.bus in
      let t = take_byte level 0 bus in
      let m' : Machine = record {
        bus = t.bus;
        drive = record m.drive { iobuf = write_byte t.written a m.drive.iobuf };
      } in
      if-Keeps (λ (k : Machine). k.drive.tftp ≡ m.drive.tftp) active _ _ refl
        (if-Keeps (λ (k : Machine). k.drive.tftp ≡ m.drive.tftp) (not (t.result == 0)) _ _ refl
          (open_loop-tftp n (a + 1) m'))

  -- Any number of passes of loop, each with the packets that come during it, which fit in tftpdata.
  pub data Passes (m : Machine) : Machine → Type 0 where
    none_yet : Passes m m
    pass :
        {k n : Machine} (patience rounds : ℕ) (p : Arrival) (later : List Arrival)
        → Fitting p
        → All Fitting later
        → Passes m k
        → loop level patience rounds p later k ≡ some n
        → Passes m n
