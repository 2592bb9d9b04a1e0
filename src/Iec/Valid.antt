-- ===== src/Iec/Valid.antt =====
-- The TFTP client stays safe, as the functions of c64iec.ino pass it on.
use c64iec.Base.{ℕ, ◌≤◌, refl, Bool, true, false, Option, none, some, List, Memory, if◌then◌else◌}
use c64iec.Tftp.{Tftp, get_file, get_block, put_file, put_block}
use c64iec.Tftp.Invariant.{Step}
use c64iec.Tftp.Safe.{Fits, Safe, Step-Safe}
use c64iec.Iec.Drive.{Arrival, Drive, ethernet_probe_for_packet}

-- A test keeps what both of its branches have.
pub if-Keeps {ℓ κ} :
    {A : Type ℓ} (P : A → Type κ) (c : Bool) (x y : A) → P x → P y → P (if c then x else y)
if-Keeps P true x y p q = p
if-Keeps P false x y p q = q

-- What arrives fits in tftpdata.
abbrev pub Fitting : Arrival → Type 0
Fitting a = Fits a.ether

module _ (start : Memory) where
  -- The result of a function, if it ends, is safe.
  abbrev pub Ends : Option (Drive × ℕ) → Type 0
  Ends none = Unit
  Ends (some (d, r)) = Safe start d.tftp

  pub probe-Safe :
      (a : Arrival) (t : Tftp)
      → Fitting a
      → Safe start t
      → Safe start (ethernet_probe_for_packet a t)
  unfolding ethernet_probe_for_packet
  probe-Safe a t fits i = Step-Safe (Step.by_recv_packet a.ether a.plen refl) fits i

  pub get_file-Safe : (t : Tftp) (f : List ℕ) → Safe start t → Safe start (get_file t f).0
  get_file-Safe t f i = Step-Safe (Step.by_get_file f refl) tt i

  pub put_file-Safe : (t : Tftp) (f : List ℕ) → Safe start t → Safe start (put_file t f).0
  put_file-Safe t f i = Step-Safe (Step.by_put_file f refl) tt i

  pub get_block-Safe :
      (t : Tftp) (to : Memory) (at offset : ℕ)
      → Safe start t
      → Safe start (get_block t to at offset).0
  get_block-Safe t to at offset i = Step-Safe (Step.by_get_block to at offset refl) tt i

  pub put_block-Safe :
      (t : Tftp) (from : Memory) (n : ℕ)
      → n ≤ 256
      → Safe start t
      → Safe start (put_block t from n).0
  put_block-Safe t from n small i = Step-Safe (Step.by_put_block from n small refl) tt i
