-- ===== src/Iec/Machine.antt =====
-- The drive of c64iec.ino together with its bus: a byte that get_byte reads from the pins, and the
-- statements that touch the pins only.
use c64iec.Base.{ℕ, Bool, not, Option, none, some, List, [], ◌∷◌, if◌then◌else◌}
use c64iec.Iec.Bus.{Pin, atn, Bus, Step, go, ret, hang, M, digital_read, get_byte, put_byte}
use c64iec.Iec.Drive.{Call, Drive}
use c64iec.Iec.Save.{BusByte}

pub record Machine : Type 0 where
  pub bus : Bus
  pub drive : Drive

-- What a call of get_byte leaves in its argument, none if it has not written there, its result, and
-- the bus behind it.
pub record Taken : Type 0 where
  pub written : Option ℕ
  pub result : ℕ
  pub bus : Bus

-- The result of a function that runs to its end by a return statement.
abbrev pub returned : {A : Type 0} → Step A → ℕ
returned (go a) = 0
returned (ret r) = r
returned hang = 0

-- A statement on the pins whose result is not used.
abbrev pub run : {A : Type 0} → M A → Bus → Bus
run m b = (m b).1

-- The calls behind one of put_byte, unless it waits for ever.
abbrev pub unless_hang : {A : Type 0} → Step A → Option Bus → Option Bus
unless_hang (go a) rest = rest
unless_hang (ret r) rest = rest
unless_hang hang rest = none

module _ (level : Pin → ℕ → Bool) where
  unfoldable pub atn_active : Bus → Bool × Bus
  atn_active b = (not (level atn b.tick), run (digital_read level atn) b)

  unfoldable pub take_byte : ℕ → Bus → Taken
  take_byte force_eoi b =
      let (step, b') = get_byte level force_eoi (record b { output = none }) in
      record { written = b'.output; result = returned step; bus = b' }

  -- if(atn_active()) return; and get_byte behind it, as recv_file has them.
  unfoldable pub next_byte : Bus → BusByte × Bus
  unfolding atn_active take_byte
  next_byte b =
      let (active, b') = atn_active b in
      let t = take_byte 0 b' in
      if active
      then (record { atn = active; written = none; eoi = 0 }, b')
      else (record { atn = active; written = t.written; eoi = t.result }, t.bus)

  -- The calls of put_byte, in their order, on the bus. It is none if one of them waits for ever.
  unfoldable pub play : ℕ → List Call → Bus → Option Bus
  play patience [] b = some b
  play patience (c ∷ cs) b =
      let (step, b') = put_byte level patience c.value c.eoi b in
      unless_hang step (play patience cs b')
