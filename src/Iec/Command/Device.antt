-- ===== src/Iec/Command/Device.antt =====
-- Which devices the drive answers for (c64iec.ino).
use c64iec.Base.{ℕ, ◌≡◌, refl, false}
use c64iec.Iec.Command.{refused}

pub refused-never : (device : ℕ) → refused device ≡ false
unfolding refused
refused-never device = refl
