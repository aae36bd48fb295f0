-- ===== src/Search.antt =====
-- device.c: telling whether a device that is there is the device under test, by the copies of its
-- beginning and middle or by the UUIDs in its sectors, and looking for it among all devices.
-- What these functions ask of the operating system is an interface over the states `W` of the
-- world. -1 is none, or an error; the log and the release of memory are left out.
pub mod Uuids
pub mod BodMod
pub mod Find
pub mod Reconnect
pub mod Matches
pub mod Adopts
use mfst.Common.{ℕ, Bool, Option, List}

-- What `compare_bod_mod_data` and `compare_device_uuids` return: 0, 1 or -1.
pub data Verdict : Type 0 where
  matching differing failing : Verdict

pub record DeviceFile (W : Type 0) : Type 0 where
  -- `ioctl(fd, BLKSSZGET, ...)`
  pub sector_size : ℕ → W → Option ℕ × W
  -- Whether the position could be set.
  pub lseek : ℕ → ℕ → W → Bool × W
  pub read : ℕ → ℕ → W → Option (List ℕ) × W
  -- The memory, with what it holds.
  pub malloc : ℕ → W → Option (List ℕ) × W
  pub random : W → ℕ × W
  -- Seeding the generator with the time
  pub srandom : W → W
