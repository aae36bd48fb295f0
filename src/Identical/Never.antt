-- ===== src/Identical/Never.antt =====
-- Comparing two devices.
use mfst.Common.{◌≢◌}
use mfst.Identical.{
  block_device, character_device, other_file, Stat, found, missing, failed, identical, different,
  unknown, are_devices_identical,
}

different_ne : different ≢ identical
different_ne = λ e. cc e

unknown_ne : unknown ≢ identical
unknown_ne = λ e. cc e

-- are_devices_identical calls no two files identical, not even a block device and itself.
pub are_devices_identical-never : (a b : Stat) → are_devices_identical a b ≢ identical
unfolding are_devices_identical
are_devices_identical-never missing b = different_ne
are_devices_identical-never failed b = unknown_ne
are_devices_identical-never (found k m) missing = different_ne
are_devices_identical-never (found k m) failed = unknown_ne
are_devices_identical-never (found block_device m) (found block_device n) = different_ne
are_devices_identical-never (found block_device m) (found character_device n) = different_ne
are_devices_identical-never (found block_device m) (found other_file n) = different_ne
are_devices_identical-never (found character_device m) (found l n) = different_ne
are_devices_identical-never (found other_file m) (found l n) = different_ne
