-- ===== src/Identical.antt =====
-- `are_devices_identical` of device.c. What `stat` tells of a file is an argument.
pub mod Never
use mfst.Common.{ℕ, Bool, true, false, ◌||◌, not, if◌then◌else◌, ◌==◌}

-- S_IFMT, as far as the function looks at it
pub data FileKind : Type 0 where
  block_device character_device other_file : FileKind

-- The result of `stat`: success, ENOENT or another error.
pub data Stat : Type 0 where
  found : (kind : FileKind) (device_num : ℕ) → Stat
  missing failed : Stat

-- The values 0, 1 and -1
pub data Identity : Type 0 where
  identical different unknown : Identity

abbrev pub is_block : FileKind → Bool
is_block block_device = true
is_block character_device = false
is_block other_file = false

abbrev pub is_character : FileKind → Bool
is_character block_device = false
is_character character_device = true
is_character other_file = false

abbrev pub same_kind : FileKind → FileKind → Bool
same_kind block_device k = is_block k
same_kind character_device k = is_character k
same_kind other_file k = not (is_block k || is_character k)

unfoldable pub are_devices_identical : Stat → Stat → Identity
are_devices_identical missing b = different
are_devices_identical failed b = unknown
are_devices_identical (found k m) missing = different
are_devices_identical (found k m) failed = unknown
are_devices_identical (found k m) (found l n) =
    if not (is_block k) || not (is_block l) || not (is_character k) || not (is_character l)
    then different
    else if not (same_kind k l)
    then different
    else if m == n
    then identical
    else different
