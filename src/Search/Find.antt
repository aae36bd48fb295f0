-- ===== src/Search/Find.antt =====
-- `find_device` of device.c: the device is looked for under its preferred name, or among all block
-- devices. The calls of libudev are one operation that lists the devices. The result is the
-- value of `errno`, or none for 0, with the context.
use Prim.Native.String.{String}
use mfst.Common.{
  ℕ, ◌*◌, ◌%◌, ◌^◌, Bool, true, false, Option, none, some, List, [], ◌∷◌, ◌++◌, if◌then◌else◌, ◌==◌,
}
use mfst.Context.{Context, device_info_set_device_name}
use mfst.Device.{Errno, enodev, enotuniq, other_error}
use mfst.Identical.{Stat, Identity, identical, different, unknown, are_devices_identical}
use mfst.Search.{Verdict, matching, differing, failing, DeviceFile}
use mfst.Search.BodMod.{compare_bod_mod_data}
use mfst.Search.Uuids.{compare_device_uuids}

-- A block device: its node, and its attribute "size" as strtoull reads it.
pub record BlockDevice : Type 0 where
  pub devnode : Option String
  pub size : Option ℕ

pub record Finder (W : Type 0) : Type 0 where
  -- `open`, read-only or for reading and writing
  pub open_device : String → Bool → W → Option ℕ × W
  pub close : ℕ → W → W
  -- `ioctl(fd, BLKGETSIZE64, ...)`
  pub reported_size : ℕ → W → Option ℕ × W
  -- `st_rdev` of `stat`
  pub device_number : String → W → Option ℕ × W
  pub stat : String → W → Stat × W
  pub strdup : String → W → Option String × W
  -- Whether `malloc` or `realloc` succeeds.
  pub allocate : W → Bool × W
  -- The devices of the subsystem "block", or none when libudev fails.
  pub block_devices : W → Option (List BlockDevice) × W
  -- Waiting for devices that appear: whether it could be set up, and the next one, if any.
  pub monitor : W → Bool × W
  pub receive_device : W → Option BlockDevice × W
  pub usleep : W → W

-- The result, with the context.
abbrev pub Outcome : Type 0 → Type 0
Outcome W = Option Errno × (Context × W)

abbrev pub is_matching : Verdict → Bool
is_matching matching = true
is_matching differing = false
is_matching failing = false

module _ {W : Type 0} (os : DeviceFile W) (finder : Finder W) (crc : ℕ → List ℕ → ℕ)
    (free : List ℕ → List ℕ) where
  -- The copies are compared, and the UUIDs when they do not match.
  unfoldable pub identify : ℕ → Context → ℕ → W → Option (Verdict × W)
  identify fuel ctx fd w = elim (compare_bod_mod_data os fuel free ctx fd w) [
    | none ↦ none
    | some r ↦ elim (is_matching (r.0)) [
      | true ↦ some r
      | false ↦ compare_device_uuids os crc fuel ctx fd (r.1)
    ]
  ]

  abbrev pub close_after : ℕ → Option (Verdict × W) → Option (Bool × W)
  close_after fd none = none
  close_after fd (some (verdict, w)) = some (is_matching verdict, finder.close fd w)

  -- The comparison, and the handle closed.
  abbrev pub identify_and_close : ℕ → Context → ℕ → W → Option (Bool × W)
  identify_and_close fuel ctx fd w = close_after fd (identify fuel ctx fd w)

  abbrev pub with_number : ℕ → ℕ → Context → Context
  with_number device_num fd ctx = record ctx {
    device_info = record (ctx.device_info) { device_num = device_num; fd = some fd };
  }

  abbrev pub name_device : ℕ → ℕ → Bool × Context → W → Outcome W
  name_device device_num fd (true, ctx) w = (none, (with_number device_num fd ctx, w))
  name_device device_num fd (false, ctx) w = (some other_error, (ctx, finder.close fd w))

  abbrev pub adopt_opened : String → ℕ → Context → Option ℕ → W → Outcome W
  adopt_opened name device_num ctx none w = (some other_error, (ctx, w))
  adopt_opened name device_num ctx (some fd) w =
      let copy = finder.strdup name w in
      name_device device_num fd (device_info_set_device_name ctx copy.0) copy.1

  abbrev pub adopt_numbered : String → Context → Option ℕ → W → Outcome W
  adopt_numbered name ctx none w = (some other_error, (ctx, w))
  adopt_numbered name ctx (some device_num) w =
      let opened = finder.open_device name true w in
      adopt_opened name device_num ctx opened.0 opened.1

  -- The device is opened for reading and writing and taken into the context.
  unfoldable pub adopt_device : String → Context → W → Outcome W
  adopt_device name ctx w =
      let num = finder.device_number name w in adopt_numbered name ctx num.0 num.1

  abbrev pub add_copy : List String → Option String → Option (List String)
  add_copy matched none = none
  add_copy matched (some s) = some (matched ++ (s ∷ []))

  abbrev pub add_grown : String → List String → Bool → W → Option (List String) × W
  add_grown name matched false w = (none, w)
  add_grown name matched true w =
      let copy = finder.strdup name w in (add_copy matched copy.0, copy.1)

  -- The name added to the list of matched devices.
  unfoldable pub add_match : String → List String → W → Option (List String) × W
  add_match name matched w = let grown = finder.allocate w in add_grown name matched grown.0 grown.1

  abbrev pub Checked : Type 0
  Checked = Option (Option (List String) × W)

  abbrev pub check_identified : String → List String → Option (Bool × W) → Checked
  check_identified name matched none = none
  check_identified name matched (some (false, w)) = some (some matched, w)
  check_identified name matched (some (true, w)) = some (add_match name matched w)

  abbrev pub check_opened : ℕ → Context → String → List String → Option ℕ → W → Checked
  check_opened fuel ctx name matched none w = some (some matched, w)
  check_opened fuel ctx name matched (some fd) w =
      check_identified name matched (identify_and_close fuel ctx fd w)

  abbrev pub check_sized : ℕ → Context → String → List String → Bool → W → Checked
  check_sized fuel ctx name matched false w = some (some matched, w)
  check_sized fuel ctx name matched true w =
      let opened = finder.open_device name false w in
      check_opened fuel ctx name matched opened.0 opened.1

  abbrev pub check_named : ℕ → Context → Option ℕ → Option String → List String → W → Checked
  check_named fuel ctx none devnode matched w = some (some matched, w)
  check_named fuel ctx (some size) none matched w = some (some matched, w)
  check_named fuel ctx (some size) (some name) matched w =
      check_sized fuel ctx name matched (size * 512 % 2 ^ 64 == ctx.device_info.logical_size) w

  -- One device of the enumeration: the list of matched devices after it, or none for ENOMEM.
  unfoldable pub check_device : ℕ → Context → BlockDevice → List String → W → Checked
  check_device fuel ctx device matched w = check_named fuel ctx device.size device.devnode matched w

  -- `while(list_entry)`
  unfoldable pub scan_devices : ℕ → Context → List BlockDevice → List String → W → Checked
  scan_devices fuel ctx [] matched w = some (some matched, w)
  scan_devices fuel ctx (device ∷ rest) matched w = elim (check_device fuel ctx device matched w) [
    | none ↦ none
    | some (none, w) ↦ some (none, w)
    | some (some matched', w) ↦ scan_devices fuel ctx rest matched' w
  ]

  abbrev pub is_identical : Identity → Bool
  is_identical identical = true
  is_identical different = false
  is_identical unknown = false

  -- The last of the devices that is the preferred one.
  unfoldable pub pick_preferred : String → List String → Option String → W → Option String × W
  pick_preferred preferred [] picked w = (picked, w)
  pick_preferred preferred (name ∷ rest) picked w =
      let a = finder.stat preferred w in
      let b = finder.stat name a.1 in
      pick_preferred preferred rest
        (if is_identical (are_devices_identical a.0 b.0) then some name else picked) b.1

  abbrev pub adopt_picked : Context → Option String × W → Outcome W
  adopt_picked ctx (none, w) = (some enotuniq, (ctx, w))
  adopt_picked ctx (some name, w) = adopt_device name ctx w

  -- What follows the search, by the devices that matched.
  unfoldable pub take_matched : Option String → Context → List String → W → Outcome W
  take_matched preferred ctx [] w = (some enodev, (ctx, w))
  take_matched preferred ctx (name ∷ []) w = adopt_device name ctx w
  take_matched none ctx (name ∷ other ∷ rest) w = (some enotuniq, (ctx, w))
  take_matched (some preferred) ctx (name ∷ other ∷ rest) w =
      adopt_picked ctx (pick_preferred preferred (name ∷ other ∷ rest) none w)

  abbrev pub take_scanned :
      Option String → Context → Option (Option (List String) × W) → Option (Outcome W)
  take_scanned preferred ctx none = none
  take_scanned preferred ctx (some (none, w)) = some (some other_error, (ctx, w))
  take_scanned preferred ctx (some (some matched, w)) = some (take_matched preferred ctx matched w)

  abbrev pub find_listed :
      ℕ → Option String → Context → Option (List BlockDevice) → W → Option (Outcome W)
  find_listed fuel preferred ctx none w = some (some other_error, (ctx, w))
  find_listed fuel preferred ctx (some devices) w =
      take_scanned preferred ctx (scan_devices fuel ctx devices [] w)

  -- The search among all block devices.
  unfoldable pub find_among_all : ℕ → Option String → Context → W → Option (Outcome W)
  find_among_all fuel preferred ctx w =
      let listed = finder.block_devices w in find_listed fuel preferred ctx listed.0 listed.1

  -- The preferred device, when its data has been compared: one that does not match is taken at
  -- once, one that matches is added to the list.
  abbrev pub take_preferred : String → Context → Option (Bool × W) → Option (Outcome W)
  take_preferred name ctx none = none
  take_preferred name ctx (some (false, w)) = some (adopt_device name ctx w)
  take_preferred name ctx (some (true, w)) =
      let added = add_match name [] w in
      elim added.0 [
        | none ↦ some (some other_error, (ctx, added.1))
        | some matched ↦ some (take_matched (some name) ctx matched added.1)
      ]

  unfoldable pub find_preferred : ℕ → String → Context → W → Option (Outcome W)
  find_preferred fuel name ctx w =
      let opened = finder.open_device name false w in
      elim opened.0 [
        | none ↦ some (some other_error, (ctx, opened.1))
        | some fd ↦
            let size = finder.reported_size fd opened.1 in
            elim size.0 [
              | none ↦ some (some other_error, (ctx, finder.close fd size.1))
              | some n ↦ elim (n == ctx.device_info.logical_size) [
                | false ↦ some (some enodev, (ctx, finder.close fd size.1))
                | true ↦ take_preferred name ctx (identify_and_close fuel ctx fd size.1)
              ]
            ]
      ]

  -- The parameters are `preferred_dev_name` and `must_match_preferred_dev_name`.
  unfoldable pub find_device : ℕ → Option String → Bool → Context → W → Option (Outcome W)
  find_device fuel preferred false ctx w = find_among_all fuel preferred ctx w
  find_device fuel none true ctx w = some (some other_error, (ctx, w))
  find_device fuel (some name) true ctx w = find_preferred fuel name ctx w
