-- ===== src/Search/Matches.antt =====
-- What the search among all devices finds: devices of the right size with the right contents.
use Prim.Native.String.{String}
use mfst.Common.{
  ℕ, ◌*◌, ◌%◌, ◌^◌, ◌≡◌, refl, sym, Bool, true, false, Option, none, some, List, [], ◌∷◌, ◌==◌,
  ==_iff, All, All-append, subst,
}
use mfst.Context.{Context}
use mfst.Search.{Verdict, matching, differing, failing, DeviceFile}
use mfst.Search.Find.{
  BlockDevice, Finder, identify, close_after, add_copy, add_grown, add_match, check_identified,
  check_opened, check_sized, check_named, check_device, scan_devices,
}

module _ {W : Type 0} (os : DeviceFile W) (finder : Finder W) (crc : ℕ → List ℕ → ℕ)
    (free : List ℕ → List ℕ) (fuel : ℕ) (ctx : Context) (InList : BlockDevice → Type 0) where
  -- The name is that of a device of the list, which has the size of the device under test and was
  -- found to match when it was opened and read.
  pub record IsMatch (name : String) : Type 0 where
    pub device : BlockDevice
    pub size : ℕ
    pub fd : ℕ
    pub before : W
    pub after : W
    pub in_list : InList device
    pub named : device.devnode ≡ some name
    pub sized : device.size ≡ some size
    pub right_size : size * 512 % 2 ^ 64 ≡ ctx.device_info.logical_size
    pub opened : (finder.open_device name false before).0 ≡ some fd
    pub matches :
        identify os finder crc free fuel ctx fd (finder.open_device name false before).1
        ≡ some (matching, after)

  module _ (copies : (s t : String) (w : W) → (finder.strdup s w).0 ≡ some t → t ≡ s) where
    -- The list that a step gives, if any, has matching names only.
    abbrev pub AllMatch : Option (Option (List String) × W) → Type 0
    AllMatch none = Unit
    AllMatch (some (none, w)) = Unit
    AllMatch (some (some matched, w)) = All IsMatch matched

    add_match-AllMatch :
        (name : String) (matched : List String) (w : W)
        → IsMatch name
        → All IsMatch matched
        → AllMatch (some (add_match os finder crc free name matched w))
    unfolding add_match
    add_match-AllMatch name matched w is_match all =
        grown (finder.allocate w).0 (finder.allocate w).1
      where
        copied :
            (o : Option String) (v : W)
            → ((t : String) → o ≡ some t → t ≡ name)
            → AllMatch (some (add_copy os finder crc free matched o, v))
        copied none v h = tt
        copied (some t) v h =
            All-append IsMatch matched (t ∷ []) all (subst IsMatch (sym (h t refl)) is_match, tt)

        grown : (b : Bool) (v : W) → AllMatch (some (add_grown os finder crc free name matched b v))
        grown false v = tt
        grown true v =
            copied (finder.strdup name v).0 (finder.strdup name v).1 (λ t e. copies name t v e)

    check_device-AllMatch :
        (device : BlockDevice) (matched : List String) (w : W)
        → InList device
        → All IsMatch matched
        → AllMatch (check_device os finder crc free fuel ctx device matched w)
    unfolding check_device
    check_device-AllMatch device matched w in_list all = named device.size device.devnode refl refl
      where
        found :
            (name : String) (size fd : ℕ)
            → device.devnode ≡ some name
            → device.size ≡ some size
            → size * 512 % 2 ^ 64 ≡ ctx.device_info.logical_size
            → (finder.open_device name false w).0 ≡ some fd
            → (o : Option (Verdict × W))
            → identify os finder crc free fuel ctx fd (finder.open_device name false w).1 ≡ o
            → AllMatch (
                check_identified os finder crc free name matched
                  (close_after os finder crc free fd o))
        found name size fd n s r o none e = tt
        found name size fd n s r o (some (differing, v)) e = all
        found name size fd n s r o (some (failing, v)) e = all
        found name size fd n s r o (some (matching, v)) e =
            add_match-AllMatch name matched (finder.close fd v)
              record {
                device = device;
                size = size;
                fd = fd;
                before = w;
                after = v;
                in_list = in_list;
                named = n;
                sized = s;
                right_size = r;
                opened = o;
                matches = e;
              }
              all

        opened :
            (name : String) (size : ℕ)
            → device.devnode ≡ some name
            → device.size ≡ some size
            → size * 512 % 2 ^ 64 ≡ ctx.device_info.logical_size
            → (o : Option ℕ) → (finder.open_device name false w).0 ≡ o
            → AllMatch (
                check_opened os finder crc free fuel ctx name matched o
                  (finder.open_device name false w).1)
        opened name size n s r none e = all
        opened name size n s r (some fd) e =
            found name size fd n s r e
              (identify os finder crc free fuel ctx fd (finder.open_device name false w).1) refl

        sized :
            (name : String) (size : ℕ)
            → device.devnode ≡ some name
            → device.size ≡ some size
            → (b : Bool) → (size * 512 % 2 ^ 64 == ctx.device_info.logical_size) ≡ b
            → AllMatch (check_sized os finder crc free fuel ctx name matched b w)
        sized name size n s false e = all
        sized name size n s true e =
            opened name size n s ((==_iff (size * 512 % 2 ^ 64) ctx.device_info.logical_size).0 e)
              (finder.open_device name false w).0 refl

        named :
            (size : Option ℕ) (name : Option String)
            → device.size ≡ size
            → device.devnode ≡ name
            → AllMatch (check_named os finder crc free fuel ctx size name matched w)
        named none name s n = all
        named (some size) none s n = all
        named (some size) (some name) s n =
            sized name size n s (size * 512 % 2 ^ 64 == ctx.device_info.logical_size) refl

    pub scan_devices-AllMatch :
        (devices : List BlockDevice) (matched : List String) (w : W)
        → All InList devices
        → All IsMatch matched
        → AllMatch (scan_devices os finder crc free fuel ctx devices matched w)
    unfolding scan_devices
    scan_devices-AllMatch [] matched w listed all = all
    scan_devices-AllMatch (device ∷ rest) matched w listed all =
        go (check_device os finder crc free fuel ctx device matched w)
          (check_device-AllMatch device matched w (listed.0) all)
          (λ matched' v all'. scan_devices-AllMatch rest matched' v (listed.1) all')
      where
        go :
            (o : Option (Option (List String) × W))
            → AllMatch o
            → ((matched' : List String) (v : W)
                → All IsMatch matched'
                → AllMatch (scan_devices os finder crc free fuel ctx rest matched' v))
            → AllMatch (elim o [
              | none ↦ none
              | some (none, w) ↦ some (none, w)
              | some (some matched', w) ↦ scan_devices os finder crc free fuel ctx rest matched' w
            ])
        go none h ih = tt
        go (some (none, v)) h ih = tt
        go (some (some matched', v)) h ih = ih matched' v h
