-- ===== src/Search/Adopts.antt =====
-- The device that find_device takes, when it looks among all devices.
use Prim.Native.String.{String}
use mfst.Common.{
  ℕ, ◌≡◌, refl, ap, Bool, true, false, Option, none, some, List, [], ◌∷◌, All, if◌then◌else◌, subst,
}
use mfst.Context.{Context, device_info_set_device_name}
use mfst.Search.{DeviceFile}
use mfst.Search.Find.{
  BlockDevice, Finder, Outcome, scan_devices, name_device, adopt_opened, adopt_numbered,
  adopt_device, pick_preferred, adopt_picked, take_matched, take_scanned, find_listed,
  find_among_all, find_device,
}
use mfst.Search.Matches.{IsMatch, AllMatch, scan_devices-AllMatch}

module _ {W : Type 0} (os : DeviceFile W) (finder : Finder W) (crc : ℕ → List ℕ → ℕ)
    (free : List ℕ → List ℕ) (fuel : ℕ) (ctx : Context) (InList : BlockDevice → Type 0)
    (copies : (s t : String) (w : W) → (finder.strdup s w).0 ≡ some t → t ≡ s) where
  -- The name in the context is that of a matching device.
  abbrev pub Adopted : Context → Type 0
  Adopted c =
      (name : String) × (IsMatch os finder crc free fuel ctx InList name
        × (c.device_info.device_name ≡ some name))

  -- A search that succeeds has adopted.
  abbrev pub Adopts : Option (Outcome W) → Type 0
  Adopts none = Unit
  Adopts (some (some errno, r)) = Unit
  Adopts (some (none, (c, w))) = Adopted c

  adopt_device-Adopts :
      (name : String) (w : W)
      → IsMatch os finder crc free fuel ctx InList name
      → Adopts (some (adopt_device os finder crc free name ctx w))
  unfolding adopt_device device_info_set_device_name
  adopt_device-Adopts name w h =
      numbered (finder.device_number name w).0 (finder.device_number name w).1
    where
      copied :
          (num fd : ℕ) (o : Option String) (v : W)
          → ((t : String) → o ≡ some t → t ≡ name)
          → Adopts
              (some (name_device os finder crc free num fd (device_info_set_device_name ctx o) v))
      copied num fd none v e = tt
      copied num fd (some t) v e = (name, (h, ap some (e t refl)))

      opened :
          (num : ℕ) (o : Option ℕ) (v : W)
          → Adopts (some (adopt_opened os finder crc free name num ctx o v))
      opened num none v = tt
      opened num (some fd) v =
          copied num fd (finder.strdup name v).0 (finder.strdup name v).1 (λ t e. copies name t v e)

      numbered :
          (o : Option ℕ) (v : W) → Adopts (some (adopt_numbered os finder crc free name ctx o v))
      numbered none v = tt
      numbered (some num) v =
          opened num (finder.open_device name true v).0 (finder.open_device name true v).1

  -- The name that was picked, if any, is one of the list.
  abbrev Picked : Option String → Type 0
  Picked none = Unit
  Picked (some name) = IsMatch os finder crc free fuel ctx InList name

  pick_preferred-Picked :
      (preferred : String) (names : List String) (picked : Option String) (w : W)
      → All (IsMatch os finder crc free fuel ctx InList) names
      → Picked picked
      → Picked (pick_preferred os finder crc free preferred names picked w).0
  unfolding pick_preferred
  pick_preferred-Picked preferred [] picked w all h = h
  pick_preferred-Picked preferred (name ∷ rest) picked w all h =
      pick_preferred-Picked preferred rest _ _ (all.1) (choose _)
    where
      choose : (b : Bool) → Picked (if b then some name else picked)
      choose true = all.0
      choose false = h

  take_matched-Adopts :
      (preferred : Option String) (names : List String) (w : W)
      → All (IsMatch os finder crc free fuel ctx InList) names
      → Adopts (some (take_matched os finder crc free preferred ctx names w))
  unfolding take_matched
  take_matched-Adopts preferred [] w all = tt
  take_matched-Adopts preferred (name ∷ []) w all = adopt_device-Adopts name w (all.0)
  take_matched-Adopts none (name ∷ other ∷ rest) w all = tt
  take_matched-Adopts (some preferred) (name ∷ other ∷ rest) w all =
      go (pick_preferred os finder crc free preferred (name ∷ other ∷ rest) none w).0
        (pick_preferred os finder crc free preferred (name ∷ other ∷ rest) none w).1
        (pick_preferred-Picked preferred (name ∷ other ∷ rest) none w all tt)
    where
      go :
          (o : Option String) (v : W)
          → Picked o
          → Adopts (some (adopt_picked os finder crc free ctx (o, v)))
      go none v h = tt
      go (some picked) v h = adopt_device-Adopts picked v h

  take_scanned-Adopts :
      (preferred : Option String) (o : Option (Option (List String) × W))
      → AllMatch os finder crc free fuel ctx InList copies o
      → Adopts (take_scanned os finder crc free preferred ctx o)
  take_scanned-Adopts preferred none h = tt
  take_scanned-Adopts preferred (some (none, w)) h = tt
  take_scanned-Adopts preferred (some (some names, w)) h = take_matched-Adopts preferred names w h

  -- When find_device succeeds in a search among all devices, the name in the context is that of a
  -- block device of the list, of the reported size of the device under test, that was opened and
  -- then found to match by its data or its UUIDs; the copies that strdup makes are equal to what
  -- they copy.
  pub find_device-Adopted :
      (preferred : Option String) (w w' : W) (c : Context)
      → ((devices : List BlockDevice)
          → (finder.block_devices w).0 ≡ some devices
          → All InList devices)
      → find_device os finder crc free fuel preferred false ctx w ≡ some (none, (c, w'))
      → Adopted c
  unfolding find_device find_among_all
  find_device-Adopted preferred w w' c listed e =
      subst Adopts e (go (finder.block_devices w).0 refl)
    where
      v : W
      v = (finder.block_devices w).1

      go :
          (o : Option (List BlockDevice))
          → (finder.block_devices w).0 ≡ o
          → Adopts (find_listed os finder crc free fuel preferred ctx o v)
      go none h = tt
      go (some devices) h =
          take_scanned-Adopts preferred (scan_devices os finder crc free fuel ctx devices [] v) (
            scan_devices-AllMatch os finder crc free fuel ctx InList copies devices [] v
              (listed devices h) tt)
