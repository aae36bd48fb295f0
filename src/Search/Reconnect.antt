-- ===== src/Search/Reconnect.antt =====
-- `wait_for_device_reconnect` of device.c: the devices that appear are compared with the device
-- under test until one matches. Nothing bounds the wait: the loop takes fuel.
use Prim.Native.String.{String}
use mfst.Common.{ℕ, zero, suc, ◌*◌, ◌%◌, ◌^◌, Bool, true, false, Option, none, some, List, ◌==◌}
use mfst.Context.{Context, device_info_set_device_name}
use mfst.Device.{DeviceSearchResult}
use mfst.Search.{DeviceFile}
use mfst.Search.Find.{BlockDevice, Finder, identify_and_close, with_number}

-- The result, or NULL, with the context.
abbrev pub Waited : Type 0 → Type 0
Waited W = Option DeviceSearchResult × (Context × W)

module _ {W : Type 0} (os : DeviceFile W) (finder : Finder W) (crc : ℕ → List ℕ → ℕ)
    (free : List ℕ → List ℕ) where
  unfoldable pub create_device_search_result : String → ℕ → ℕ → W → Option DeviceSearchResult × W
  create_device_search_result name device_num fd w =
      let grown = finder.allocate w in
      elim grown.0 [
        | false ↦ (none, grown.1)
        | true ↦
            let copy = finder.strdup name grown.1 in
            elim copy.0 [
              | none ↦ (none, copy.1)
              | some s ↦ (some record { device_name = s; device_num = device_num; fd = fd }, copy.1)
            ]
      ]

  -- The name copied once more into the context, and the result made.
  abbrev pub make_result : String → ℕ → ℕ → Bool × Context → W → Waited W
  make_result name device_num fd (false, ctx) w = (none, (ctx, finder.close fd w))
  make_result name device_num fd (true, ctx) w =
      let made = create_device_search_result name device_num fd w in
      (made.0, (with_number os finder crc free device_num fd ctx, made.1))

  -- A device that matches: it is taken, or passed over when it cannot be opened.
  unfoldable pub take_device : String → Context → W → Option (Waited W) × W
  take_device name ctx w =
      let num = finder.device_number name w in
      elim num.0 [
        | none ↦ (none, num.1)
        | some device_num ↦
            let opened = finder.open_device name true num.1 in
            elim opened.0 [
              | none ↦ (none, opened.1)
              | some fd ↦
                  let copy = finder.strdup name opened.1 in
                  elim copy.0 [
                    | none ↦ (some (none, (ctx, finder.close fd copy.1)), copy.1)
                    | some new_name ↦
                        let again = finder.strdup new_name copy.1 in
                        (
                          some (
                              make_result new_name device_num fd
                                (device_info_set_device_name ctx again.0) again.1),
                          again.1,
                        )
                  ]
            ]
      ]

  -- A device that has appeared: the end of the wait, or none to go on, with the world.
  unfoldable pub check_new : ℕ → Context → BlockDevice → W → Option (Option (Waited W) × W)
  check_new fuel ctx device w = elim device.devnode [
    | none ↦ some (none, w)
    | some name ↦ elim device.size [
      | none ↦ some (none, w)
      | some size ↦ elim (size * 512 % 2 ^ 64 == ctx.device_info.logical_size) [
        | false ↦ some (none, w)
        | true ↦
            let opened = finder.open_device name false w in
            elim opened.0 [
              | none ↦ some (none, opened.1)
              | some fd ↦ elim (identify_and_close os finder crc free fuel ctx fd opened.1) [
                | none ↦ none
                | some r ↦ elim (r.0) [
                  | false ↦ some (none, r.1)
                  | true ↦ some (take_device name ctx (r.1))
                ]
              ]
            ]
      ]
    ]
  ]

  -- `while(1)`
  unfoldable pub wait_loop : ℕ → Context → W → Option (Waited W)
  wait_loop zero ctx w = none
  wait_loop (suc fuel) ctx w =
      let r = finder.receive_device w in
      elim r.0 [
        | none ↦ wait_loop fuel ctx (finder.usleep r.1)
        | some device ↦ elim (check_new fuel ctx device r.1) [
          | none ↦ none
          | some (none, w') ↦ wait_loop fuel ctx w'
          | some (some waited, w') ↦ some waited
        ]
      ]

  unfoldable pub wait_for_device_reconnect : ℕ → Context → W → Option (Waited W)
  wait_for_device_reconnect fuel ctx w =
      let ready = finder.monitor w in
      elim ready.0 [ false ↦ some (none, (ctx, ready.1)) | true ↦ wait_loop fuel ctx ready.1 ]
