-- ===== src/Device.antt =====
-- What the program asks of the operating system about the device under test: the system calls on
-- its file handle, the functions of device.c that look for it with libudev, and `save_state`. They are an
-- interface over a type `W` of states of the world, which every client takes as a parameter; each
-- operation gives the next world. A failed call, -1 in the source, is `none`.
--
-- `open_usb_device` stands for the beginning of `reset_device`, up to the handle of the parent USB
-- device that it opens; `receive_match` for `wait_for_device_reconnect` up to a device that matches,
-- which Search/Reconnect models.
use Prim.Native.String.{String}
use mfst.Common.{ℕ, Bool, true, false, Option, none, some, List, not, if◌then◌else◌}
use mfst.Context.{Context, device_info_invalidate_file_handle, device_info_set_device_name}

-- device_search_result_t of device.h
pub record DeviceSearchResult : Type 0 where
  pub device_name : String
  pub device_num : ℕ
  pub fd : ℕ

-- The values of `errno` that the callers of `find_device` tell apart.
pub data Errno : Type 0 where
  enoent enodev enotuniq other_error : Errno

pub record Device (W : Type 0) : Type 0 where
  pub lseek : Option ℕ → ℕ → W → Option ℕ × W
  -- `lseek(fd, 0, SEEK_CUR)`
  pub tell : Option ℕ → W → Option ℕ × W
  pub read : Option ℕ → ℕ → W → Option (List ℕ) × W
  pub write : Option ℕ → List ℕ → W → Option ℕ × W
  pub close : ℕ → W → W
  pub strdup : String → W → Option String × W
  pub did_device_disconnect : ℕ → W → Bool × W
  -- The loop of `wait_for_device_reconnect`, up to the first copy of the name: the device that
  -- matches, or none for NULL. Nothing bounds the wait: none when it has no end.
  pub receive_match : Context → W → Option (Option DeviceSearchResult × W)
  pub create_device_search_result : DeviceSearchResult → W → Option DeviceSearchResult × W
  -- `save_state` of state.c: whether it returns 0.
  pub save_state : Context → W → Bool × W
  pub can_reset_device : Context → W → Bool × W
  pub open_usb_device : Option ℕ → W → Option ℕ × W
  pub usb_reset : ℕ → W → Bool × W
  -- The search of `find_device`: the one device that matches, or `errno`.
  pub search_device : Context → Option String → W → Option DeviceSearchResult × Errno × W

-- main_thread_status_type of mfst.h
pub data MainThreadStatus : Type 0 where
  idle paused writing reading device_disconnected ending : MainThreadStatus

-- What the functions below read and change. `device_was_disconnected` is the variable that the
-- callers pass a pointer to, `option_device_name` is `program_options.device_name`.
pub record St (W : Type 0) : Type 0 where
  pub ctx : Context
  pub world : W
  pub main_thread_status : MainThreadStatus
  pub device_was_disconnected : Bool
  pub option_device_name : Option String

abbrev pub is_none : {A : Type 0} → Option A → Bool
is_none none = true
is_none (some a) = false

-- A call of the operating system.
abbrev pub call : {W A : Type 0} → (W → A × W) → St W → A × St W
call f st = let r = f st.world in (r.0, record st { world = r.1 })

-- Assignments to fields of `device_info`.
abbrev pub set_found : DeviceSearchResult → Context → Context
set_found found ctx = record ctx {
  device_info = record (ctx.device_info) { fd = some found.fd; device_num = found.device_num };
}

-- The next step of a function, when the one before has returned.
abbrev pub andthen :
    {W A B : Type 0} → Option (A × St W) → (A → St W → Option (B × St W)) → Option (B × St W)
andthen none next = none
andthen (some r) next = next r.0 r.1

module _ {W : Type 0} (dev : Device W) where
  unfoldable pub close_handle : Option ℕ → W → W
  close_handle none w = w
  close_handle (some fd) w = dev.close fd w

  -- `device_info_invalidate_file_handle` with the `close` that it does.
  unfoldable pub invalidate_file_handle : St W → St W
  invalidate_file_handle st =
      let r = device_info_invalidate_file_handle st.ctx in
      record st { ctx = r.1; world = close_handle r.0 st.world }

  -- `find_device`, from the result of its search on: the name is copied, and the handle is closed
  -- again when that fails.
  unfoldable pub take_match : Option DeviceSearchResult → Errno → St W → (Bool × Errno) × St W
  take_match none e st = ((false, e), st)
  take_match (some found) e st =
      let copy = call (dev.strdup found.device_name) st in
      let named = device_info_set_device_name st.ctx copy.0 in
      (
        (named.0, if named.0 then e else other_error),
        record (copy.1) {
          ctx = if named.0 then set_found found named.1 else named.1;
          world = if named.0 then copy.1.world else dev.close found.fd copy.1.world;
        },
      )

  unfoldable pub find_device : Option String → St W → (Bool × Errno) × St W
  find_device preferred st =
      let r = dev.search_device st.ctx preferred st.world in
      take_match r.0 r.1 (record st { world = r.2 })

  -- `wait_for_device_reconnect` from the match on: the name, the number and the handle are stored,
  -- and then the result is made, which may fail.
  unfoldable pub store_match : Option DeviceSearchResult → St W → Option DeviceSearchResult × St W
  store_match none st = (none, st)
  store_match (some found) st =
      let copy = call (dev.strdup found.device_name) st in
      let named = device_info_set_device_name st.ctx copy.0 in
      elim named.0 [
        | false ↦ (none, record (copy.1) { ctx = named.1; world = dev.close found.fd copy.1.world })
        | true ↦
            call (dev.create_device_search_result found)
              (record (copy.1) { ctx = set_found found named.1 })
      ]

  -- The result, or NULL; none when the wait has no end.
  unfoldable pub wait_for_device_reconnect : St W → Option (Option DeviceSearchResult × St W)
  wait_for_device_reconnect st = elim (dev.receive_match st.ctx st.world) [
    | none ↦ none
    | some r ↦ some (store_match r.0 (record st { world = r.1 }))
  ]

  -- The end of `reset_device`, by what `find_device` returned.
  unfoldable pub after_reset : Bool → Errno → St W → Option (Bool × St W)
  after_reset true e st = some (true, st)
  after_reset false enoent st =
      andthen (wait_for_device_reconnect st) λ found st. some (not (is_none found), st)
  after_reset false enotuniq st = some (false, st)
  after_reset false enodev st = some (true, st)
  after_reset false other_error st = some (true, st)

  -- `reset_device` by what USBDEVFS_RESET gave.
  unfoldable pub after_usb_reset : Bool → St W → Option (Bool × St W)
  after_usb_reset false st = some (false, st)
  after_usb_reset true st =
      let found = find_device st.option_device_name st in after_reset found.0.0 found.0.1 found.1

  -- `reset_device` from the handle of the USB device on.
  unfoldable pub with_usb_device : Option ℕ → St W → Option (Bool × St W)
  with_usb_device none st = some (false, st)
  with_usb_device (some fd) st =
      let reset = call (dev.usb_reset fd) (invalidate_file_handle st) in
      after_usb_reset reset.0 (record (reset.1) { world = dev.close fd reset.1.world })

  -- `reset_device`: whether it returns 0; none when it waits without end.
  unfoldable pub reset_device : St W → Option (Bool × St W)
  reset_device st =
      let usb = call (dev.open_usb_device st.ctx.device_info.fd) st in with_usb_device usb.0 usb.1
