-- ===== src/Io.antt =====
-- Input and output on the device under test, mfst.c: `handle_device_disconnect` and the functions
-- that seek, read and write with retries, waiting for a device that is gone and resetting one that
-- fails. What they show on the screen and write to the log is left out.
--
-- A device that keeps going away keeps the loops running: they take fuel, and the result is `none`
-- when it is used up, or when a wait for the device has no end. `fuel` is the rounds of the loop itself, `inner` those of the loops it calls.
pub mod Transfers
pub mod Keeps
pub mod KeepsResets
pub mod KeepsAll
pub mod KeepsTransfers
pub mod FirstRound
pub mod Returns
pub mod ReturnsResets
pub mod ReturnsAll
pub mod ReturnsTransfers
pub mod ReturnsWrites
pub use mfst.Device.{andthen}
use mfst.Common.{
  ℕ, zero, suc, ◌+◌, Bool, true, false, ◌||◌, not, Option, none, some, List, [], ◌∷◌, if◌then◌else◌,
  ltb, ◌==◌,
}
use mfst.Context.{Context, device_info_set_device_name}
use mfst.Device.{
  DeviceSearchResult, Device, MainThreadStatus, device_disconnected, St, is_none, call, set_found,
  wait_for_device_reconnect, invalidate_file_handle, reset_device,
}

abbrev pub max_reset_retries : ℕ
max_reset_retries = 5

-- `if(device_was_disconnected) { *device_was_disconnected = 1; }`; `report` tells whether the
-- caller passes a pointer.
abbrev pub note_disconnect : {W : Type 0} → Bool → St W → St W
note_disconnect report st = record st {
  device_was_disconnected = report || st.device_was_disconnected;
}

module _ {W : Type 0} (dev : Device W) where
  abbrev is_gone : St W → Bool × St W
  is_gone st = call (dev.did_device_disconnect st.ctx.device_info.device_num) st

  -- The test of the functions that reset: gone, or left without a handle.
  abbrev is_gone_or_closed : St W → Bool × St W
  is_gone_or_closed st =
      let gone = is_gone st in (gone.0 || is_none gone.1.ctx.device_info.fd, gone.1)

  -- `handle_device_disconnect` from the result of the search up to the seek.
  unfoldable pub adopt : Option DeviceSearchResult → St W → Bool × St W
  adopt none st = (false, st)
  adopt (some found) st =
      let old = record st {
        ctx = record (st.ctx) { device_info = record (st.ctx.device_info) { fd = some found.fd } };
      } in
      let option = call (dev.strdup found.device_name) old in
      let copy =
        call (dev.strdup found.device_name) (record (option.1) { option_device_name = option.0 }) in
      let named = device_info_set_device_name copy.1.ctx copy.0 in
      let ctx = if named.0 then set_found found named.1 else named.1 in
      (named.0, record (copy.1) { ctx = ctx })

  -- `handle_device_disconnect` up to the seek: all of it, when `seek_after_reconnect` is 0.
  unfoldable pub reconnect : St W → Option (Bool × St W)
  reconnect st =
      let previous_status = st.main_thread_status in
      let closed =
        invalidate_file_handle dev (record st { main_thread_status = device_disconnected }) in
      andthen (wait_for_device_reconnect dev closed)
        λ found st. some (adopt found (record st { main_thread_status = previous_status }))

  -- The reset, with the status of the main thread around it.
  unfoldable pub reset_with_status : St W → Option (Bool × St W)
  reset_with_status st =
      let previous_status = st.main_thread_status in
      andthen (reset_device dev (record st { main_thread_status = device_disconnected }))
        λ ok st. some (ok, record st { main_thread_status = previous_status })

  -- The loop of `lseek_or_retry`.
  unfoldable pub lseek_retry_loop : ℕ → Bool → ℕ → Option ℕ → ℕ → St W → Option (Option ℕ × St W)
  lseek_retry_loop fuel report position (some offset) retry_count st = some (some offset, st)
  lseek_retry_loop zero report position none retry_count st =
      if ltb retry_count max_reset_retries then none else some (none, st)
  lseek_retry_loop (suc fuel) report position none retry_count st =
      elim (ltb retry_count max_reset_retries) [
        | false ↦ some (none, st)
        | true ↦
            let gone = is_gone st in
            elim gone.0 [
              | true ↦ andthen (reconnect (note_disconnect report gone.1)) λ back st. elim back [
                | true ↦ lseek_retry_loop fuel report position none retry_count st
                | false ↦ some (none, st)
              ]
              | false ↦
                  let ret = call (dev.lseek gone.1.ctx.device_info.fd position) gone.1 in
                  lseek_retry_loop fuel report position ret.0 (retry_count + 1) ret.1
            ]
      ]

  unfoldable pub lseek_or_retry : ℕ → Bool → ℕ → St W → Option (Option ℕ × St W)
  lseek_or_retry fuel report position st =
      let ret = call (dev.lseek st.ctx.device_info.fd position) st in
      lseek_retry_loop fuel report position ret.0 0 ret.1

  -- The loop of `lseek_or_reset_device`.
  unfoldable pub lseek_reset_loop :
      ℕ → ℕ → Bool → ℕ → Option ℕ → ℕ → St W → Option (Option ℕ × St W)
  lseek_reset_loop fuel inner report position (some offset) retry_count st = some (some offset, st)
  lseek_reset_loop zero inner report position none retry_count st =
      if ltb retry_count max_reset_retries then none else some (none, st)
  lseek_reset_loop (suc fuel) inner report position none retry_count st =
      elim (ltb retry_count max_reset_retries) [
        | false ↦ some (none, st)
        | true ↦
            let gone = is_gone_or_closed st in
            elim gone.0 [
              | true ↦ andthen (reconnect (note_disconnect report gone.1)) λ back st. elim back [
                | true ↦ lseek_reset_loop fuel inner report position none retry_count st
                | false ↦ some (none, st)
              ]
              | false ↦
                  let can = call (dev.can_reset_device gone.1.ctx) gone.1 in
                  elim can.0 [
                    | false ↦ some (none, can.1)
                    | true ↦ andthen (reset_with_status can.1) λ ok st. elim ok [
                      | false ↦ some (none, st)
                      | true ↦ andthen (lseek_or_retry inner report position st) λ ret st.
                          lseek_reset_loop fuel inner report position ret (retry_count + 1)
                            (note_disconnect report st)
                    ]
                  ]
            ]
      ]

  unfoldable pub lseek_or_reset_device : ℕ → Bool → ℕ → St W → Option (Option ℕ × St W)
  lseek_or_reset_device fuel report position st =
      andthen (lseek_or_retry fuel report position st)
        λ ret st. lseek_reset_loop fuel fuel report position ret 0 st

  unfoldable pub handle_device_disconnect : ℕ → ℕ → Bool → St W → Option (Bool × St W)
  handle_device_disconnect fuel position seek_after_reconnect st = andthen (reconnect st) λ back st.
      elim back [
        | false ↦ some (false, st)
        | true ↦ elim seek_after_reconnect [
          | false ↦ some (true, st)
          | true ↦
              andthen (lseek_or_reset_device fuel false position st)
                λ ret st. some (not (is_none ret), st)
        ]
      ]
