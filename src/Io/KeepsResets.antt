-- ===== src/Io/KeepsResets.antt =====
-- `Keeps` for a reset of the device.
use mfst.Common.{ℕ, refl, ◌∙◌, Bool, true, false, Option, none, some}
use mfst.Context.{device_info_set_device_name, device_info_invalidate_file_handle}
use mfst.Device.{
  DeviceSearchResult, Errno, enoent, enodev, enotuniq, other_error, Device, device_disconnected, St,
  call, invalidate_file_handle, wait_for_device_reconnect, take_match, find_device, after_reset,
  after_usb_reset, with_usb_device, reset_device,
}
use mfst.Io.{reset_with_status}
use mfst.Io.Keeps.{
  Keeps, Ends, Keeps-refl, Ends-weaken, Ends-andthen, restores, settled-set_found,
  settled-set_device_name, wait-Keeps,
}

module _ {W : Type 0} (dev : Device W) where
  take_match-Keeps :
      (found : Option DeviceSearchResult) (e : Errno) (st : St W)
      → Keeps st (take_match dev found e st).1
  unfolding take_match
  take_match-Keeps none e st = Keeps-refl st
  take_match-Keeps (some found) e st =
      let copy = dev.strdup found.device_name st.world in
      let named = device_info_set_device_name st.ctx copy.0 in
      record {
        same_status = refl;
        same_context =
            settled-set_found named.0 found named.1 ∙ settled-set_device_name st.ctx copy.0;
        still_noted = λ h. h;
      }

  after_reset-Keeps : (b : Bool) (e : Errno) (st : St W) → Ends (Keeps st) (after_reset dev b e st)
  unfolding after_reset
  after_reset-Keeps true e st = Keeps-refl st
  after_reset-Keeps false enoent st =
      Ends-andthen st (wait_for_device_reconnect dev st) _ (wait-Keeps dev st)
        (λ found st'. Keeps-refl st')
  after_reset-Keeps false enotuniq st = Keeps-refl st
  after_reset-Keeps false enodev st = Keeps-refl st
  after_reset-Keeps false other_error st = Keeps-refl st

  after_usb_reset-Keeps : (b : Bool) (st : St W) → Ends (Keeps st) (after_usb_reset dev b st)
  unfolding after_usb_reset find_device
  after_usb_reset-Keeps false st = Keeps-refl st
  after_usb_reset-Keeps true st =
      let r = dev.search_device st.ctx st.option_device_name st.world in
      let searched = record st { world = r.2 } in
      let found = take_match dev r.0 r.1 searched in
      Ends-weaken {b = searched} _
        (record { same_status = refl; same_context = refl; still_noted = λ h. h })
        (Ends-weaken _ (take_match-Keeps r.0 r.1 searched)
          (after_reset-Keeps found.0.0 found.0.1 found.1))

  with_usb_device-Keeps : (fd : Option ℕ) (st : St W) → Ends (Keeps st) (with_usb_device dev fd st)
  unfolding with_usb_device invalidate_file_handle device_info_invalidate_file_handle
  with_usb_device-Keeps none st = Keeps-refl st
  with_usb_device-Keeps (some fd) st =
      let reset = call (dev.usb_reset fd) (invalidate_file_handle dev st) in
      let closed = record (reset.1) { world = dev.close fd reset.1.world } in
      Ends-weaken {b = closed} _
        (record { same_status = refl; same_context = refl; still_noted = λ h. h })
        (after_usb_reset-Keeps reset.0 closed)

  pub reset_with_status-Keeps : (st : St W) → Ends (Keeps st) (reset_with_status dev st)
  unfolding reset_with_status reset_device
  reset_with_status-Keeps st =
      let waiting = record st { main_thread_status = device_disconnected } in
      let usb = call (dev.open_usb_device st.ctx.device_info.fd) waiting in
      restores st usb.1 refl (λ h. h) (with_usb_device dev usb.0 usb.1)
        (with_usb_device-Keeps usb.0 usb.1) (λ ok st'. (ok, st')) (λ ok st'. Keeps-refl st')
