-- ===== src/Io/ReturnsResets.antt =====
-- What a reset of the device leaves of the times that the device can come back.
use mfst.Common.{ℕ, ◌≤◌, arith, Bool, true, false, Bool-cases, inl, inr, Option, none, some}
use mfst.Context.{device_info_set_device_name}
use mfst.Device.{
  DeviceSearchResult, Errno, enoent, enodev, enotuniq, other_error, Device, device_disconnected, St,
  call, invalidate_file_handle, wait_for_device_reconnect, take_match, find_device, after_reset,
  after_usb_reset, with_usb_device, reset_device,
}
use mfst.Io.{reset_with_status}
use mfst.Io.Returns.{ComesBack, Yields, Yields-andthen, Below, Found, invalidate-left, wait-returns}

module _ {W : Type 0} (dev : Device W) (left : W → ℕ) (back : ComesBack dev left) where
  take_match-left :
      (found : Option DeviceSearchResult) (e : Errno) (st : St W)
      → left (take_match dev found e st).1.world ≤ left st.world
  unfolding take_match
  take_match-left none e st = omega arith
  take_match-left (some found) e st =
      let copy = dev.strdup found.device_name st.world in
      elim (Bool-cases (device_info_set_device_name st.ctx copy.0).0) [
        | inl t ↦ rw t (back.strdup found.device_name st.world)
        | inr t ↦
            rw t (omega (arith, back.strdup found.device_name st.world, back.close found.fd copy.1))
      ]

  after_reset-returns :
      (b : Bool) (e : Errno) (st : St W)
      → Yields (Below dev left back (left st.world)) (after_reset dev b e st)
  unfolding after_reset
  after_reset-returns true e st = omega arith
  after_reset-returns false enoent st =
      Yields-andthen (Found dev left back (left st.world)) (Below dev left back (left st.world))
        (wait_for_device_reconnect dev st) _ (wait-returns dev left back st)
        λ found st' h. below found st' h
    where
      below :
          (found : Option DeviceSearchResult) (st' : St W)
          → Found dev left back (left st.world) found st'
          → left st'.world ≤ left st.world
      below none st' h = h
      below (some found) st' h = omega arith
  after_reset-returns false enotuniq st = omega arith
  after_reset-returns false enodev st = omega arith
  after_reset-returns false other_error st = omega arith

  Below-weaken :
      (n : ℕ) (st : St W) (o : Option (Bool × St W))
      → left st.world ≤ n
      → Yields (Below dev left back (left st.world)) o
      → Yields (Below dev left back n) o
  Below-weaken n st (some r) le h = omega arith
  Below-weaken n st none le h = h

  after_usb_reset-returns :
      (b : Bool) (st : St W)
      → Yields (Below dev left back (left st.world)) (after_usb_reset dev b st)
  unfolding after_usb_reset find_device
  after_usb_reset-returns false st = omega arith
  after_usb_reset-returns true st =
      let r = dev.search_device st.ctx st.option_device_name st.world in
      let searched = record st { world = r.2 } in
      let found = take_match dev r.0 r.1 searched in
      Below-weaken (left st.world) found.1 (after_reset dev found.0.0 found.0.1 found.1)
        (omega (
          arith,
          back.search st.ctx st.option_device_name st.world,
          take_match-left r.0 r.1 searched,
        ))
        (after_reset-returns found.0.0 found.0.1 found.1)

  with_usb_device-returns :
      (fd : Option ℕ) (st : St W)
      → Yields (Below dev left back (left st.world)) (with_usb_device dev fd st)
  unfolding with_usb_device
  with_usb_device-returns none st = omega arith
  with_usb_device-returns (some fd) st =
      let closed = invalidate_file_handle dev st in
      let reset = call (dev.usb_reset fd) closed in
      let next = record (reset.1) { world = dev.close fd reset.1.world } in
      Below-weaken (left st.world) next (after_usb_reset dev reset.0 next)
        (omega (
          arith,
          invalidate-left dev left back st,
          back.usb_reset fd closed.world,
          back.close fd reset.1.world,
        ))
        (after_usb_reset-returns reset.0 next)

  pub reset-returns :
      (st : St W) → Yields (Below dev left back (left st.world)) (reset_with_status dev st)
  unfolding reset_with_status reset_device
  reset-returns st =
      let waiting = record st { main_thread_status = device_disconnected } in
      let usb = call (dev.open_usb_device st.ctx.device_info.fd) waiting in
      Yields-andthen (Below dev left back (left usb.1.world)) (Below dev left back (left st.world))
        (with_usb_device dev usb.0 usb.1) _ (with_usb_device-returns usb.0 usb.1)
        λ ok st' l. omega (arith, l, back.open_usb st.ctx.device_info.fd st.world)
