-- ===== src/Io/KeepsAll.antt =====
-- `Keeps` for the functions that seek, with their loops.
use mfst.Common.{ℕ, zero, suc, ◌+◌, Bool, true, false, Option, none, some, ltb, if◌then◌else◌}
use mfst.Device.{Device, St, call}
use mfst.Io.{
  max_reset_retries, note_disconnect, is_gone, is_gone_or_closed, reconnect, reset_with_status,
  lseek_or_retry, lseek_reset_loop, lseek_or_reset_device, handle_device_disconnect,
}
use mfst.Io.KeepsResets.{reset_with_status-Keeps}
use mfst.Io.Keeps.{
  Keeps, Ends, Keeps-refl, Keeps-trans, Keeps-call, Keeps-note, Ends-weaken, Ends-andthen,
  Ends-branch, reconnect-Keeps, lseek_retry_loop-Keeps,
}

module _ {W : Type 0} (dev : Device W) where
  pub out_of_fuel :
      {A : Type 0} (b : Bool) (a : A) (st : St W)
      → Ends (Keeps st) (if b then none else some (a, st))
  out_of_fuel true a st = tt
  out_of_fuel false a st = Keeps-refl st

  pub gone-Keeps : (st : St W) → Keeps st (is_gone dev st).1
  gone-Keeps st = Keeps-call (dev.did_device_disconnect st.ctx.device_info.device_num) st

  pub lseek_or_retry-Keeps :
      (fuel : ℕ) (report : Bool) (position : ℕ) (st : St W)
      → Ends (Keeps st) (lseek_or_retry dev fuel report position st)
  unfolding lseek_or_retry
  lseek_or_retry-Keeps fuel report position st =
      let f = dev.lseek st.ctx.device_info.fd position in
      let ret = call f st in
      Ends-weaken _ (Keeps-call f st)
        (lseek_retry_loop-Keeps dev fuel report position ret.0 0 ret.1)

  lseek_reset_loop-Keeps :
      (fuel inner : ℕ) (report : Bool) (position : ℕ) (ret : Option ℕ) (retry_count : ℕ) (st : St W)
      → Ends (Keeps st) (lseek_reset_loop dev fuel inner report position ret retry_count st)
  unfolding lseek_reset_loop
  lseek_reset_loop-Keeps fuel inner report position (some x) retry_count st = Keeps-refl st
  lseek_reset_loop-Keeps zero inner report position none retry_count st =
      out_of_fuel (ltb retry_count max_reset_retries) none st
  lseek_reset_loop-Keeps (suc fuel) inner report position none retry_count st =
      let gone = is_gone_or_closed dev st in
      let noted = note_disconnect report gone.1 in
      let to_noted = Keeps-trans (gone-Keeps st) (Keeps-note report gone.1) in
      let can = call (dev.can_reset_device gone.1.ctx) gone.1 in
      let to_can =
        Keeps-trans (gone-Keeps st) (Keeps-call (dev.can_reset_device gone.1.ctx) gone.1) in
      Ends-branch st (ltb retry_count max_reset_retries) _ _
        (Ends-branch st gone.0 _ _
          (Ends-andthen st (reconnect dev noted) _
            (Ends-weaken _ to_noted (reconnect-Keeps dev noted))
            (λ back st'.
              Ends-branch st' back _ _
                (lseek_reset_loop-Keeps fuel inner report position none retry_count st')
                (Keeps-refl st')))
          (Ends-branch st can.0 _ _
            (Ends-andthen st (reset_with_status dev can.1) _
              (Ends-weaken _ to_can (reset_with_status-Keeps dev can.1))
              (λ ok st'.
                Ends-branch st' ok _ _
                  (Ends-andthen st' (lseek_or_retry dev inner report position st') _
                    (lseek_or_retry-Keeps inner report position st')
                    (λ ret st''. Ends-weaken _ (Keeps-note report st'') (
                      lseek_reset_loop-Keeps fuel inner report position ret (retry_count + 1)
                        (note_disconnect report st''))))
                  (Keeps-refl st')))
            to_can))
        (Keeps-refl st)

  pub lseek_or_reset_device-Keeps :
      (fuel : ℕ) (report : Bool) (position : ℕ) (st : St W)
      → Ends (Keeps st) (lseek_or_reset_device dev fuel report position st)
  unfolding lseek_or_reset_device
  lseek_or_reset_device-Keeps fuel report position st =
      Ends-andthen st (lseek_or_retry dev fuel report position st) _
        (lseek_or_retry-Keeps fuel report position st)
        (λ ret st'. lseek_reset_loop-Keeps fuel fuel report position ret 0 st')

  pub handle_device_disconnect-Keeps :
      (fuel position : ℕ) (seek : Bool) (st : St W)
      → Ends (Keeps st) (handle_device_disconnect dev fuel position seek st)
  unfolding handle_device_disconnect
  handle_device_disconnect-Keeps fuel position seek st =
      Ends-andthen st (reconnect dev st) _ (reconnect-Keeps dev st) λ back st'.
        Ends-branch st' back _ _
          (Ends-branch st' seek _ _
            (Ends-andthen st' (lseek_or_reset_device dev fuel false position st') _
              (lseek_or_reset_device-Keeps fuel false position st') (λ ret st''. Keeps-refl st''))
            (Keeps-refl st'))
          (Keeps-refl st')
