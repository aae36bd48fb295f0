-- ===== src/Io/KeepsTransfers.antt =====
-- `Keeps` for the functions that read and write, with their loops.
use mfst.Common.{
  ℕ, zero, suc, ◌+◌, true, false, Bool-cases, inl, inr, Option, none, some, List, ltb, ◌==◌,
}
use mfst.Device.{Device, St, is_none, call}
use mfst.Io.{
  max_reset_retries, note_disconnect, is_gone, is_gone_or_closed, reset_with_status, lseek_or_retry,
  handle_device_disconnect,
}
use mfst.Io.Transfers.{
  is_empty, read_retry_loop, read_or_retry, read_reset_loop, read_or_reset_device, write_retry_loop,
  write_or_retry, write_reset_loop, write_or_reset_device,
}
use mfst.Io.KeepsAll.{out_of_fuel, gone-Keeps, lseek_or_retry-Keeps, handle_device_disconnect-Keeps}
use mfst.Io.KeepsResets.{reset_with_status-Keeps}
use mfst.Io.Keeps.{
  Keeps, Ends, Keeps-refl, Keeps-trans, Keeps-call, Keeps-note, Ends-weaken, Ends-andthen,
  Ends-branch,
}

module _ {W : Type 0} (dev : Device W) where
  read_retry_loop-Keeps :
      (fuel inner count position : ℕ) (ret : Option (List ℕ)) (retry_count : ℕ) (st : St W)
      → Ends (Keeps st) (read_retry_loop dev fuel inner count position ret retry_count st)
  unfolding read_retry_loop
  read_retry_loop-Keeps zero inner count position ret retry_count st =
      elim (Bool-cases (is_empty ret)) [
        | inl e ↦ rw e (out_of_fuel dev (ltb retry_count max_reset_retries) ret st)
        | inr e ↦ rw e (Keeps-refl st)
      ]
  read_retry_loop-Keeps (suc fuel) inner count position ret retry_count st =
      let gone = is_gone dev st in
      let read = dev.read gone.1.ctx.device_info.fd count in
      let again = call read gone.1 in
      Ends-branch st (is_empty ret) _ _
        (Ends-branch st (ltb retry_count max_reset_retries) _ _
          (Ends-branch st gone.0 _ _
            (Ends-andthen st (handle_device_disconnect dev inner position true gone.1) _
              (Ends-weaken _ (gone-Keeps dev st)
                (handle_device_disconnect-Keeps dev inner position true gone.1))
              (λ back st'.
                Ends-branch st' back _ _
                  (read_retry_loop-Keeps fuel inner count position ret retry_count st')
                  (Keeps-refl st')))
            (Ends-weaken _ (Keeps-trans (gone-Keeps dev st) (Keeps-call read gone.1))
              (read_retry_loop-Keeps fuel inner count position again.0 (retry_count + 1) again.1)))
          (Keeps-refl st))
        (Keeps-refl st)

  pub read_or_retry-Keeps :
      (fuel count position : ℕ) (st : St W)
      → Ends (Keeps st) (read_or_retry dev fuel count position st)
  unfolding read_or_retry
  read_or_retry-Keeps fuel count position st =
      let f = dev.read st.ctx.device_info.fd count in
      let ret = call f st in
      Ends-weaken _ (Keeps-call f st) (read_retry_loop-Keeps fuel fuel count position ret.0 0 ret.1)

  read_reset_loop-Keeps :
      (fuel inner count position : ℕ) (ret : Option (List ℕ)) (retry_count : ℕ) (st : St W)
      → Ends (Keeps st) (read_reset_loop dev fuel inner count position ret retry_count st)
  unfolding read_reset_loop
  read_reset_loop-Keeps fuel inner count position (some x) retry_count st = Keeps-refl st
  read_reset_loop-Keeps zero inner count position none retry_count st =
      out_of_fuel dev (ltb retry_count max_reset_retries) none st
  read_reset_loop-Keeps (suc fuel) inner count position none retry_count st =
      let gone = is_gone_or_closed dev st in
      let can = call (dev.can_reset_device gone.1.ctx) gone.1 in
      let to_can =
        Keeps-trans (gone-Keeps dev st) (Keeps-call (dev.can_reset_device gone.1.ctx) gone.1) in
      Ends-branch st (ltb retry_count max_reset_retries) _ _
        (Ends-branch st gone.0 _ _
          (Ends-andthen st (handle_device_disconnect dev inner position true gone.1) _
            (Ends-weaken _ (gone-Keeps dev st)
              (handle_device_disconnect-Keeps dev inner position true gone.1))
            (λ back st'.
              Ends-branch st' back _ _
                (read_reset_loop-Keeps fuel inner count position none retry_count st')
                (Keeps-refl st')))
          (Ends-branch st can.0 _ _
            (Ends-andthen st (reset_with_status dev can.1) _
              (Ends-weaken _ to_can (reset_with_status-Keeps dev can.1))
              (λ ok st₁.
                Ends-branch st₁ ok _ _
                  (Ends-andthen st₁ (lseek_or_retry dev inner false position st₁) _
                    (lseek_or_retry-Keeps dev inner false position st₁)
                    (λ offset st'. Ends-branch st' (is_none offset) _ _ (Keeps-refl st') (
                      Ends-andthen st' (read_or_retry dev inner count position st') _
                        (read_or_retry-Keeps inner count position st')
                        (λ ret st''.
                          read_reset_loop-Keeps fuel inner count position ret (retry_count + 1)
                            st''))))
                  (read_reset_loop-Keeps fuel inner count position none max_reset_retries st₁)))
            to_can))
        (Keeps-refl st)

  -- When read_or_reset_device ends, the status of the main thread is the one from before, nothing
  -- in the context has changed but the handle, the name and the number of the device, and a
  -- disconnection that was noted stays noted, however the device behaves.
  pub read_or_reset_device-Keeps :
      (fuel count position : ℕ) (st : St W)
      → Ends (Keeps st) (read_or_reset_device dev fuel count position st)
  unfolding read_or_reset_device
  read_or_reset_device-Keeps fuel count position st =
      Ends-andthen st (read_or_retry dev fuel count position st) _
        (read_or_retry-Keeps fuel count position st)
        (λ ret st'. read_reset_loop-Keeps fuel fuel count position ret 0 st')

  write_retry_loop-Keeps :
      (fuel inner : ℕ) (buf : List ℕ) (position : ℕ) (ret : Option ℕ) (retry_count : ℕ) (st : St W)
      → Ends (Keeps st) (write_retry_loop dev fuel inner buf position ret retry_count st)
  unfolding write_retry_loop
  write_retry_loop-Keeps fuel inner buf position (some n) retry_count st = Keeps-refl st
  write_retry_loop-Keeps zero inner buf position none retry_count st =
      out_of_fuel dev (ltb retry_count max_reset_retries) none st
  write_retry_loop-Keeps (suc fuel) inner buf position none retry_count st =
      let gone = is_gone dev st in
      let noted = note_disconnect true gone.1 in
      let to_noted = Keeps-trans (gone-Keeps dev st) (Keeps-note true gone.1) in
      let write = dev.write gone.1.ctx.device_info.fd buf in
      let again = call write gone.1 in
      Ends-branch st (ltb retry_count max_reset_retries) _ _
        (Ends-branch st gone.0 _ _
          (Ends-branch st (noted.ctx.endurance_test_info.rounds_completed == 0) _ _ to_noted (
            Ends-andthen st (handle_device_disconnect dev inner position true noted) _
              (Ends-weaken _ to_noted
                (handle_device_disconnect-Keeps dev inner position true noted))
              (λ back st'.
                Ends-branch st' back _ _
                  (write_retry_loop-Keeps fuel inner buf position none retry_count st')
                  (Keeps-refl st'))))
          (Ends-weaken _ (Keeps-trans (gone-Keeps dev st) (Keeps-call write gone.1))
            (write_retry_loop-Keeps fuel inner buf position again.0 (retry_count + 1) again.1)))
        (Keeps-refl st)

  pub write_or_retry-Keeps :
      (fuel : ℕ) (buf : List ℕ) (position : ℕ) (st : St W)
      → Ends (Keeps st) (write_or_retry dev fuel buf position st)
  unfolding write_or_retry
  write_or_retry-Keeps fuel buf position st =
      let f = dev.write st.ctx.device_info.fd buf in
      let ret = call f st in
      Ends-weaken _ (Keeps-call f st) (write_retry_loop-Keeps fuel fuel buf position ret.0 0 ret.1)

  write_reset_loop-Keeps :
      (fuel inner : ℕ) (buf : List ℕ) (position : ℕ) (ret : Option ℕ) (retry_count : ℕ) (st : St W)
      → Ends (Keeps st) (write_reset_loop dev fuel inner buf position ret retry_count st)
  unfolding write_reset_loop
  write_reset_loop-Keeps fuel inner buf position (some n) retry_count st = Keeps-refl st
  write_reset_loop-Keeps zero inner buf position none retry_count st =
      out_of_fuel dev (ltb retry_count max_reset_retries) none st
  write_reset_loop-Keeps (suc fuel) inner buf position none retry_count st =
      let gone = is_gone_or_closed dev st in
      let to_gone = gone-Keeps dev st in
      let noted = note_disconnect true gone.1 in
      let to_noted = Keeps-trans to_gone (Keeps-note true gone.1) in
      let can = call (dev.can_reset_device gone.1.ctx) gone.1 in
      let to_can = Keeps-trans to_gone (Keeps-call (dev.can_reset_device gone.1.ctx) gone.1) in
      Ends-branch st (ltb retry_count max_reset_retries) _ _
        (Ends-branch st gone.0 _ _
          (Ends-branch st (noted.ctx.endurance_test_info.rounds_completed == 0) _ _ to_noted (
            Ends-andthen st (handle_device_disconnect dev inner position true noted) _
              (Ends-weaken _ to_noted
                (handle_device_disconnect-Keeps dev inner position true noted))
              (λ back st'.
                Ends-branch st' back _ _
                  (write_reset_loop-Keeps fuel inner buf position none retry_count st')
                  (Keeps-refl st'))))
          (Ends-branch st (gone.1.ctx.endurance_test_info.rounds_completed == 0) _ _ to_gone (
            Ends-branch st can.0 _ _
              (Ends-andthen st (reset_with_status dev can.1) _
                (Ends-weaken _ to_can (reset_with_status-Keeps dev can.1))
                (λ ok st₁.
                  Ends-branch st₁ ok _ _
                    (Ends-andthen st₁ (lseek_or_retry dev inner true position st₁) _
                      (lseek_or_retry-Keeps dev inner true position st₁)
                      (λ offset st'. Ends-branch st' (is_none offset) _ _ (Keeps-refl st') (
                        Ends-andthen st' (write_or_retry dev inner buf position st') _
                          (write_or_retry-Keeps inner buf position st')
                          (λ ret st''. Ends-weaken _ (Keeps-note true st'') (
                            write_reset_loop-Keeps fuel inner buf position ret (retry_count + 1)
                              (note_disconnect true st''))))))
                    (Ends-weaken _ (Keeps-note true st₁) (
                      write_reset_loop-Keeps fuel inner buf position none max_reset_retries
                        (note_disconnect true st₁)))))
              to_can)))
        (Keeps-refl st)

  -- When write_or_reset_device ends, the status of the main thread is the one from before, nothing
  -- in the context has changed but the handle, the name and the number of the device, and a
  -- disconnection that was noted stays noted, however the device behaves.
  pub write_or_reset_device-Keeps :
      (fuel : ℕ) (buf : List ℕ) (position : ℕ) (st : St W)
      → Ends (Keeps st) (write_or_reset_device dev fuel buf position st)
  unfolding write_or_reset_device
  write_or_reset_device-Keeps fuel buf position st =
      Ends-andthen st (write_or_retry dev fuel buf position st) _
        (write_or_retry-Keeps fuel buf position st)
        (λ ret st'. write_reset_loop-Keeps fuel fuel buf position ret 0 st')
