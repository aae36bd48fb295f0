-- ===== src/Io/ReturnsAll.antt =====
-- Enough fuel for the functions that seek, with their loops, and for `handle_device_disconnect`.
use mfst.Common.{
  ℕ, zero, suc, ◌+◌, ◌≤◌, ◌≡◌, arith, Bool, true, false, not, Option, none, some, ltb,
  if◌then◌else◌,
}
use mfst.Device.{Device, St, is_none, call}
use mfst.Io.{
  max_reset_retries, note_disconnect, is_gone, is_gone_or_closed, reconnect, reset_with_status,
  lseek_retry_loop, lseek_or_retry, lseek_reset_loop, lseek_or_reset_device,
  handle_device_disconnect,
}
use mfst.Io.ReturnsResets.{reset-returns}
use mfst.Io.Returns.{
  ComesBack, Yields, Yields-andthen, Yields-branch, Below, Back, Back-lt, reconnect-returns,
  Back-andthen,
}

-- The fuel covers the times that the device comes back and the retries that are left.
abbrev pub Enough : (fuel returns retry_count : ℕ) → Type 0
Enough fuel returns retry_count = returns + 5 ≤ fuel + retry_count

pub out_of_fuel :
    {W A : Type 0} (P : A → St W → Type 0) (returns retry_count : ℕ) (a : A) (st : St W)
    → Enough 0 returns retry_count
    → P a st
    → Yields P (if ltb retry_count max_reset_retries then none else some (a, st))
out_of_fuel P returns retry_count a st h p =
    let e : ltb retry_count 5 ≡ false = ground arith in rw e p

module _ {W : Type 0} (dev : Device W) (left : W → ℕ) (back : ComesBack dev left) where
  abbrev Fewer : {A : Type 0} → ℕ → A → St W → Type 0
  Fewer n = Below dev left back n

  lseek_retry_loop-returns :
      (fuel : ℕ) (report : Bool) (position : ℕ) (ret : Option ℕ) (retry_count : ℕ) (st : St W)
      (n : ℕ)
      → left st.world ≤ n
      → Enough fuel (left st.world) retry_count
      → Yields (Fewer n) (lseek_retry_loop dev fuel report position ret retry_count st)
  unfolding lseek_retry_loop
  lseek_retry_loop-returns fuel report position (some x) retry_count st n le enough = le
  lseek_retry_loop-returns zero report position none retry_count st n le enough =
      out_of_fuel (Fewer n) (left st.world) retry_count none st enough le
  lseek_retry_loop-returns (suc fuel) report position none retry_count st n le enough =
      let gone = is_gone dev st in
      let noted = note_disconnect report gone.1 in
      let lseek = dev.lseek gone.1.ctx.device_info.fd position in
      let ret = call lseek gone.1 in
      let to_gone = back.gone st.ctx.device_info.device_num st.world in
      Yields-branch (Fewer n) (ltb retry_count max_reset_retries) _ _
        (λ few.
          Yields-branch (Fewer n) gone.0 _ _
            (λ yes.
              Back-andthen dev left back (Fewer n) (left noted.world) (reconnect dev noted) _ _
                (reconnect-returns dev left back noted)
                (λ st' less.
                  lseek_retry_loop-returns fuel report position none retry_count st' n
                    (omega (arith, less, to_gone)) (omega (arith, less, to_gone)))
                (λ st' less. omega (arith, less, to_gone)))
            (λ no.
              let l = back.lseek gone.1.ctx.device_info.fd position gone.1.world in
              lseek_retry_loop-returns fuel report position ret.0 (retry_count + 1) ret.1 n
                (omega (arith, l, to_gone)) (omega (arith, l, to_gone))))
        (λ many. le)

  pub lseek_or_retry-returns :
      (fuel : ℕ) (report : Bool) (position : ℕ) (st : St W) (n : ℕ)
      → left st.world ≤ n
      → left st.world + 5 ≤ fuel
      → Yields (Fewer n) (lseek_or_retry dev fuel report position st)
  unfolding lseek_or_retry
  lseek_or_retry-returns fuel report position st n le enough =
      let ret = call (dev.lseek st.ctx.device_info.fd position) st in
      let l = back.lseek st.ctx.device_info.fd position st.world in
      lseek_retry_loop-returns fuel report position ret.0 0 ret.1 n (omega (arith, l))
        (omega (arith, l))

  lseek_reset_loop-returns :
      (fuel inner : ℕ) (report : Bool) (position : ℕ) (ret : Option ℕ) (retry_count : ℕ) (st : St W)
      (n : ℕ)
      → left st.world ≤ n
      → Enough fuel (left st.world) retry_count
      → left st.world + 5 ≤ inner
      → Yields (Fewer n) (lseek_reset_loop dev fuel inner report position ret retry_count st)
  unfolding lseek_reset_loop
  lseek_reset_loop-returns fuel inner report position (some x) retry_count st n le enough deep = le
  lseek_reset_loop-returns zero inner report position none retry_count st n le enough deep =
      out_of_fuel (Fewer n) (left st.world) retry_count none st enough le
  lseek_reset_loop-returns (suc fuel) inner report position none retry_count st n le enough deep =
      let gone = is_gone_or_closed dev st in
      let noted = note_disconnect report gone.1 in
      let can = call (dev.can_reset_device gone.1.ctx) gone.1 in
      let to_gone = back.gone st.ctx.device_info.device_num st.world in
      let to_can = back.can_reset gone.1.ctx gone.1.world in
      Yields-branch (Fewer n) (ltb retry_count max_reset_retries) _ _
        (λ few.
          Yields-branch (Fewer n) gone.0 _ _
            (λ yes.
              Back-andthen dev left back (Fewer n) (left noted.world) (reconnect dev noted) _ _
                (reconnect-returns dev left back noted)
                (λ st' less.
                  lseek_reset_loop-returns fuel inner report position none retry_count st' n
                    (omega (arith, less, to_gone)) (omega (arith, less, to_gone))
                    (omega (arith, less, to_gone)))
                (λ st' less. omega (arith, less, to_gone)))
            (λ no.
              Yields-branch (Fewer n) can.0 _ _
                (λ able.
                  Yields-andthen (Fewer (left can.1.world)) (Fewer n) (reset_with_status dev can.1)
                    _ (reset-returns dev left back can.1)
                    λ ok st₁ to_reset.
                      Yields-branch (Fewer n) ok _ _
                        (λ ok.
                          Yields-andthen (Fewer (left st.world)) (Fewer n)
                            (lseek_or_retry dev inner report position st₁) _
                            (lseek_or_retry-returns inner report position st₁ (left st.world)
                              (omega (arith, to_gone, to_can, to_reset))
                              (omega (arith, to_gone, to_can, to_reset)))
                            (λ ret st' l.
                              lseek_reset_loop-returns fuel inner report position ret
                                (retry_count + 1) (note_disconnect report st') n (omega arith)
                                (omega arith) (omega arith)))
                        (λ failed. omega (arith, to_gone, to_can, to_reset)))
                (λ unable. omega (arith, to_gone, to_can))))
        (λ many. le)

  pub lseek_or_reset_device-returns :
      (fuel : ℕ) (report : Bool) (position : ℕ) (st : St W) (n : ℕ)
      → left st.world ≤ n
      → left st.world + 5 ≤ fuel
      → Yields (Fewer n) (lseek_or_reset_device dev fuel report position st)
  unfolding lseek_or_reset_device
  lseek_or_reset_device-returns fuel report position st n le enough =
      Yields-andthen (Fewer (left st.world)) (Fewer n) (lseek_or_retry dev fuel report position st)
        _ (lseek_or_retry-returns fuel report position st (left st.world) (omega arith) enough)
        (λ ret st' l.
          lseek_reset_loop-returns fuel fuel report position ret 0 st' n (omega arith) (omega arith)
            (omega arith))

  pub handle_device_disconnect-returns :
      (fuel position : ℕ) (st : St W)
      → left st.world + 5 ≤ fuel
      → Yields
          (Back dev left back (left st.world))
          (handle_device_disconnect dev fuel position true st)
  unfolding handle_device_disconnect
  handle_device_disconnect-returns fuel position st enough =
      Back-andthen dev left back (Back dev left back (left st.world)) (left st.world)
        (reconnect dev st) _ _ (reconnect-returns dev left back st)
        (λ st' came.
          Yields-andthen (Fewer (left st'.world)) (Back dev left back (left st.world))
            (lseek_or_reset_device dev fuel false position st') _
            (lseek_or_reset_device-returns fuel false position st' (left st'.world) (omega arith)
              (omega (arith, came)))
            (λ ret st'' l.
              Back-lt dev left back (not (is_none ret)) (left st.world) st'' (omega (arith, came))))
        (λ st' l. l)
