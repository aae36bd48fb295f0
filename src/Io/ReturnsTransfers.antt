-- ===== src/Io/ReturnsTransfers.antt =====
-- Enough fuel for the functions that read, with their loops.
use mfst.Common.{
  ℕ, zero, suc, ◌+◌, ◌≤◌, arith, true, false, Bool-cases, inl, inr, Option, List, ltb,
}
use mfst.Device.{Device, St, call}
use mfst.Io.{max_reset_retries, andthen, is_gone, handle_device_disconnect}
use mfst.Io.Transfers.{is_empty, read_retry_loop, read_or_retry}
use mfst.Io.Returns.{ComesBack, Yields, Yields-branch, Below, Back-andthen}
use mfst.Io.ReturnsAll.{Enough, out_of_fuel, handle_device_disconnect-returns}

module _ {W : Type 0} (dev : Device W) (left : W → ℕ) (back : ComesBack dev left) where
  abbrev Fewer : {A : Type 0} → ℕ → A → St W → Type 0
  Fewer n = Below dev left back n

  -- The step of every loop after `handle_device_disconnect`.
  pub after_disconnect :
      {A : Type 0} (P : A → St W → Type 0) (inner position : ℕ) (st : St W)
      → (again failed : St W → Option (A × St W)) → left st.world + 5 ≤ inner
      → ((st' : St W) → left st'.world + 1 ≤ left st.world → Yields P (again st'))
      → ((st' : St W) → left st'.world ≤ left st.world → Yields P (failed st'))
      → Yields P (
          andthen
            (handle_device_disconnect dev inner position true st)
            λ b st'. elim b [ true ↦ again st' | false ↦ failed st' ])
  after_disconnect P inner position st again failed deep ok ko =
      Back-andthen dev left back P (left st.world)
        (handle_device_disconnect dev inner position true st) again failed
        (handle_device_disconnect-returns dev left back inner position st deep)
        (λ st' l. ok st' (omega arith)) ko

  read_retry_loop-returns :
      (fuel inner count position : ℕ) (ret : Option (List ℕ)) (retry_count : ℕ) (st : St W) (n : ℕ)
      → left st.world ≤ n
      → Enough fuel (left st.world) retry_count
      → left st.world + 5 ≤ inner
      → Yields (Fewer n) (read_retry_loop dev fuel inner count position ret retry_count st)
  unfolding read_retry_loop
  read_retry_loop-returns zero inner count position ret retry_count st n le enough deep =
      elim (Bool-cases (is_empty ret)) [
        | inl e ↦ rw e (out_of_fuel (Fewer n) (left st.world) retry_count ret st enough le)
        | inr e ↦ rw e le
      ]
  read_retry_loop-returns (suc fuel) inner count position ret retry_count st n le enough deep =
      let gone = is_gone dev st in
      let to_gone = back.gone st.ctx.device_info.device_num st.world in
      let again = call (dev.read gone.1.ctx.device_info.fd count) gone.1 in
      let l = back.read gone.1.ctx.device_info.fd count gone.1.world in
      Yields-branch (Fewer n) (is_empty ret) _ _
        (λ empty.
          Yields-branch (Fewer n) (ltb retry_count max_reset_retries) _ _
            (λ few.
              Yields-branch (Fewer n) gone.0 _ _
                (λ yes.
                  after_disconnect (Fewer n) inner position gone.1 _ _ (omega (arith, to_gone))
                    (λ st' less.
                      read_retry_loop-returns fuel inner count position ret retry_count st' n
                        (omega (arith, to_gone)) (omega (arith, to_gone)) (omega (arith, to_gone)))
                    (λ st' less. omega (arith, to_gone)))
                (λ no.
                  read_retry_loop-returns fuel inner count position again.0 (retry_count + 1)
                    again.1 n (omega (arith, l, to_gone)) (omega (arith, l, to_gone))
                    (omega (arith, l, to_gone))))
            (λ many. le))
        (λ full. le)

  pub read_or_retry-returns :
      (fuel count position : ℕ) (st : St W) (n : ℕ)
      → left st.world ≤ n
      → left st.world + 5 ≤ fuel
      → Yields (Fewer n) (read_or_retry dev fuel count position st)
  unfolding read_or_retry
  read_or_retry-returns fuel count position st n le enough =
      let ret = call (dev.read st.ctx.device_info.fd count) st in
      let l = back.read st.ctx.device_info.fd count st.world in
      read_retry_loop-returns fuel fuel count position ret.0 0 ret.1 n (omega (arith, l))
        (omega (arith, l)) (omega (arith, l))
