-- ===== src/Io/ReturnsWrites.antt =====
-- Enough fuel for the functions that write, with their loops.
use mfst.Common.{ℕ, zero, suc, ◌+◌, ◌≤◌, arith, true, Option, none, some, List, ltb, ◌==◌}
use mfst.Device.{Device, St, call}
use mfst.Io.{max_reset_retries, note_disconnect, is_gone}
use mfst.Io.Transfers.{write_retry_loop, write_or_retry}
use mfst.Io.Returns.{ComesBack, Yields, Yields-branch, Below}
use mfst.Io.ReturnsTransfers.{after_disconnect}
use mfst.Io.ReturnsAll.{Enough, out_of_fuel}

module _ {W : Type 0} (dev : Device W) (left : W → ℕ) (back : ComesBack dev left) where
  abbrev Fewer : {A : Type 0} → ℕ → A → St W → Type 0
  Fewer n = Below dev left back n

  write_retry_loop-returns :
      (fuel inner : ℕ) (buf : List ℕ) (position : ℕ) (ret : Option ℕ) (retry_count : ℕ) (st : St W)
      (n : ℕ)
      → left st.world ≤ n
      → Enough fuel (left st.world) retry_count
      → left st.world + 5 ≤ inner
      → Yields (Fewer n) (write_retry_loop dev fuel inner buf position ret retry_count st)
  unfolding write_retry_loop
  write_retry_loop-returns fuel inner buf position (some x) retry_count st n le enough deep = le
  write_retry_loop-returns zero inner buf position none retry_count st n le enough deep =
      out_of_fuel (Fewer n) (left st.world) retry_count none st enough le
  write_retry_loop-returns (suc fuel) inner buf position none retry_count st n le enough deep =
      let gone = is_gone dev st in
      let to_gone = back.gone st.ctx.device_info.device_num st.world in
      let noted = note_disconnect true gone.1 in
      let again = call (dev.write gone.1.ctx.device_info.fd buf) gone.1 in
      let l = back.write gone.1.ctx.device_info.fd buf gone.1.world in
      Yields-branch (Fewer n) (ltb retry_count max_reset_retries) _ _
        (λ few.
          Yields-branch (Fewer n) gone.0 _ _
            (λ yes.
              Yields-branch (Fewer n) (noted.ctx.endurance_test_info.rounds_completed == 0) _ _
                (λ first. omega (arith, to_gone))
                (λ later.
                  after_disconnect dev left back (Fewer n) inner position noted _ _
                    (omega (arith, to_gone))
                    (λ st' less.
                      write_retry_loop-returns fuel inner buf position none retry_count st' n
                        (omega (arith, to_gone)) (omega (arith, to_gone)) (omega (arith, to_gone)))
                    (λ st' less. omega (arith, to_gone))))
            (λ no.
              write_retry_loop-returns fuel inner buf position again.0 (retry_count + 1) again.1 n
                (omega (arith, l, to_gone)) (omega (arith, l, to_gone))
                (omega (arith, l, to_gone))))
        (λ many. le)

  pub write_or_retry-returns :
      (fuel : ℕ) (buf : List ℕ) (position : ℕ) (st : St W) (n : ℕ)
      → left st.world ≤ n
      → left st.world + 5 ≤ fuel
      → Yields (Fewer n) (write_or_retry dev fuel buf position st)
  unfolding write_or_retry
  write_or_retry-returns fuel buf position st n le enough =
      let ret = call (dev.write st.ctx.device_info.fd buf) st in
      let l = back.write st.ctx.device_info.fd buf st.world in
      write_retry_loop-returns fuel fuel buf position ret.0 0 ret.1 n (omega (arith, l))
        (omega (arith, l)) (omega (arith, l))
