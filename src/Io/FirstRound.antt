-- ===== src/Io/FirstRound.antt =====
-- Writing before the first round is complete.
use mfst.Common.{
  ℕ, zero, suc, ◌+◌, ◌≤◌, ◌≡◌, refl, ap, subst, ◌∙◌, arith, true, false, Option, none, some, List,
  ltb, ◌==◌,
}
use mfst.Context.{Context}
use mfst.Device.{Device, St, call}
use mfst.Io.{max_reset_retries, note_disconnect, is_gone, is_gone_or_closed}
use mfst.Io.Transfers.{write_retry_loop, write_or_retry, write_reset_loop, write_or_reset_device}
use mfst.Io.Returns.{Yields, Yields-andthen, Yields-branch}

module _ {W : Type 0} (dev : Device W) where
  abbrev pub SameContext : {A : Type 0} → Context → A → St W → Type 0
  SameContext ctx a st = st.ctx ≡ ctx

  not_later :
      {P : Type 0} (ctx : Context)
      → ctx.endurance_test_info.rounds_completed ≡ 0
      → (ctx.endurance_test_info.rounds_completed == 0) ≡ false
      → P
  not_later ctx first later = absurd (ground (arith, first))

  write_retry_loop-first_round :
      (fuel inner : ℕ) (buf : List ℕ) (position : ℕ) (ret : Option ℕ) (retry_count : ℕ) (st : St W)
      → st.ctx.endurance_test_info.rounds_completed ≡ 0
      → 5 ≤ fuel + retry_count
      → Yields
          (SameContext st.ctx)
          (write_retry_loop dev fuel inner buf position ret retry_count st)
  unfolding write_retry_loop
  write_retry_loop-first_round fuel inner buf position (some x) retry_count st first enough = refl
  write_retry_loop-first_round zero inner buf position none retry_count st first enough =
      let e : ltb retry_count 5 ≡ false = ground arith in rw e refl
  write_retry_loop-first_round (suc fuel) inner buf position none retry_count st first enough =
      let gone = is_gone dev st in
      let noted = note_disconnect true gone.1 in
      let again = call (dev.write gone.1.ctx.device_info.fd buf) gone.1 in
      let P = SameContext st.ctx in
      Yields-branch P (ltb retry_count max_reset_retries) _ _
        (λ few.
          Yields-branch P gone.0 _ _
            (λ yes.
              Yields-branch P (noted.ctx.endurance_test_info.rounds_completed == 0) _ _
                (λ zeroth. refl) (λ later. not_later st.ctx first later))
            (λ no.
              write_retry_loop-first_round fuel inner buf position again.0 (retry_count + 1) again.1
                first (omega arith)))
        (λ many. refl)

  write_reset_loop-first_round :
      (fuel inner : ℕ) (buf : List ℕ) (position : ℕ) (ret : Option ℕ) (st : St W)
      → st.ctx.endurance_test_info.rounds_completed ≡ 0
      → 1 ≤ fuel
      → Yields (SameContext st.ctx) (write_reset_loop dev fuel inner buf position ret 0 st)
  unfolding write_reset_loop
  write_reset_loop-first_round fuel inner buf position (some x) st first enough = refl
  write_reset_loop-first_round zero inner buf position none st first enough = absurd (omega arith)
  write_reset_loop-first_round (suc fuel) inner buf position none st first enough =
      let gone = is_gone_or_closed dev st in
      let noted = note_disconnect true gone.1 in
      let P = SameContext st.ctx in
      Yields-branch P gone.0 _ _
        (λ yes.
          Yields-branch P (noted.ctx.endurance_test_info.rounds_completed == 0) _ _ (λ zeroth. refl)
            (λ later. not_later st.ctx first later))
        (λ no.
          Yields-branch P (gone.1.ctx.endurance_test_info.rounds_completed == 0) _ _
            (λ zeroth. refl) (λ later. not_later st.ctx first later))

  -- Before the first round is complete, a write ends within five retries, whatever the device
  -- does, and leaves the context as it was: the device is neither waited for nor reset.
  pub write_or_reset_device-first_round :
      (fuel : ℕ) (buf : List ℕ) (position : ℕ) (st : St W)
      → st.ctx.endurance_test_info.rounds_completed ≡ 0
      → 5 ≤ fuel
      → Yields (SameContext st.ctx) (write_or_reset_device dev fuel buf position st)
  unfolding write_or_reset_device write_or_retry
  write_or_reset_device-first_round fuel buf position st first enough =
      let ret = call (dev.write st.ctx.device_info.fd buf) st in
      let P = SameContext st.ctx in
      Yields-andthen P P (write_retry_loop dev fuel fuel buf position ret.0 0 ret.1) _
        (write_retry_loop-first_round fuel fuel buf position ret.0 0 ret.1 first (omega arith))
        (λ ret st' same.
          let round : st'.ctx.endurance_test_info.rounds_completed ≡ 0 =
            ap (λ (c : Context). c.endurance_test_info.rounds_completed) same ∙ first in
          subst
            (λ c. Yields (SameContext c) (write_reset_loop dev fuel fuel buf position ret 0 st'))
            same (write_reset_loop-first_round fuel fuel buf position ret st' round (omega arith)))
