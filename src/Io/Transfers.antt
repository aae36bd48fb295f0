-- ===== src/Io/Transfers.antt =====
-- The functions of mfst.c that read from the device and write to it, with retries and resets. What
-- `read` returns is the bytes it puts into the buffer: `none` for -1, the empty list for 0.
use mfst.Common.{
  ℕ, zero, suc, ◌+◌, Bool, true, false, Option, none, some, List, [], ◌∷◌, if◌then◌else◌, ltb, ◌==◌,
}
use mfst.Device.{Device, St, is_none, call}
use mfst.Io.{
  max_reset_retries, andthen, note_disconnect, is_gone, is_gone_or_closed, reset_with_status,
  lseek_or_retry, handle_device_disconnect,
}

-- The loops go on after -1 or, when reading without a reset, after 0.
abbrev pub is_empty : Option (List ℕ) → Bool
is_empty none = true
is_empty (some []) = true
is_empty (some (b ∷ bs)) = false

module _ {W : Type 0} (dev : Device W) where
  -- The loop of `read_or_retry`.
  unfoldable pub read_retry_loop :
      ℕ → ℕ → ℕ → ℕ → Option (List ℕ) → ℕ → St W → Option (Option (List ℕ) × St W)
  read_retry_loop zero inner count position ret retry_count st =
      if is_empty ret
      then (if ltb retry_count max_reset_retries then none else some (ret, st))
      else some (ret, st)
  read_retry_loop (suc fuel) inner count position ret retry_count st = elim (is_empty ret) [
    | false ↦ some (ret, st)
    | true ↦ elim (ltb retry_count max_reset_retries) [
      | false ↦ some (ret, st)
      | true ↦
          let gone = is_gone dev st in
          elim gone.0 [
            | true ↦ andthen (handle_device_disconnect dev inner position true gone.1) λ back st.
                elim back [
                  | true ↦ read_retry_loop fuel inner count position ret retry_count st
                  | false ↦ some (none, st)
                ]
            | false ↦
                let again = call (dev.read gone.1.ctx.device_info.fd count) gone.1 in
                read_retry_loop fuel inner count position again.0 (retry_count + 1) again.1
          ]
    ]
  ]

  unfoldable pub read_or_retry : ℕ → ℕ → ℕ → St W → Option (Option (List ℕ) × St W)
  read_or_retry fuel count position st =
      let ret = call (dev.read st.ctx.device_info.fd count) st in
      read_retry_loop fuel fuel count position ret.0 0 ret.1

  -- The loop of `read_or_reset_device`.
  unfoldable pub read_reset_loop :
      ℕ → ℕ → ℕ → ℕ → Option (List ℕ) → ℕ → St W → Option (Option (List ℕ) × St W)
  read_reset_loop fuel inner count position (some bytes) retry_count st = some (some bytes, st)
  read_reset_loop zero inner count position none retry_count st =
      if ltb retry_count max_reset_retries then none else some (none, st)
  read_reset_loop (suc fuel) inner count position none retry_count st =
      elim (ltb retry_count max_reset_retries) [
        | false ↦ some (none, st)
        | true ↦
            let gone = is_gone_or_closed dev st in
            elim gone.0 [
              | true ↦ andthen (handle_device_disconnect dev inner position true gone.1) λ back st.
                  elim back [
                    | true ↦ read_reset_loop fuel inner count position none retry_count st
                    | false ↦ some (none, st)
                  ]
              | false ↦
                  let can = call (dev.can_reset_device gone.1.ctx) gone.1 in
                  elim can.0 [
                    | false ↦ some (none, can.1)
                    | true ↦ andthen (reset_with_status dev can.1) λ ok st. elim ok [
                      | false ↦ read_reset_loop fuel inner count position none max_reset_retries st
                      | true ↦ andthen (lseek_or_retry dev inner false position st) λ offset st.
                          elim (is_none offset) [
                            | true ↦ some (none, st)
                            | false ↦ andthen (read_or_retry inner count position st) λ ret st.
                                read_reset_loop fuel inner count position ret (retry_count + 1) st
                          ]
                    ]
                  ]
            ]
      ]

  unfoldable pub read_or_reset_device : ℕ → ℕ → ℕ → St W → Option (Option (List ℕ) × St W)
  read_or_reset_device fuel count position st =
      andthen (read_or_retry fuel count position st)
        λ ret st. read_reset_loop fuel fuel count position ret 0 st

  -- The loop of `write_or_retry`.
  unfoldable pub write_retry_loop :
      ℕ → ℕ → List ℕ → ℕ → Option ℕ → ℕ → St W → Option (Option ℕ × St W)
  write_retry_loop fuel inner buf position (some n) retry_count st = some (some n, st)
  write_retry_loop zero inner buf position none retry_count st =
      if ltb retry_count max_reset_retries then none else some (none, st)
  write_retry_loop (suc fuel) inner buf position none retry_count st =
      elim (ltb retry_count max_reset_retries) [
        | false ↦ some (none, st)
        | true ↦
            let gone = is_gone dev st in
            elim gone.0 [
              | true ↦
                  let noted = note_disconnect true gone.1 in
                  elim (noted.ctx.endurance_test_info.rounds_completed == 0) [
                    | true ↦ some (none, noted)
                    | false ↦
                        andthen (handle_device_disconnect dev inner position true noted) λ back st.
                          elim back [
                            | true ↦ write_retry_loop fuel inner buf position none retry_count st
                            | false ↦ some (none, st)
                          ]
                  ]
              | false ↦
                  let again = call (dev.write gone.1.ctx.device_info.fd buf) gone.1 in
                  write_retry_loop fuel inner buf position again.0 (retry_count + 1) again.1
            ]
      ]

  unfoldable pub write_or_retry : ℕ → List ℕ → ℕ → St W → Option (Option ℕ × St W)
  write_or_retry fuel buf position st =
      let ret = call (dev.write st.ctx.device_info.fd buf) st in
      write_retry_loop fuel fuel buf position ret.0 0 ret.1

  -- The loop of `write_or_reset_device`.
  unfoldable pub write_reset_loop :
      ℕ → ℕ → List ℕ → ℕ → Option ℕ → ℕ → St W → Option (Option ℕ × St W)
  write_reset_loop fuel inner buf position (some n) retry_count st = some (some n, st)
  write_reset_loop zero inner buf position none retry_count st =
      if ltb retry_count max_reset_retries then none else some (none, st)
  write_reset_loop (suc fuel) inner buf position none retry_count st =
      elim (ltb retry_count max_reset_retries) [
        | false ↦ some (none, st)
        | true ↦
            let gone = is_gone_or_closed dev st in
            elim gone.0 [
              | true ↦
                  let noted = note_disconnect true gone.1 in
                  elim (noted.ctx.endurance_test_info.rounds_completed == 0) [
                    | true ↦ some (none, noted)
                    | false ↦
                        andthen (handle_device_disconnect dev inner position true noted) λ back st.
                          elim back [
                            | true ↦ write_reset_loop fuel inner buf position none retry_count st
                            | false ↦ some (none, st)
                          ]
                  ]
              | false ↦ elim (gone.1.ctx.endurance_test_info.rounds_completed == 0) [
                | true ↦ some (none, gone.1)
                | false ↦
                    let can = call (dev.can_reset_device gone.1.ctx) gone.1 in
                    elim can.0 [
                      | false ↦ some (none, can.1)
                      | true ↦ andthen (reset_with_status dev can.1) λ ok st. elim ok [
                        | false ↦
                            write_reset_loop fuel inner buf position none max_reset_retries
                              (note_disconnect true st)
                        | true ↦ andthen (lseek_or_retry dev inner true position st) λ offset st.
                            elim (is_none offset) [
                              | true ↦ some (none, st)
                              | false ↦ andthen (write_or_retry inner buf position st) λ ret st.
                                  write_reset_loop fuel inner buf position ret (retry_count + 1)
                                    (note_disconnect true st)
                            ]
                      ]
                    ]
              ]
            ]
      ]

  unfoldable pub write_or_reset_device : ℕ → List ℕ → ℕ → St W → Option (Option ℕ × St W)
  write_or_reset_device fuel buf position st =
      andthen (write_or_retry fuel buf position st)
        λ ret st. write_reset_loop fuel fuel buf position ret 0 st
