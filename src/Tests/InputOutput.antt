-- ===== src/Tests/InputOutput.antt =====
-- Retries, resets and reconnections, and the command line.
use mfst.Common.{none, inl, inr, refl, arith, List, [], ◌∷◌, replicate}
use Prim.Native.String.{String}
use mfst.Io.Transfers.{read_or_reset_device, write_or_reset_device}
use mfst.Io.Keeps.{Keeps, Ends}
use mfst.Io.KeepsTransfers.{read_or_reset_device-Keeps, write_or_reset_device-Keeps}
use mfst.Io.Returns.{Yields}
use mfst.Io.FirstRound.{SameContext, write_or_reset_device-first_round}
use mfst.Options.{Code, code_b, code_f, parse_command_line_arguments}
use mfst.Options.Parsed.{Accepted, Usable, parse_command_line_arguments-Usable}
use mfst.Tests.{test_context, second_round, test_device, test_state}

write_or_reset_device-Keeps_example :
    Ends
      (Keeps (test_state second_round 2))
      (write_or_reset_device test_device 7 (replicate 4 9) 512 (test_state second_round 2))
write_or_reset_device-Keeps_example =
    write_or_reset_device-Keeps test_device 7 (replicate 4 9) 512 (test_state second_round 2)

read_or_reset_device-Keeps_example :
    Ends
      (Keeps (test_state second_round 2))
      (read_or_reset_device test_device 7 4 512 (test_state second_round 2))
read_or_reset_device-Keeps_example =
    read_or_reset_device-Keeps test_device 7 4 512 (test_state second_round 2)

write_or_reset_device-first_round_example :
    Yields
      (SameContext test_device test_context)
      (write_or_reset_device test_device 5 (replicate 4 9) 512 (test_state test_context 9))
write_or_reset_device-first_round_example =
    write_or_reset_device-first_round test_device 5 (replicate 4 9) 512 (test_state test_context 9)
      refl (omega arith)

abbrev test_arguments : List (Code × String)
test_arguments = (code_b, "") ∷ (code_f, "/run/mfst.lock") ∷ []

parse_command_line_arguments-Usable_example :
    Accepted
      (Usable (λ s. 0) none)
      (parse_command_line_arguments (λ s. 0) none test_arguments ("/dev/sdb" ∷ []))
parse_command_line_arguments-Usable_example =
    parse_command_line_arguments-Usable (λ s. 0) none test_arguments ("/dev/sdb" ∷ [])
      (inl (inr (inr (inl refl))), (inr (inl (inr (inr (inl refl)))), tt))
