-- ===== src/Tests/Maps.antt =====
-- The sector map.
use mfst.Common.{◌≡◌, refl, ◌↔◌, arith, List, [], ◌∷◌, ◌<◌, not, true}
use mfst.SectorMap.{
  has_flag, do_not_use, failed, get_max_writable_sectors, get_max_unwritable_sectors,
}
use mfst.SectorMap.Counts.{
  IsValid, MapOp, written, bad, unwritable, reset_partial, run, run-IsValid,
}
use mfst.SectorMap.Marks.{entry, run_keeps_failed, run_keeps_unusable}
use mfst.SectorMap.Scan.{
  IsLongestRun, get_max_writable_sectors-IsLongestRun, get_max_unwritable_sectors-IsLongestRun,
  scans_alternate,
}
use mfst.Tests.{test_context, test_context-IsValid}

abbrev test_ops : List MapOp
test_ops = written 0 4 ∷ bad 2 ∷ bad 1 ∷ unwritable 1 ∷ reset_partial 0 2 ∷ []

run-IsValid_example : IsValid (run test_ops test_context)
run-IsValid_example =
    run-IsValid test_ops test_context-IsValid
      (tt, (omega arith, (omega arith, (omega arith, (omega arith, tt)))))

run_keeps_failed_example : has_flag failed (entry (run test_ops test_context) 2) ≡ true
run_keeps_failed_example = run_keeps_failed test_ops test_context 2 refl

run_keeps_unusable_example : has_flag do_not_use (entry (run test_ops test_context) 3) ≡ true
run_keeps_unusable_example = run_keeps_unusable test_ops test_context 3 refl

get_max_writable_sectors-IsLongestRun_example :
    IsLongestRun
      (λ e. not (has_flag do_not_use e))
      test_context
      1
      3
      (get_max_writable_sectors test_context 1 3)
get_max_writable_sectors-IsLongestRun_example =
    get_max_writable_sectors-IsLongestRun test_context 1 3

get_max_unwritable_sectors-IsLongestRun_example :
    IsLongestRun
      (has_flag do_not_use)
      test_context
      3
      1
      (get_max_unwritable_sectors test_context 3 1)
get_max_unwritable_sectors-IsLongestRun_example =
    get_max_unwritable_sectors-IsLongestRun test_context 3 1

scans_alternate_example :
    (get_max_writable_sectors test_context 3 1 ≡ 0)
    ↔ (0 < get_max_unwritable_sectors test_context 3 1)
scans_alternate_example = scans_alternate test_context 3 1 (omega arith)
