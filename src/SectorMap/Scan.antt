-- ===== src/SectorMap/Scan.antt =====
-- The scans for contiguous writable and unwritable sectors.
use mfst.Common.{
  ℕ, zero, suc, ◌+◌, ◌≤◌, ◌<◌, ◌≡◌, ◌↔◌, subst, ◌⊎◌, inl, inr, arith, Bool, true, false, not,
  Bool-cases,
}
use mfst.Context.{Context}
use mfst.SectorMap.{
  do_not_use, has_flag, scan, get_max_writable_sectors, get_max_unwritable_sectors,
}
use mfst.SectorMap.Marks.{entry}
use native.Mathlib.Decide.{dec_lt}

-- `count` sectors from `start` on pass the test, and the one behind them does not, unless the
-- limit was reached.
pub record IsLongestRun (test : ℕ → Bool) (ctx : Context) (start limit count : ℕ) : Type 0 where
  pub within : count ≤ limit
  pub all_pass : (j : ℕ) → j < count → test (entry ctx (start + j)) ≡ true
  pub maximal : (count ≡ limit) ⊎ (test (entry ctx (start + count)) ≡ false)

-- The loop after `out` rounds, `left` rounds before its limit.
scan_lem :
    (test : ℕ → Bool) (ctx : Context) (start left out limit : ℕ)
    → out + left ≡ limit
    → ((j : ℕ) → j < out → test (entry ctx (start + j)) ≡ true)
    → IsLongestRun test ctx start limit
        (scan test ctx.endurance_test_info.sector_map start left out)
unfolding scan
scan_lem test ctx start zero out limit e done = record {
  within = omega arith;
  all_pass = done;
  maximal = inl (omega arith);
}
scan_lem test ctx start (suc left) out limit e done =
    elim (Bool-cases (test (entry ctx (start + out)))) [
      | inl pass ↦
          rw pass (scan_lem test ctx start left (out + 1) limit (omega arith) (one_more pass))
      | inr stop ↦ rw stop (record { within = omega arith; all_pass = done; maximal = inr stop })
    ]
  where
    one_more :
        test (entry ctx (start + out)) ≡ true
        → (j : ℕ) → j < out + 1
        → test (entry ctx (start + j)) ≡ true
    one_more pass j h = elim (dec_lt j out) [
      | yes lt ↦ done j lt
      | no ge ↦ subst (λ n. test (entry ctx (start + n)) ≡ true) {x = out} (omega arith) pass
    ]

-- get_max_writable_sectors gives the length of the longest run of usable sectors from the start,
-- within the limit.
pub get_max_writable_sectors-IsLongestRun :
    (ctx : Context) (starting_sector max_sectors : ℕ)
    → IsLongestRun
        (λ e. not (has_flag do_not_use e))
        ctx
        starting_sector
        max_sectors
        (get_max_writable_sectors ctx starting_sector max_sectors)
unfolding get_max_writable_sectors
get_max_writable_sectors-IsLongestRun ctx s n =
    scan_lem (λ e. not (has_flag do_not_use e)) ctx s n 0 n (omega arith)
      (λ j h. absurd (omega arith))

-- `get_max_unwritable_sectors` gives the longest run of sectors flagged do-not-use.
pub get_max_unwritable_sectors-IsLongestRun :
    (ctx : Context) (starting_sector max_sectors : ℕ)
    → IsLongestRun
        (has_flag do_not_use)
        ctx
        starting_sector
        max_sectors
        (get_max_unwritable_sectors ctx starting_sector max_sectors)
unfolding get_max_unwritable_sectors
get_max_unwritable_sectors-IsLongestRun ctx s n =
    scan_lem (has_flag do_not_use) ctx s n 0 n (omega arith) (λ j h. absurd (omega arith))

-- With sectors left to look at, exactly one of the two scans finds some: there is no writable
-- sector at the start exactly when there are unwritable ones.
pub scans_alternate :
    (ctx : Context) (starting_sector max_sectors : ℕ)
    → 0 < max_sectors
    → (get_max_writable_sectors ctx starting_sector max_sectors ≡ 0)
      ↔ (0 < get_max_unwritable_sectors ctx starting_sector max_sectors)
scans_alternate ctx s n h =
    let w = get_max_writable_sectors-IsLongestRun ctx s n in
    let u = get_max_unwritable_sectors-IsLongestRun ctx s n in
    ground (arith, w.maximal, w.all_pass 0, u.maximal, u.all_pass 0)
