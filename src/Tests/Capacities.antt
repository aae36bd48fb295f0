-- ===== src/Tests/Capacities.antt =====
-- The writing and the comparing of the test of the capacity.
use mfst.Common.{
  ℕ, ◌≤◌, ◌≡◌, refl, subst, arith, true, false, Option, none, some, List, [], ◌∷◌, ◌++◌, length,
  take, min, replicate,
}
use mfst.Capacity.{compare_slice, write_data_to_device}
use mfst.Capacity.Compare.{Compared, compare_slice-Compared}
use mfst.Capacity.Write.{Appends, Writes, write_data_to_device-Writes}
use mfst.Device.{Device, enodev}
use mfst.Tests.{test_context}

-- The second of three sectors of two bytes differs.
compare_slice-Compared_example :
    Compared 2 100
      (replicate 6 7)
      (7 ∷ 7 ∷ 7 ∷ 8 ∷ 7 ∷ 7 ∷ [])
      3
      0
      (compare_slice 2 100 (replicate 6 7) (7 ∷ 7 ∷ 7 ∷ 8 ∷ 7 ∷ 7 ∷ []) 3 0 0)
compare_slice-Compared_example =
    compare_slice-Compared 2 100 (replicate 6 7) (7 ∷ 7 ∷ 7 ∷ 8 ∷ 7 ∷ 7 ∷ []) (omega arith) 0 3

-- It takes a byte at a time; the world is what was written.
abbrev slow_device : Device (List ℕ)
slow_device = record {
  lseek = λ fd p w. (some p, w);
  tell = λ fd w. (some 0, w);
  read = λ fd n w. (some (replicate n 0), w);
  write = λ fd b w. (some (min 1 (length b)), w ++ take (min 1 (length b)) b);
  close = λ fd w. w;
  strdup = λ s w. (some s, w);
  did_device_disconnect = λ n w. (false, w);
  receive_match = λ ctx w. none;
  create_device_search_result = λ found w. (some found, w);
  save_state = λ ctx w. (true, w);
  can_reset_device = λ ctx w. (false, w);
  open_usb_device = λ fd w. (none, w);
  usb_reset = λ fd w. (true, w);
  search_device = λ ctx name w. (none, enodev, w);
}

-- A number that was returned, 0 for a failure.
abbrev returned : Option ℕ → ℕ
returned none = 0
returned (some n) = n

slow_device-Appends : Appends slow_device (λ w. w)
slow_device-Appends = record {
  some_bytes = λ fd b w ret h e. subst (λ o. 1 ≤ returned o) e (omega (arith, h));
  not_more = λ fd b w ret e. subst (λ o. returned o ≤ length b) e (omega arith);
  appended =
      λ fd b w ret e. subst (λ o. w ++ take (min 1 (length b)) b ≡ w ++ take (returned o) b) e refl;
}

write_data_to_device-Writes_example :
    Writes
      (λ w. w)
      ((9 ∷ []) ++ (1 ∷ 2 ∷ 3 ∷ []))
      (write_data_to_device slow_device (λ n w. (true, w)) 3 test_context (1 ∷ 2 ∷ 3 ∷ []) (9 ∷ []))
write_data_to_device-Writes_example =
    write_data_to_device-Writes slow_device (λ w. w) slow_device-Appends (λ n w. (true, w)) 3
      test_context (1 ∷ 2 ∷ 3 ∷ []) (9 ∷ []) (λ n v. refl) (omega arith) (omega arith)
