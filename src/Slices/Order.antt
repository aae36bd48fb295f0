-- ===== src/Slices/Order.antt =====
-- `random_list` is a permutation of the slices, whatever numbers the generator gives.
use mfst.Common.{
  ℕ, zero, suc, ◌+◌, ◌-◌, ◌%◌, ◌^◌, ◌<◌, ◌≡◌, refl, ap, arith, List, [], ◌∷◌, bit_and, get_or,
  length,
}
use mfst.Context.{RngState}
use mfst.Rng.{rng_get_random_number}
use mfst.Slices.{count_from, copy_except, pick_all, random_list}
use mathlib.Core.List.{Perm}
use mathlib.Core.List.Perm

-- Past the index that is left out, everything is copied.
copy_behind : (k j : ℕ) (xs : List ℕ) → j < k → copy_except k j xs ≡ xs
unfolding copy_except
copy_behind k j [] h = refl
copy_behind k j (x ∷ xs) h = ground (arith, copy_behind (k + 1) j xs)

left_out :
    {k j : ℕ} (x : ℕ) (xs : List ℕ) → k ≡ j → copy_except k j (x ∷ xs) ≡ copy_except (k + 1) j xs
unfolding copy_except
left_out x xs h = ground arith

copied :
    {k j : ℕ} (x : ℕ) (xs : List ℕ)
    → k < j
    → copy_except k j (x ∷ xs) ≡ x ∷ copy_except (k + 1) j xs
unfolding copy_except
copied x xs h = ground arith

-- The item at the index and the copied rest are the list, in another order.
picked :
    (k d j : ℕ) (xs : List ℕ)
    → j ≡ k + d
    → d < length xs
    → Perm (get_or xs d 0 ∷ copy_except k j xs) xs
picked k d j [] e h = absurd (omega arith)
picked k zero j (x ∷ xs) e h =
    rw (left_out {k = k} {j = j} x xs (omega arith))
      (rw (copy_behind (k + 1) j xs (omega arith)) (Perm.refl (x ∷ xs)))
picked k (suc d) j (x ∷ xs) e h = rw (copied {k = k} {j = j} x xs (omega arith)) (
    Perm.trans (Perm.swap x (get_or xs d 0) (copy_except (k + 1) j xs))
      (Perm.cons x (picked (k + 1) d j xs (omega arith) (omega arith))))

length-copy_except :
    (k d j : ℕ) (xs : List ℕ)
    → j ≡ k + d
    → d < length xs
    → suc (length (copy_except k j xs)) ≡ length xs
length-copy_except k d j [] e h = absurd (omega arith)
length-copy_except k zero j (x ∷ xs) e h =
    rw (left_out {k = k} {j = j} x xs (omega arith)) (rw (copy_behind (k + 1) j xs (omega arith)))
length-copy_except k (suc d) j (x ∷ xs) e h =
    rw (copied {k = k} {j = j} x xs (omega arith))
      (ap suc (length-copy_except (k + 1) d j xs (omega arith) (omega arith)))

module _ (random : ℕ → ℕ → ℕ) where
  -- The items left after each round are those not yet picked.
  pick_all-perm :
      (left : ℕ) (source : List ℕ) (s : RngState)
      → length source ≡ left
      → Perm (pick_all random left source s).0 source
  unfolding pick_all
  pick_all-perm zero [] s e = Perm.refl []
  pick_all-perm zero (x ∷ source) s e = absurd (omega arith)
  pick_all-perm (suc left) source s e =
      let (r, s') = rng_get_random_number random s in
      let j = bit_and r (2 ^ 31 - 1) % suc left in
      let rest = copy_except 0 j source in
      let all = picked 0 j j source (omega arith) (omega arith) in
      let count : length rest ≡ left =
        omega (arith, length-copy_except 0 j j source (omega arith) (omega arith)) in
      Perm.trans (Perm.cons (get_or source j 0) (pick_all-perm left rest s' count)) all

  -- random_list visits every slice exactly once: its result is a permutation of 0 to 15, for every
  -- generator and every state of it.
  pub random_list-perm : (s : RngState) → Perm (random_list random s).0 (count_from 16 0)
  unfolding random_list count_from
  random_list-perm s = pick_all-perm 16 (count_from 16 0) s refl
