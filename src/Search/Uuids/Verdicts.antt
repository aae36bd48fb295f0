-- ===== src/Search/Uuids/Verdicts.antt =====
-- The verdict of `compare_device_uuids` and a count of the sectors that does not stop early.
use mfst.Common.{
  ℕ, ◌+◌, ◌*◌, ◌≤◌, ◌<◌, ◌≡◌, refl, ap, ◌∙◌, arith, Bool, true, false, List, [], ◌∷◌, length,
  if◌then◌else◌, leb,
}
use mfst.Context.{Context}
use mfst.Search.{Verdict, matching, differing, failing, DeviceFile}
use mfst.Search.Uuids.{is_ours, check_sectors}

module _ {W : Type 0} (os : DeviceFile W) (crc : ℕ → List ℕ → ℕ) (ctx : Context) (fd size : ℕ) where
  -- All the sectors are read, one after the other, and those that are ours are counted.
  pub count_ours : List ℕ → W → ℕ
  count_ours [] w = 0
  count_ours (s ∷ rest) w =
      let r = os.read fd size (os.lseek fd (s * size) w).1 in
      (if is_ours os crc ctx size r.0 then 1 else 0) + count_ours rest r.1

  count_ours-le : (sectors : List ℕ) (w : W) → count_ours sectors w ≤ length sectors
  unfolding count_ours
  count_ours-le [] w = omega arith
  count_ours-le (s ∷ rest) w =
      let r = os.read fd size (os.lseek fd (s * size) w).1 in
      let ih = count_ours-le rest r.1 in go (is_ours os crc ctx size r.0) (count_ours rest r.1) ih
    where
      go : (b : Bool) (n : ℕ) → n ≤ length rest → (if b then 1 else 0) + n ≤ length (s ∷ rest)
      go true n h = omega arith
      go false n h = omega arith

  abbrev verdict : Bool → Verdict
  verdict b = if b then matching else differing

  module _ (half : ℕ) (seeks : (p : ℕ) (w : W) → (os.lseek fd p w).0 ≡ true) where
    -- One round, from what holds of the sectors after it
    check_step :
        (s : ℕ) (rest : List ℕ) (m : ℕ) (w : W)
        → m < half
        → ((k : ℕ)
            → k < half
            → (check_sectors os crc ctx fd size half rest k
                (os.read fd size (os.lseek fd (s * size) w).1).1).0
              ≡ verdict
                  (leb half (k + count_ours rest (os.read fd size (os.lseek fd (s * size) w).1).1)))
        → (check_sectors os crc ctx fd size half (s ∷ rest) m w).0
          ≡ verdict (leb half (m + count_ours (s ∷ rest) w))
    unfolding check_sectors count_ours
    check_step s rest m w lt ih = go (leb half (m + length (s ∷ rest))) refl
      where
        w1 : W
        w1 = (os.lseek fd (s * size) w).1

        w2 : W
        w2 = (os.read fd size w1).1

        ours : Bool
        ours = is_ours os crc ctx size (os.read fd size w1).0

        n : ℕ
        n = count_ours rest w2

        second : Bool → Verdict × W
        second b = elim b [
          | true ↦ (matching, w2)
          | false ↦ check_sectors os crc ctx fd size half rest (m + 1) w2
        ]

        first : Bool → Verdict × W
        first b = elim b [
          | false ↦ check_sectors os crc ctx fd size half rest m w2
          | true ↦ second (leb half (m + 1))
        ]

        reached :
            (b : Bool) → leb half (m + 1) ≡ b → (second b).0 ≡ verdict (leb half (m + (1 + n)))
        reached true e = ap verdict (let h : true ≡ leb half (m + (1 + n)) = ground arith in h)
        reached false e =
            ih (m + 1) (ground arith)
            ∙ ap (λ k. verdict (leb half k)) (let h : m + 1 + n ≡ m + (1 + n) = omega arith in h)

        counted : (b : Bool) → (first b).0 ≡ verdict (leb half (m + ((if b then 1 else 0) + n)))
        counted true = reached (leb half (m + 1)) refl
        counted false =
            ih m lt ∙ ap (λ k. verdict (leb half (m + k))) (let h : n ≡ 0 + n = omega arith in h)

        sought : Bool → Verdict × W
        sought b = elim b [ false ↦ (failing, w1) | true ↦ first ours ]

        go :
            (b : Bool)
            → leb half (m + length (s ∷ rest)) ≡ b
            → (elim b as (λ x. Verdict × W) [
              | false ↦ (differing, w)
              | true ↦ sought (os.lseek fd (s * size) w).0
            ]).0
              ≡ verdict (leb half (m + count_ours (s ∷ rest) w))
        go false e =
            let le = count_ours-le (s ∷ rest) w in
            ap verdict (let h : false ≡ leb half (m + count_ours (s ∷ rest) w) = ground arith in h)
        go true e = ap (λ b. (sought b).0) (seeks (s * size) w) ∙ counted ours

    -- Stopping early does not change the verdict of compare_device_uuids: the sectors match
    -- exactly when a count over all of them, without an early end, reaches half; the position can
    -- be set in every round, and less than half have matched before.
    pub check_sectors-count_ours :
        (sectors : List ℕ) (num_matching : ℕ) (w : W)
        → num_matching < half
        → (check_sectors os crc ctx fd size half sectors num_matching w).0
          ≡ (if leb half (num_matching + count_ours sectors w) then matching else differing)
    unfolding check_sectors count_ours
    check_sectors-count_ours [] m w lt =
        ap verdict (let h : false ≡ leb half (m + 0) = ground arith in h)
    check_sectors-count_ours (s ∷ rest) m w lt =
        check_step s rest m w lt (λ k h.
          check_sectors-count_ours rest k (os.read fd size (os.lseek fd (s * size) w).1).1 h)
