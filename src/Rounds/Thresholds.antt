-- ===== src/Rounds/Thresholds.antt =====
-- The milestones: the share of the device that they stand for, and their order.
use native.Mathlib.Nat.{mod-add-div, mod-lt, mul-le-mul_right, mul-le-mul_left}
use native.Mathlib.Decide.{dec_lt}
use mfst.Common.{
  ℕ, suc, refl, ◌+◌, ◌*◌, ◌/◌, ◌%◌, ◌≤◌, ◌<◌, ◌≡◌, ◌≢◌, ◌↔◌, ◌⊎◌, inl, inr, arith, true, false, leb,
  ◌==◌, ◌&&◌, Bool, Bool-cases,
}
use mfst.Context.{Context, EnduranceTestInfo, unset}
use mfst.Rounds.{
  threshold, summarise, precompute_thresholds, note, perform_end_of_round_summary, another_round,
}

threshold-le : (n parts bad : ℕ) → 0 < parts → threshold n parts ≤ bad → n ≤ bad * parts
unfolding threshold
threshold-le n parts bad h t =
    let q = n / parts in
    let whole = mod-add-div n parts in
    let rest = mod-lt n h in
    elim (Bool-cases (n % parts == 0)) [
      | inl e ↦ let m = rw e at t in let p = mul-le-mul_right parts m in ground (arith, p, whole, e)
      | inr e ↦
          let m = rw e at t in let p = mul-le-mul_right parts m in omega (arith, p, whole, rest)
    ]

le-threshold : (n parts bad : ℕ) → 0 < parts → n ≤ bad * parts → threshold n parts ≤ bad
unfolding threshold
le-threshold n parts bad h t =
    let q = n / parts in
    let whole = mod-add-div n parts in
    elim (dec_lt bad (threshold n parts)) [
      | no ge ↦ omega arith
      | yes lt ↦ elim (Bool-cases (n % parts == 0)) [
        | inl e ↦
            let m : suc bad ≤ q = (rw e at lt) in
            let p = mul-le-mul_right parts m in ground (arith, p, whole, e)
        | inr e ↦
            let m : bad < q + 1 = (rw e at lt) in
            let l : bad ≤ q = omega arith in
            let p = mul-le-mul_right parts l in ground (arith, p, whole, e)
      ]
    ]

finer : (n a b : ℕ) → b ≤ a → 0 < b → threshold n a ≤ threshold n b
finer n a b le pos =
    let t = threshold n b in
    let reached : n ≤ t * b = threshold-le n b t pos (omega arith) in
    let more : t * b ≤ t * a = mul-le-mul_left t le in
    le-threshold n a t (omega arith) (omega arith)

-- Each of the four milestones of bad sectors is the least count that is at least 0.1, 1, 10 or 25
-- percent of the sectors of the device.
pub precompute_thresholds_lem :
    (ctx : Context) (bad : ℕ)
    → let n = ctx.device_info.num_physical_sectors in
      let info = (precompute_thresholds ctx).endurance_test_info in
      ((info.sectors_to_0_1_threshold ≤ bad) ↔ (n ≤ bad * 1000))
      × ((info.sectors_to_1_threshold ≤ bad) ↔ (n ≤ bad * 100))
      × ((info.sectors_to_10_threshold ≤ bad) ↔ (n ≤ bad * 10))
      × ((info.sectors_to_25_threshold ≤ bad) ↔ (n ≤ bad * 4))
unfolding precompute_thresholds
precompute_thresholds_lem ctx bad =
    let n = ctx.device_info.num_physical_sectors in
    let both : (parts : ℕ) → 0 < parts → (threshold n parts ≤ bad) ↔ (n ≤ bad * parts) =
      λ parts h. (threshold-le n parts bad h, le-threshold n parts bad h) in
    (both 1000 (omega arith), both 100 (omega arith), both 10 (omega arith), both 4 (omega arith))

abbrev pub ThresholdsInOrder : EnduranceTestInfo → Type 0
ThresholdsInOrder info =
    (0 < info.sectors_to_0_1_threshold)
    × (info.sectors_to_0_1_threshold ≤ info.sectors_to_1_threshold)
    × (info.sectors_to_1_threshold ≤ info.sectors_to_10_threshold)
    × (info.sectors_to_10_threshold ≤ info.sectors_to_25_threshold)

pub precompute_thresholds-ThresholdsInOrder :
    (ctx : Context)
    → 0 < ctx.device_info.num_physical_sectors
    → ThresholdsInOrder (precompute_thresholds ctx).endurance_test_info
unfolding precompute_thresholds
precompute_thresholds-ThresholdsInOrder ctx h =
    let n = ctx.device_info.num_physical_sectors in
    (
      elim (dec_lt 0 (threshold n 1000)) [
        | yes lt ↦ lt
        | no ge ↦
            let e : threshold n 1000 ≤ 0 = omega arith in
            omega (arith, threshold-le n 1000 0 (omega arith) e)
      ],
      finer n 1000 100 (omega arith) (omega arith),
      finer n 100 10 (omega arith) (omega arith),
      finer n 10 4 (omega arith) (omega arith),
    )

-- The five rounds: each is the one noted last at the latest, or none is noted.
abbrev pub Noted : ℕ → ℕ → Type 0
Noted round r = (r ≡ unset) ⊎ (r ≤ round)

-- A larger share of bad sectors is reached in the same round or in a later one.
pub record MilestonesInOrder (info : EnduranceTestInfo) : Type 0 where
  pub first : info.rounds_to_first_error ≤ info.rounds_to_0_1_threshold
  pub second : info.rounds_to_0_1_threshold ≤ info.rounds_to_1_threshold
  pub third : info.rounds_to_1_threshold ≤ info.rounds_to_10_threshold
  pub fourth : info.rounds_to_10_threshold ≤ info.rounds_to_25_threshold
  pub noted_first : Noted info.rounds_completed info.rounds_to_first_error
  pub noted_0_1 : Noted info.rounds_completed info.rounds_to_0_1_threshold
  pub noted_1 : Noted info.rounds_completed info.rounds_to_1_threshold
  pub noted_10 : Noted info.rounds_completed info.rounds_to_10_threshold
  pub noted_25 : Noted info.rounds_completed info.rounds_to_25_threshold

note-Noted : (p : Bool) (round r : ℕ) → Noted round r → Noted round (note p round r)
unfolding note
note-Noted true round r h = elim (Bool-cases (r == unset)) [
  | inl e ↦ rw e (inr (omega arith))
  | inr e ↦ rw e h
]
note-Noted false round r h = elim (Bool-cases (r == unset)) [ inl e ↦ rw e h | inr e ↦ rw e h ]

note-order :
    (p q : Bool) (round r s : ℕ)
    → round ≤ unset
    → (q ≡ true → p ≡ true)
    → r ≤ s
    → Noted round r
    → Noted round s
    → note p round r ≤ note q round s
unfolding note
note-order true true round r s small pq le hr hs = ground arith
note-order true false round r s small pq le hr hs = ground arith
note-order false true round r s small pq le hr hs = absurd (ground (arith, pq refl))
note-order false false round r s small pq le hr hs = ground arith

summarise-MilestonesInOrder :
    (info : EnduranceTestInfo)
    → info.rounds_completed ≤ unset
    → ThresholdsInOrder info
    → MilestonesInOrder info
    → MilestonesInOrder (summarise info)
summarise-MilestonesInOrder info small t m =
    let bad = info.total_bad_sectors in
    let round = info.rounds_completed in
    let order = λ (a b r s : ℕ) (le : a ≤ b).
      note-order (leb a bad) (leb b bad) round r s small (λ h. ground arith) in
    record {
      first =
          note-order _ _ round _ _ small (λ h. ground (arith, t.0)) m.first m.noted_first
            m.noted_0_1;
      second = order _ _ _ _ t.1 m.second m.noted_0_1 m.noted_1;
      third = order _ _ _ _ t.2 m.third m.noted_1 m.noted_10;
      fourth = order _ _ _ _ t.3 m.fourth m.noted_10 m.noted_25;
      noted_first = note-Noted _ round _ m.noted_first;
      noted_0_1 = note-Noted _ round _ m.noted_0_1;
      noted_1 = note-Noted _ round _ m.noted_1;
      noted_10 = note-Noted _ round _ m.noted_10;
      noted_25 = note-Noted _ round _ m.noted_25;
    }

-- The end of a round keeps the order of the milestones: a larger share of bad sectors is noted for
-- the same round or a later one, and no round after the current one is noted; the thresholds are
-- in order.
pub perform_end_of_round_summary-MilestonesInOrder :
    (ctx : Context)
    → ctx.endurance_test_info.rounds_completed ≤ unset
    → ThresholdsInOrder ctx.endurance_test_info
    → MilestonesInOrder ctx.endurance_test_info
    → MilestonesInOrder (perform_end_of_round_summary ctx).endurance_test_info
unfolding perform_end_of_round_summary
perform_end_of_round_summary-MilestonesInOrder ctx small t m =
    let info = ctx.endurance_test_info in
    elim (Bool-cases
      ((info.num_new_bad_sectors_this_round == 0) && (info.total_bad_sectors == 0))) [
        | inl e ↦ rw e m
        | inr e ↦ rw e (summarise-MilestonesInOrder info small t m)
      ]

note-reached : (p : Bool) (round r : ℕ) → p ≡ true → round < unset → note p round r ≢ unset
unfolding note
note-reached p round r h small e = ground arith

-- When the test stops because of bad sectors on a device of at least two sectors, all five
-- milestones are noted at the end of that round.
pub last_round_lem :
    (ctx : Context)
    → 2 ≤ ctx.device_info.num_physical_sectors
    → ctx.endurance_test_info.rounds_completed < unset
    → another_round (precompute_thresholds ctx) ≡ false
    → let info = (perform_end_of_round_summary (precompute_thresholds ctx)).endurance_test_info in
      (info.rounds_to_first_error ≢ unset)
      × (info.rounds_to_0_1_threshold ≢ unset)
      × (info.rounds_to_1_threshold ≢ unset)
      × (info.rounds_to_10_threshold ≢ unset)
      × (info.rounds_to_25_threshold ≢ unset)
unfolding another_round perform_end_of_round_summary precompute_thresholds
last_round_lem ctx two small stop =
    let info = ctx.endurance_test_info in
    let n = ctx.device_info.num_physical_sectors in
    let bad = info.total_bad_sectors in
    let half : n / 2 ≤ bad = ground arith in
    let some_bad : ((info.num_new_bad_sectors_this_round == 0) && (bad == 0)) ≡ false =
      elim (Bool-cases (info.num_new_bad_sectors_this_round == 0)) [
        | inl e ↦ rw e (ground arith)
        | inr e ↦ rw e refl
      ] in
    let reached : (parts : ℕ) → 4 ≤ parts → leb (threshold n parts) bad ≡ true = λ parts h.
      let m : bad * 4 ≤ bad * parts = mul-le-mul_left bad h in
      let t = le-threshold n parts bad (omega arith) (omega arith) in ground (arith, t) in
    let round = info.rounds_completed in
    rw some_bad (
      note-reached _ round _ (ground arith) small,
      note-reached _ round _ (reached 1000 (omega arith)) small,
      note-reached _ round _ (reached 100 (omega arith)) small,
      note-reached _ round _ (reached 10 (omega arith)) small,
      note-reached _ round _ (reached 4 (omega arith)) small,
    )
