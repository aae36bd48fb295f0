-- ===== src/Search/Uuids.antt =====
-- `compare_device_uuids` of device.c: 4096 random sectors are read until half of them have carried
-- the UUID of the device under test, or no longer can.
pub mod Verdicts
use mfst.Common.{
  ℕ, zero, suc, ◌+◌, ◌-◌, ◌*◌, ◌/◌, ◌%◌, ◌^◌, Bool, true, false, not, ◌&&◌, Option, none, some,
  List, [], ◌∷◌, if◌then◌else◌, ltb, leb, ◌==◌, get_or, length,
}
use mathlib.Core.List.{reverse}
use mfst.Common.{bit_or}
use mfst.Context.{Context}
use mfst.SectorMap.{is_sector_bad}
use mfst.Search.{Verdict, matching, differing, failing, DeviceFile}
use mfst.Sector.{get_embedded_device_uuid}
use mfst.Verify.{same_bytes}

abbrev pub num_sectors_to_check : ℕ
num_sectors_to_check = 4096

-- Whether the sector is one of the list already.
unfoldable pub is_listed : ℕ → List ℕ → Bool
is_listed sector [] = false
is_listed sector (s ∷ rest) = if s == sector then true else is_listed sector rest

module _ {W : Type 0} (os : DeviceFile W) where
  -- 64 random bits from three numbers of 31 bits, reduced to a sector.
  unfoldable pub random_sector : Context → W → ℕ × W
  random_sector ctx w =
      let a = os.random w in
      let b = os.random a.1 in
      let c = os.random b.1 in
      (
        bit_or (bit_or (a.0 * 2 ^ 33 % 2 ^ 64) (b.0 * 2 ^ 2)) (c.0 / 2 ^ 29)
            % ctx.device_info.num_physical_sectors,
        c.1,
      )

  -- The first loop, with the sectors left to find and those that it has found, the last first.
  -- It goes on for as long as the generator gives sectors that are bad or listed: it takes fuel.
  unfoldable pub pick_sectors : ℕ → Context → ℕ → List ℕ → W → Option (List ℕ × W)
  pick_sectors fuel ctx zero listed w = some (listed, w)
  pick_sectors zero ctx (suc left) listed w = none
  pick_sectors (suc fuel) ctx (suc left) listed w =
      let r = random_sector ctx w in
      elim (is_sector_bad ctx r.0) [
        | true ↦ pick_sectors fuel ctx (suc left) listed r.1
        | false ↦ elim (is_listed r.0 listed) [
          | true ↦ pick_sectors fuel ctx (suc left) listed r.1
          | false ↦ pick_sectors fuel ctx left (r.0 ∷ listed) r.1
        ]
      ]

  module _ (crc : ℕ → List ℕ → ℕ) where
    -- Whether what `read` gave is a whole sector with a good checksum and the UUID of the device.
    unfoldable pub is_ours : Context → ℕ → Option (List ℕ) → Bool
    is_ours ctx sector_size none = false
    is_ours ctx sector_size (some buffer) =
        (length buffer == sector_size)
        && (crc 0 buffer == 0)
        && same_bytes (get_embedded_device_uuid buffer) ctx.device_info.device_uuid

    -- The second loop over the sectors that are left; `half` is `num_sectors_to_check / 2`.
    unfoldable pub check_sectors : Context → ℕ → ℕ → ℕ → List ℕ → ℕ → W → Verdict × W
    check_sectors ctx fd sector_size half [] num_matching w = (differing, w)
    check_sectors ctx fd sector_size half (s ∷ rest) num_matching w =
        elim (leb half (num_matching + length (s ∷ rest))) [
          | false ↦ (differing, w)
          | true ↦
              let seek = os.lseek fd (s * sector_size) w in
              elim seek.0 [
                | false ↦ (failing, seek.1)
                | true ↦
                    let r = os.read fd sector_size seek.1 in
                    elim (is_ours ctx sector_size r.0) [
                      | false ↦ check_sectors ctx fd sector_size half rest num_matching r.1
                      | true ↦ elim (leb half (num_matching + 1)) [
                        | true ↦ (matching, r.1)
                        | false ↦ check_sectors ctx fd sector_size half rest (num_matching + 1) r.1
                      ]
                    ]
              ]
        ]

    -- From the choice of the sectors on.
    unfoldable pub check_picked : Context → ℕ → ℕ → Option (List ℕ × W) → Option (Verdict × W)
    check_picked ctx fd sector_size none = none
    check_picked ctx fd sector_size (some (listed, w)) =
        some (check_sectors ctx fd sector_size (num_sectors_to_check / 2) (reverse listed) 0 w)

    unfoldable pub compare_device_uuids : ℕ → Context → ℕ → W → Option (Verdict × W)
    compare_device_uuids fuel ctx fd w =
        let size = os.sector_size fd w in
        elim size.0 [
          | none ↦ some (failing, size.1)
          | some sector_size ↦
              elim (ltb ctx.device_info.num_physical_sectors
                (ctx.endurance_test_info.total_bad_sectors + num_sectors_to_check)) [
                  | true ↦ some (failing, size.1)
                  | false ↦
                      let buffer = os.malloc sector_size size.1 in
                      elim buffer.0 [
                        | none ↦ some (failing, buffer.1)
                        | some b ↦
                            check_picked ctx fd sector_size
                              (pick_sectors fuel ctx num_sectors_to_check [] (os.srandom buffer.1))
                      ]
                ]
        ]
