-- ===== src/Capacity.antt =====
-- Capacity figures: roundDownCapacityPretty (pkg/hostpath/utils.go), fsInfo and getPVStats
-- (pkg/hostpath/healthcheck.go), getVolumeDirCapacity (pkg/hostpath/controllerserver.go).
pub mod Rounding
use hostpath_provisioner.Base.{
  ℕ, suc, ◌*◌, ◌/◌, ℤ, pos, negsuc, sub_ℕ, ◌-ℤ◌, ◌*ℤ◌, ltb_ℤ, to_int64, Text, bytes, List, [], ◌∷◌,
  ◌++◌, Result, ok, err, Error, status, message, internal, if◌then◌else◌,
}
use hostpath_provisioner.FilePath.{base}
use hostpath_provisioner.Os.{Os, StatFs}

abbrev pub kib : ℕ
kib = 1024

abbrev pub mib : ℕ
mib = kib * 1024

abbrev pub gib : ℕ
gib = mib * 1024

-- Go's division of an int64 by a positive number: towards zero.
unfoldable pub quotient : ℤ → ℕ → ℤ
quotient (pos n) u = pos (n / u)
quotient (negsuc n) u = sub_ℕ 0 (suc n / u)

-- The loop over the units, from the largest.
unfoldable pub round_to_units : List ℕ → ℤ → ℤ
unfolding quotient ◌*ℤ◌
round_to_units [] capacity = capacity
round_to_units (u ∷ us) capacity =
    let size = quotient capacity u in
    let rest = round_to_units us capacity in if ltb_ℤ size (pos 10) then rest else size *ℤ pos u

unfoldable pub round_down_capacity_pretty : ℤ → ℤ
unfolding round_to_units
round_down_capacity_pretty capacity = round_to_units (gib ∷ mib ∷ []) capacity

-- The six numbers that fsInfo returns.
pub record FsInfo : Type 0 where
  pub available : ℤ
  pub capacity : ℤ
  pub usage : ℤ
  pub inodes : ℤ
  pub inodes_free : ℤ
  pub inodes_used : ℤ

-- The arithmetic of fsInfo, on int64.
unfoldable pub fs_numbers : StatFs → FsInfo
fs_numbers st =
    let inodes = to_int64 (pos st.files) in
    let inodes_free = to_int64 (pos st.ffree) in
    record {
      available = to_int64 (to_int64 (pos st.bavail) *ℤ st.bsize);
      capacity = to_int64 (to_int64 (pos st.blocks) *ℤ st.bsize);
      usage = to_int64 (to_int64 (to_int64 (pos st.blocks) -ℤ to_int64 (pos st.bfree)) *ℤ st.bsize);
      inodes = inodes;
      inodes_free = inodes_free;
      inodes_used = to_int64 (inodes -ℤ inodes_free);
    }

module _ (O : Os) where
  unfoldable pub fs_info : Text → O.State → Result FsInfo
  fs_info path s = elim (O.statfs path s) [ ok st ↦ ok (fs_numbers st) | err e ↦ err e ]

  unfoldable pub get_pv_stats : Text → O.State → Result FsInfo
  unfolding fs_info
  get_pv_stats volume_path s = fs_info volume_path s

  unfoldable pub get_volume_dir_capacity : Text → O.State → Result ℤ
  unfolding get_pv_stats
  get_volume_dir_capacity path s = elim (get_pv_stats path s) [
    | ok info ↦ ok (O.quantity_int64 (round_down_capacity_pretty info.capacity))
    | err e ↦ err (
        status internal (
          bytes "Unable to determine capacity for volume " ++ base path ++ bytes ": " ++ message e))
  ]
