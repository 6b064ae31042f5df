-- ===== src/Disc/Sectors.antt =====
-- Positions count sectors: laws of the operators of psxemu/include/psxemu/CdLocation.hpp.
use psx.Base.{ℕ, ◌+◌, ◌-◌, ◌*◌, ◌/◌, ◌%◌, ◌<◌, ◌≤◌, ◌≡◌, ◌↔◌, true, arith}
use psx.Disc.Location.{
  CdLocation, increment, sect_to_location, to_sect, to_lba, from_lba, add_location, sub_location,
  lt_location, le_location, gt_location, ge_location,
}

-- A position on a disc: second and sector in their ranges, within the 74 minutes.
pub record IsOnDisc (l : CdLocation) : Type 0 where
  pub minute : l.mm < 74
  pub second : l.ss < 60
  pub sector : l.sect < 75

-- The position of a sector number counts that many sectors, with second and sector in their ranges.
pub to_sect-sect_to_location :
    (n : ℕ)
    → (to_sect (sect_to_location n) ≡ n)
      × ((sect_to_location n).ss < 60)
      × ((sect_to_location n).sect < 75)
unfolding to_sect sect_to_location
to_sect-sect_to_location n = ground arith

-- A position on the disc is the position of its sector number.
pub sect_to_location-to_sect : (l : CdLocation) → IsOnDisc l → sect_to_location (to_sect l) ≡ l
unfolding to_sect sect_to_location
sect_to_location-to_sect l v = ground arith

-- The byte address of a position on the disc leads back to it, from any byte of the sector.
pub from_lba-to_lba :
    (l : CdLocation) (offset : ℕ) → IsOnDisc l → offset < 0x930 → from_lba (to_lba l + offset) ≡ l
unfolding from_lba to_lba
from_lba-to_lba l offset v h = ground arith

-- The two ways to find a position agree: from a byte address, and from the sector that holds it.
pub from_lba_lem : (lba : ℕ) → from_lba lba ≡ sect_to_location (lba / 0x930)
unfolding from_lba sect_to_location
from_lba_lem lba = ground arith

-- The increment goes to the next sector of the disc, from the last one to the first, and stays on it.
pub increment_lem :
    (l : CdLocation)
    → IsOnDisc l
    → (to_sect (increment l) ≡ (to_sect l + 1) % (74 * 60 * 75)) × IsOnDisc (increment l)
unfolding increment to_sect
increment_lem l v = ground arith

-- Addition and subtraction of positions: a subtraction undoes an addition.
pub sub_location-add_location :
    (a b : CdLocation) → IsOnDisc a → sub_location (add_location a b) b ≡ a
unfolding sub_location add_location
sub_location-add_location a b v = ground (
  arith,
  to_sect-sect_to_location (to_sect a + to_sect b),
  sect_to_location-to_sect a v,
  add-sub (to_sect a) (to_sect b),
)
  where
    add-sub : (x y : ℕ) → x + y - y ≡ x
    add-sub x y = omega arith

-- Each of the four comparisons of positions is that of their sector numbers.
pub compare_location_iff :
    (a b : CdLocation)
    → ((lt_location a b ≡ true) ↔ (to_sect a < to_sect b))
      × ((le_location a b ≡ true) ↔ (to_sect a ≤ to_sect b))
      × ((gt_location a b ≡ true) ↔ (to_sect b < to_sect a))
      × ((ge_location a b ≡ true) ↔ (to_sect b ≤ to_sect a))
unfolding lt_location le_location gt_location ge_location to_lba to_sect
compare_location_iff a b = ground arith
