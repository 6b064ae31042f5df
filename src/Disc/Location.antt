-- ===== src/Disc/Location.antt =====
-- psxemu/include/psxemu/CdLocation.hpp: a position as minute, second and sector. Numbers are unbounded,
-- where the source's u64 would wrap at 2 ^ 64 bytes.
use psx.Base.{ℕ, ◌+◌, ◌-◌, ◌*◌, ◌/◌, ◌%◌, Bool, ltb, leb, if◌then◌else◌}

pub record CdLocation : Type 0 where
  pub mm : ℕ
  pub ss : ℕ
  pub sect : ℕ

abbrev pub minutes_per_disk : ℕ
minutes_per_disk = 74

abbrev pub seconds_per_minute : ℕ
seconds_per_minute = 60

abbrev pub sectors_per_second : ℕ
sectors_per_second = 75

abbrev pub full_sector_size : ℕ
full_sector_size = 0x930

-- `operator++`: the three carries, one after the other.
unfoldable pub increment : CdLocation → CdLocation
increment l =
    let sect = l.sect + 1 in
    let ss = if leb sectors_per_second sect then l.ss + 1 else l.ss in
    let sect' = if leb sectors_per_second sect then sect % sectors_per_second else sect in
    let mm = if leb seconds_per_minute ss then l.mm + 1 else l.mm in
    let ss' = if leb seconds_per_minute ss then ss % seconds_per_minute else ss in
    record { mm = if leb minutes_per_disk mm then 0 else mm; ss = ss'; sect = sect' }

unfoldable pub sect_to_location : ℕ → CdLocation
sect_to_location n =
    let ss = if leb sectors_per_second n then n / sectors_per_second else 0 in
    let sect = if leb sectors_per_second n then n % sectors_per_second else n in
    let mm = if leb seconds_per_minute ss then ss / seconds_per_minute else 0 in
    let ss' = if leb seconds_per_minute ss then ss % seconds_per_minute else ss in
    record { mm = mm; ss = ss'; sect = sect }

unfoldable pub to_sect : CdLocation → ℕ
to_sect l = l.mm * seconds_per_minute * sectors_per_second + l.ss * sectors_per_second + l.sect

unfoldable pub to_lba : CdLocation → ℕ
to_lba l =
    (l.mm * seconds_per_minute * sectors_per_second + l.ss * sectors_per_second + l.sect)
    * full_sector_size

unfoldable pub from_lba : ℕ → CdLocation
from_lba lba =
    let abs_sect = lba / full_sector_size in
    let abs_second = abs_sect / sectors_per_second in
    record {
      mm = abs_second / seconds_per_minute;
      ss = abs_second % seconds_per_minute;
      sect = abs_sect % sectors_per_second;
    }

-- `operator+` and `operator-`
unfoldable pub add_location : CdLocation → CdLocation → CdLocation
add_location a b = sect_to_location (to_sect a + to_sect b)

unfoldable pub sub_location : CdLocation → CdLocation → CdLocation
sub_location a b =
    if ltb (to_sect a) (to_sect b)
    then record { mm = 0; ss = 0; sect = 0 }
    else sect_to_location (to_sect a - to_sect b)

-- `operator>`, `operator<`, `operator>=` and `operator<=`
unfoldable pub gt_location : CdLocation → CdLocation → Bool
gt_location a b = ltb (to_lba b) (to_lba a)

unfoldable pub lt_location : CdLocation → CdLocation → Bool
lt_location a b = ltb (to_lba a) (to_lba b)

unfoldable pub ge_location : CdLocation → CdLocation → Bool
ge_location a b = leb (to_lba b) (to_lba a)

unfoldable pub le_location : CdLocation → CdLocation → Bool
le_location a b = leb (to_lba a) (to_lba b)
