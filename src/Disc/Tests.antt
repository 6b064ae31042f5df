-- ===== src/Disc/Tests.antt =====
-- The theorems on positions at concrete inputs.
use psx.Base.{◌≡◌, arith}
use psx.Disc.Location.{CdLocation, sect_to_location, to_sect}
use psx.Disc.Sectors.{sect_to_location-to_sect}

-- The last sector of the disc, and one in its first minute.
abbrev last_sector : CdLocation
last_sector = record { mm = 73; ss = 59; sect = 74 }

abbrev early : CdLocation
early = record { mm = 0; ss = 2; sect = 16 }

sect_to_location-to_sect_example : sect_to_location (to_sect last_sector) ≡ last_sector
sect_to_location-to_sect_example = sect_to_location-to_sect last_sector (omega arith)
