-- ===== src/Sound/Tests.antt =====
-- The theorems of the sound decoders at concrete inputs.
use psx.Base.{◌+◌, ◌≡◌, refl, true, false, length, replicate, arith}
use psx.Base.Int.{pos, negsuc}
use psx.Sound.Adpcm.{Block, decode_adpcm_block, decode_sector, sample_count}
use psx.Sound.Range.{InRange, AllInRange, decode_adpcm_block-InRange}
use psx.Sound.Sector.{decode_sector_lem}

abbrev loud : Block
loud = record { shift = 0; filter = 2; compressed_samples = replicate 14 0x87 }

decode_adpcm_block-InRange_example :
    let r = decode_adpcm_block loud (pos 100) (negsuc 6) in
    (length (r.0) ≡ 28) × AllInRange (r.0) × InRange (r.1) × InRange (r.2)
decode_adpcm_block-InRange_example =
    decode_adpcm_block-InRange loud (pos 100) (negsuc 6) refl
      (record { top = omega arith; bottom = omega arith })
      (record { top = omega arith; bottom = omega arith })

decode_sector_lem_example :
    let d = decode_sector true (λ i. i + 7) in
    (length d.left ≡ sample_count true false)
    × (length d.right ≡ sample_count true false)
    × AllInRange d.left
    × AllInRange d.right
decode_sector_lem_example = decode_sector_lem true (λ i. i + 7)
