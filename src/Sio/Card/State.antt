-- ===== src/Sio/Card/State.antt =====
-- The state of a memory card, its steps and its checksum: psxemu/include/psxemu/OfficialMemcard.hpp and
-- psxemu/source/psxemu/OfficialMemcard.cpp. An access past an array is `none`.
use psx.Base.{
  ℕ, ◌+◌, ◌*◌, ◌/◌, ◌%◌, ◌^◌, bit_xor, Bool, Option, none, some, List, [], ◌∷◌, ◌++◌, leb,
  if◌then◌else◌, length, take, drop,
}
use psx.Cpu.State.{◌>>=◌}

pub data CurrState : Type 0 where
  idle getid read write : CurrState

pub data ReadStatus : Type 0 where
  id recv_sector send_ack send_confirm send_sector send_checksum send_end_byte : ReadStatus

pub data WriteStatus : Type 0 where
  id recv_sector recv_data recv_checksum send_ack send_end_byte : WriteStatus

-- `mc_buffer` is empty where no file is loaded.
pub record Card : Type 0 where
  pub state : CurrState
  pub flag : ℕ
  pub rd_status : ReadStatus
  pub wr_status : WriteStatus
  pub cmd_step : ℕ
  pub cmd_max_steps : ℕ
  pub selected_sector : ℕ
  pub is_sector_valid : Bool
  pub is_checksum_valid : Bool
  pub mc_buffer : List ℕ
  pub temp_sector : List ℕ
  pub update_seq_number : ℕ

abbrev pub card_id : List ℕ
card_id = 0x5a ∷ 0x5d ∷ []

abbrev pub cmd_ack : List ℕ
cmd_ack = 0x5c ∷ 0x5d ∷ []

abbrev pub read_max_steps : ReadStatus → ℕ
read_max_steps ReadStatus.id = 2
read_max_steps ReadStatus.recv_sector = 2
read_max_steps ReadStatus.send_ack = 2
read_max_steps ReadStatus.send_confirm = 2
read_max_steps ReadStatus.send_sector = 128
read_max_steps ReadStatus.send_checksum = 1
read_max_steps ReadStatus.send_end_byte = 1

abbrev pub write_max_steps : WriteStatus → ℕ
write_max_steps WriteStatus.id = 2
write_max_steps WriteStatus.recv_sector = 2
write_max_steps WriteStatus.recv_data = 128
write_max_steps WriteStatus.recv_checksum = 1
write_max_steps WriteStatus.send_ack = 2
write_max_steps WriteStatus.send_end_byte = 1

abbrev pub max_sector : ℕ
max_sector = 0x3ff

abbrev pub memcard_size : ℕ
memcard_size = 128 * 1024

abbrev pub sector_size : ℕ
sector_size = 128

abbrev pub end_byte : ℕ
end_byte = 0x47

abbrev pub bad_checksum : ℕ
bad_checksum = 0x4e

abbrev pub bad_sector : ℕ
bad_sector = 0xff

-- The following status; the code asks for none after the last.
abbrev pub next_read : ReadStatus → ReadStatus
next_read ReadStatus.id = ReadStatus.recv_sector
next_read ReadStatus.recv_sector = ReadStatus.send_ack
next_read ReadStatus.send_ack = ReadStatus.send_confirm
next_read ReadStatus.send_confirm = ReadStatus.send_sector
next_read ReadStatus.send_sector = ReadStatus.send_checksum
next_read ReadStatus.send_checksum = ReadStatus.send_end_byte
next_read ReadStatus.send_end_byte = ReadStatus.send_end_byte

abbrev pub next_write : WriteStatus → WriteStatus
next_write WriteStatus.id = WriteStatus.recv_sector
next_write WriteStatus.recv_sector = WriteStatus.recv_data
next_write WriteStatus.recv_data = WriteStatus.recv_checksum
next_write WriteStatus.recv_checksum = WriteStatus.send_ack
next_write WriteStatus.send_ack = WriteStatus.send_end_byte
next_write WriteStatus.send_end_byte = WriteStatus.send_end_byte

-- `n` bytes of an array from `start` on, and the array with the bytes of `part` there.
unfoldable pub slice : ℕ → ℕ → List ℕ → Option (List ℕ)
slice start n arr = if leb (start + n) (length arr) then some (take n (drop start arr)) else none

unfoldable pub splice : ℕ → List ℕ → List ℕ → Option (List ℕ)
splice start part arr =
    if leb (start + length part) (length arr)
    then some (take start arr ++ (part ++ drop (start + length part) arr))
    else none

unfoldable pub xor_all : ℕ → List ℕ → ℕ
xor_all acc [] = acc
xor_all acc (x ∷ xs) = xor_all (bit_xor acc x) xs

-- The checksum of the sector `n` whose bytes are `bytes`.
unfoldable pub checksum : ℕ → List ℕ → ℕ
checksum n bytes = xor_all (bit_xor (n / 2 ^ 8 % 2 ^ 8) (n % 2 ^ 8)) bytes

unfoldable pub compute_sector_checksum : ℕ → Card → Option ℕ
compute_sector_checksum n c =
    slice (n * sector_size) sector_size c.mc_buffer >>= λ bytes. some (checksum n bytes)

unfoldable pub compute_temp_sector_checksum : ℕ → Card → Option ℕ
compute_temp_sector_checksum n c =
    slice 0 sector_size c.temp_sector >>= λ bytes. some (checksum n bytes)
