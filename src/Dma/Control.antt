-- ===== src/Dma/Control.antt =====
-- The interrupt register of the DMA controller: the union `DICR` of
-- psxemu/include/psxemu/DmaController.hpp, and what psxemu/source/psxemu/DmaController.cpp does to it.
use psx.Base.{
  ℕ, ◌+◌, ◌-◌, ◌*◌, ◌/◌, ◌%◌, ◌^◌, bit_and, bit_or, Bool, true, false, not, ◌&&◌, ◌||◌, ◌==◌,
  if◌then◌else◌,
}
use psx.Base.Words.{bit}
use psx.Cpu.State.{Status}
use psx.Timers.Irq.{interrupt}
use psx.Timers.Mode.{flag, from_flag}

-- `spare` holds the eight bits without a name.
pub record Dicr : Type 0 where
  pub interrupt_on_block : ℕ
  pub spare : ℕ
  pub bus_error : Bool
  pub channel_int_enable : ℕ
  pub master_int_enable : Bool
  pub channel_int_req : ℕ
  pub master_irq : Bool

unfoldable pub dicr_of_raw : ℕ → Dicr
dicr_of_raw raw = record {
  interrupt_on_block = raw % 2 ^ 7;
  spare = raw / 2 ^ 7 % 2 ^ 8;
  bus_error = flag 15 raw;
  channel_int_enable = raw / 2 ^ 16 % 2 ^ 7;
  master_int_enable = flag 23 raw;
  channel_int_req = raw / 2 ^ 24 % 2 ^ 7;
  master_irq = flag 31 raw;
}

unfoldable pub raw_of_dicr : Dicr → ℕ
raw_of_dicr d =
    d.interrupt_on_block
    + 2 ^ 7 * d.spare
    + 2 ^ 15 * from_flag d.bus_error
    + 2 ^ 16 * d.channel_int_enable
    + 2 ^ 23 * from_flag d.master_int_enable
    + 2 ^ 24 * d.channel_int_req
    + 2 ^ 31 * from_flag d.master_irq

-- What `UpdateMasterIRQ` computes.
unfoldable pub master_condition : Dicr → Bool
master_condition d =
    d.bus_error || d.master_int_enable && not (bit_and d.channel_int_req d.channel_int_enable == 0)

unfoldable pub update_master_irq : Dicr → Dicr
update_master_irq d = record d { master_irq = master_condition d }

-- A write of the register: the request flags that are written as 1 are acknowledged.
unfoldable pub write_dicr : ℕ → Dicr → Dicr
write_dicr value d = update_master_irq (record (dicr_of_raw value) {
  master_irq = d.master_irq;
  channel_int_req = bit_and d.channel_int_req (2 ^ 7 - 1 - value / 2 ^ 24 % 2 ^ 7);
})

-- A read brings the master flag up to date first.
unfoldable pub read_dicr : Dicr → ℕ × Dicr
read_dicr d = (raw_of_dicr (update_master_irq d), update_master_irq d)

abbrev pub dma_interrupt : ℕ
dma_interrupt = 2 ^ 3

-- `SignalException`
unfoldable pub signal_exception : Dicr → Status → Dicr × Status
signal_exception d s =
    let d' = update_master_irq (record d { bus_error = true }) in
    let s' = if d'.master_irq then s else interrupt dma_interrupt s in
    (record d' { master_irq = true }, record s' { exception = false })

-- `InterruptRequest` of a channel, at the end of a block or of the transfer.
unfoldable pub interrupt_request : ℕ → Bool → Dicr → Status → Dicr × Status
interrupt_request id last d s =
    if not last && d.interrupt_on_block / 2 ^ id == 0
    then (d, s)
    else if bit id d.channel_int_enable == 1
    then (
      update_master_irq (record d { channel_int_req = bit_or d.channel_int_req (2 ^ id) }),
      interrupt dma_interrupt s,
    )
    else (update_master_irq d, s)
