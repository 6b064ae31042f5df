-- ===== src/Dma/Interrupts.antt =====
-- The master flag of the DMA controller and the interrupt it stands for: laws of
-- psxemu/source/psxemu/DmaController.cpp.
use psx.Base.{
  ◌==◌, ◌/◌, ◌&&◌, not, if_either, inl, ◌≢◌, bit_and, ◌⊎◌, ◌↔◌, ℕ, ◌^◌, ◌≡◌, refl, Bool, true,
  false, arith,
}
use psx.Base.Words.{bit}
use psx.Cpu.State.{Status}
use psx.Dma.Control.{
  Dicr, master_condition, update_master_irq, write_dicr, read_dicr, signal_exception,
  interrupt_request,
}

-- The master flag is set exactly if a bus error is flagged, or the interrupts are enabled and an
-- enabled channel has requested one.
abbrev pub IsSettled : Dicr → Type 0
IsSettled d =
    (d.master_irq ≡ true)
    ↔ (d.bus_error ≡ true)
      ⊎ (d.master_int_enable ≡ true) × (bit_and d.channel_int_req d.channel_int_enable ≢ 0)

update_master_irq-IsSettled : (d : Dicr) → IsSettled (update_master_irq d)
unfolding update_master_irq master_condition
update_master_irq-IsSettled d = ground arith

-- What happens to the register.
pub data Step : Dicr → Dicr → Type 0 where
  writes : (d : Dicr) (value : ℕ) → Step d (write_dicr value d)
  reads : (d : Dicr) → Step d ((read_dicr d).1)
  excepts : (d : Dicr) (s : Status) → Step d ((signal_exception d s).0)
  requests :
      (d : Dicr) (id : ℕ) (last : Bool) (s : Status) → Step d ((interrupt_request id last d s).0)

-- The master flag is up to date after every access and every request of a channel: it is set exactly
-- if a bus error is flagged, or the interrupts are enabled and an enabled channel has requested one.
pub Step-IsSettled : {d d' : Dicr} → Step d d' → IsSettled d → IsSettled d'
unfolding write_dicr read_dicr signal_exception interrupt_request update_master_irq
Step-IsSettled (writes d value) h = update_master_irq-IsSettled _
Step-IsSettled (reads d) h = update_master_irq-IsSettled d
Step-IsSettled (excepts d s) h = (λ e. inl refl, λ e. refl)
Step-IsSettled (requests d id last s) h =
    let P = λ (r : Dicr × Status). IsSettled r.0 in
    if_either P (not last && d.interrupt_on_block / 2 ^ id == 0) h (
      if_either P (bit id d.channel_int_enable == 1) (update_master_irq-IsSettled _)
        (update_master_irq-IsSettled d))

-- A bus error of a transfer interrupts nobody: it sets the flag and the master flag and clears the
-- exception, and leaves the requested interrupts and the interrupt line as they were, whatever the
-- register held.
pub signal_exception_silent :
    (d : Dicr) (s : Status)
    → let (d', s') = signal_exception d s in
      (d'.bus_error ≡ true) × (d'.master_irq ≡ true) × (s' ≡ record s { exception = false })
unfolding signal_exception update_master_irq master_condition
signal_exception_silent d s = (refl, refl, refl)
