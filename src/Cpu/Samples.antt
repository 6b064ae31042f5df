-- ===== src/Cpu/Samples.antt =====
-- A status that the runs of several components share.
use psx.Base.{false}
use psx.Cpu.State.{Excode, Pending, Status}

abbrev pub nowhere : Pending
nowhere = record { dest = 32; value = 0 }

abbrev pub plain_status : Status
plain_status = record {
  branch_delay = false;
  branch_dest = 0;
  branch_taken = false;
  curr_mode = 0;
  badvaddr = 0;
  exception_number = Excode.ov;
  exception = false;
  curr_delay = nowhere;
  next_delay = nowhere;
  reg_writeback = nowhere;
  interrupt_mask = 0;
  interrupt_request = 0;
  interrupt_line = false;
  hi_lo_ready_timestamp = 0;
  now = 0;
}
