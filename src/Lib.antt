-- ===== src/Lib.antt =====
-- A verification library for the emulator: its processor, the bus, the scheduler, the timers, the
-- interrupt controller, the DMA controller, its queues, the positions on its discs, the
-- serial port with its controllers and memory cards, the decoders of compressed sound, and the
-- geometry engine.
--
-- Cpu models the MIPS R3000A interpreter. State holds the records of
-- psxemu/include/psxemu/SystemStatus.hpp (`system_status`, as `Status`), MIPS1.hpp (`MIPS1`, as
-- `Mips1`) and cop0.hpp. Opcode is the decode table of cpu_instruction.hpp. Alu, Memory, Branch, MulDiv
-- and Coprocessor are the handlers of InstructionHandlers.hpp, a function of the instruction and the
-- machine for each template, with the C++ opcode parameter as an argument. Exceptions is
-- psxemu/source/psxemu/cop0.cpp with `Exception` and its relatives of SystemStatus.hpp and the
-- register accesses of MIPS1.cpp. Interpret is Interpreter.cpp. Step is `StepInstruction` of MIPS1.cpp,
-- with interrupts, the delayed writes and the stack of BIOS calls.
-- A handler returns the new machine, or `none` where the code stops at `__debugbreak`.
-- The laws stand in Modes, Unaligned, Overflow, Products, Pipeline and Frames, those of the engine
-- behind the processor in Engine and Rounds, and the runs in Tests. System is the loop of
-- psxemu/source/psxemu/System.cpp, `RunInterpreter`, over an interface `Rest` of the DMA controller, the
-- scheduler and the callbacks.
--
-- The processor calls the bus, the geometry engine and two hooks of the kernel. These are the fields
-- of the record `Env` of Cpu/State.antt, which the definitions take as a parameter: a bus access may
-- change the status (a fault sets `exception`) and the bus, a hook may change the whole machine. The
-- hooks do not reach the stack of BIOS calls, which is private to the class. The timestamp of the
-- scheduler, which the handlers only read, is the field `now`.
-- A word is its bit pattern, a number below 2 ^ 32; sums, differences and shifts wrap round as in
-- the source. Shifts and masks of low bits are written as division and remainder, and the fields of
-- `sr` and `cause` by `bit` and `set_bit`. Messages that the code prints are left out.
--
-- Scheduler models psxemu/include/psxemu/Scheduler.hpp and psxemu/source/psxemu/Scheduler.cpp: State has
-- the queue of events with Schedule and Deschedule, Advance has Advance and NextEvent. The
-- array of events is the list of its first `m_num_events` elements. The heap operations of the C++ library
-- are the record `Heap` with their documented laws, and the functions behind the addresses of the
-- callbacks are a parameter `call`, which may change the scheduler too. The laws stand in Finish, Order
-- and Change.
--
-- Timers models psxemu/include/psxemu/RootCounters.hpp and psxemu/source/psxemu/RootCounters.cpp: Mode
-- is the mode register, Counter the counting, Irq the interrupt line with `Interrupt` of
-- SystemStatus.hpp, Events and Sync the callbacks and the blanking signals, Registers the accesses of the
-- processor. The scheduler that a counter arms is the interface `Events`, and the time is the field `now`
-- of the status. The laws stand in Valid, Reach, Count, Oneshot and Pause; Armed fills the interface by the
-- scheduler and joins the two.
--
-- Bus models psxemu/include/psxemu/SystemBus.hpp, psxemu/source/psxemu/SystemBus.cpp, MemoryControl.cpp
-- and the address arithmetic of VirtualAddress.hpp: Config and Control are the registers of the memory
-- controller with the delays they set, Io is the dispatch of the registers, Access is Read and
-- Write of a virtual address. The mapping of the guest's memory into the host is the interface
-- `GuestMemory`, and the devices behind the registers are the interface `Devices`. The laws stand in Delays
-- and Faults.
--
-- Dma models the DMA controller of psxemu/source/psxemu: Control is the interrupt register DICR with
-- the signal of a channel, Active the queue of active transfers, Channel the registers and the
-- transfers of `DmaBase`, over an interface `Device` of the bus and of what the channel serves, and
-- Ordering the transfer that clears an ordering table, the loop and its fast and vector forms. There
-- memory is a function of the index of a word, and the write through the bus is a parameter, which may
-- raise an exception. The
-- laws stand in Interrupts, Priority, Slices, Fast and Vector.
--
-- Containers models common/Queue.hpp: Queue has the array with its count, Refine, Run and Sequence the
-- list that it stands for. An access past the array, which the code does not check, is `none`.
--
-- Sio models psxemu/source/psxemu/SIOPort.cpp, SIOPadMemcardDriver.cpp, OfficialMemcard.cpp and
-- StandardController.cpp with their headers: Port is the port (State its registers, Transfer the
-- transfers, Registers the accesses of the processor), Driver what stands between a port and the two
-- devices of a slot, Card the memory card and Pad the controller (State the data, Send the protocol
-- of each). A device of a port is the interface `Line`, which the driver fills, a device of a slot
-- the interface `Plugged`, which these two fill, and the scheduler's part the interface `Alarm`. The
-- laws of the port stand in Exchange, Bounds, Reach and Repeat, those of the card in Read, Write,
-- Store, Valid, Safe and Frames, those of the controller in Answer and Poll, Session joins the
-- parts, and Room fills the interface by the scheduler.
--
-- Sound models psxemu/source/psxemu/ADPCM.cpp: Adpcm has the decoders of a block of a voice and of a
-- sector. Samples are integers, and the bytes of a sector a function of their place. Where the code
-- passes one variable for two, there is a second form of the decoder. The laws stand in Range and
-- Sector.
--
-- Gte models the geometry engine, psxemu/source/psxemu/GTE.cpp and GTEOpcodes.cpp with GTE.hpp and
-- GTEStructs.hpp: State is the union `GTE_Regs` as its 64 words with the typed fields by their
-- places, Saturate the templates that set an accumulator or saturate a value with their flags and
-- the queues, Registers the accesses of the processor, Multiply the shared products, Perspective
-- and Color the commands, Command their encoding and `Cmd`. A signed value is an integer, which the
-- conversions to i16, i32 and to 44 bits cut; a template parameter is an argument. The bus, whose
-- cycles `InterlockCommand` counts, is a parameter. The laws stand in Divide, Area, Fifo, Mirror
-- and Access; Program puts this engine behind the processor, by the laws of Cpu/Engine, Cpu/Rounds and Cpu/System.
--
-- The status of Cpu/State.antt is what these parts share: the counters, the DMA controller and the
-- serial port raise an interrupt by it, the bus a fault, and the processor reads both at its next
-- step.
--
-- Disc models psxemu/include/psxemu/CdLocation.hpp: Location has the operators and Sectors their laws;
-- Bcd has bcd_to_normal, whose loop runs on fuel 16, the number of nibbles of a u64.
-- A u64 is an unbounded number there.
--
-- Base has the names that the modules share: Boolean tests, lists, signed integers, words, and the laws
-- of the bitwise operators.
--
-- No definition of Cpu, Timers, Bus or Sio takes fuel: the one loop of Cpu, `unwind`, recurs on the
-- stack of calls. The loops of Dma recur on the number of words to write. The loop of Advance runs
-- on fuel, since a callback may schedule for ever: the queue has at most 60 events and a turn
-- removes one, so fuel 61 is enough where the callbacks add no event that is due. Not modelled: the
-- stack and the arena of common, the set-up of the memory map on the host, the transfers of DMA that
-- the drive and the sound unit replace, the file of a memory card, the drive, the motion decoder,
-- the rest of sound, graphics and the kernel's emulation, which the parts above only reach through
-- the interfaces; and what only talks to the host, such as the renderer, the debug server and the
-- windows.
pub mod Base
pub mod Cpu
pub mod Disc
pub mod Bus
pub mod Dma
pub mod Timers
pub mod Scheduler
pub mod Containers
pub mod Sio
pub mod Sound
pub mod Gte
