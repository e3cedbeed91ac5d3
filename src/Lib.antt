-- ===== src/Lib.antt =====
-- A model of rp4os, a kernel for the Raspberry Pi 4 written in Rust, and what makes its parts
-- correct.
--
-- The kernel maps memory through three statics behind locks: the translation tables, the mapping
-- records and the allocator of virtual pages for devices. Drivers ask for their registers by
-- physical address and get a virtual one; the interrupt controller routes, enables and dispatches
-- their interrupts. Each static is a record here, each operation a function by clauses that passes
-- the state on, also when it fails, so that what a failed call leaves behind can be stated.
--
-- Base holds the shared lists, tests, bit operations and the two result types: an Outcome is a
-- value, the message of an Err, or a panic, or tells that the run is still in a loop after the turns
-- that it was given, which no code takes for a panic; an Exec passes a state to an Outcome and a state.
-- Registers holds the bit fields of the crate tock-registers as a parameter, a record of its calls
-- with their documented laws, and a concrete instance of it.
--
-- Memory.Align and Memory.Address: src/lib.rs (is_aligned, align_down, align_up) and
--   src/memory/mod.rs (Address). An address is its number below 2 ^ 64; the address-space marker has
--   no run-time content.
-- Mmu.Region: PageAddress, MemoryRegion and MMIODescriptor of src/memory/mmu/mod.rs. An isize is
--   its 64-bit pattern, so a cast changes nothing and the sign is read off the top bit.
-- Mmu.PageAlloc: src/memory/mmu/page_alloc.rs.
-- Mmu.Descriptor and Mmu.Table: src/arch/aarch64/mmu/translation_table.rs. The level 3 array is a
--   function of two indices, with the bounds checks of an access written out; any number of level
--   2 entries is covered, and the kernel has two (1 GiB in tables of 512 MiB).
-- Mmu.Records: src/memory/mmu/mapping_record.rs, its 20 slots as a list. The unstable sort is an
--   insertion sort: the order of records with one address, which the library leaves open, is one
--   choice.
-- Sync: src/synchronization.rs, src/state.rs, the interrupt mask of
--   src/arch/aarch64/exception/mod.rs and src/exception/asynchronous.rs, as one Machine with the
--   statics' content. One core runs, as the pseudo-locks require.
-- Bsp.Layout: the linker's regions of src/bsp/memory/mod.rs and src/bsp/memory/mmu.rs. The linker's
--   symbols are a parameter.
-- Mmu.Kernel: the mapping calls of src/memory/mmu/mod.rs, src/memory/mmu/mapping_record.rs and
--   src/bsp/memory/mmu.rs, composed as the code composes them.
-- Mmu.Enable: src/arch/aarch64/mmu/mod.rs. The names of the crate aarch64-cpu are a parameter, with the
--   places and values of the architecture as laws; the writes and barriers are kept in order.
-- Gic: src/bsp/drivers/gicv2 and BoundedUsize of src/bsp/drivers/common.rs. The registers of the
--   distributor and of the CPU interface are numbers; a handler is a function on the state of the
--   devices.
-- Uart: src/bsp/drivers/bcm2xxx_pl011.rs. The device is its queues and, for each flag that the driver
--   polls, for how many polls it stays set; the loops take a number of polls and of turns, and the
--   theorems say how many are enough. The set-up is its register writes in order: the device
--   remembers whether it was turned off while it was sending or rewritten while it was on, and takes
--   its divisor when LCR_H is written.
-- Gpio: src/bsp/drivers/bcm2xxx_gpio.rs, the two registers that it writes.
-- Time: src/arch/aarch64/time.rs. An unchecked multiplication that would overflow is a panic of the
--   model, so that none happening is stated. The wait takes a number of reads of the counter, which is
--   a function of the number of the read; it is enough to read once more than the ticks ask for, in
--   periods in which the counter moves.
-- Drivers: the driver manager of src/driver.rs. A driver's calls are functions on the state of the
--   rest of the kernel.
-- Devices: the three drivers of the board as the manager calls them, the console of src/console and
--   src/print.rs and the IRQ manager of src/exception with their null objects. A reference to a
--   trait object is a choice among the objects that there are. The interrupt handler of the UART runs
--   on the devices: its lock would mask IRQs that are masked while an exception is taken.
-- Board: init of src/bsp/driver.rs, over the kernel's mappings, the manager and the devices together.
-- Exception: the functions of src/arch/aarch64/exception/vector.rs that the vector table calls.
-- Panic: src/panic.rs. What is printed, and whether printing it panics, is a parameter. Two rounds of
--   the handler are enough when the UART always gets room; a UART that never does keeps it printing.
-- Loader: the transfer of a kernel image between boot_console/src/main.rs and kernelloader/main.rs. A
--   byte that never arrives is a run that does not end; the two reads of the sender are arguments.
-- Examples: the theorems at concrete inputs.
--
-- The build is a release build, so + and - wrap at 2 ^ 64. Loops run over lists or over a count; the
-- polling loops of the serial port, the wait of the timer and the panic handler take fuel. Not
-- modelled: the formatting of text, the assembly of the boot code and of the exception entry with the
-- register context that it saves, and what kernel_main prints once the kernel has started.
pub mod Base
pub mod Memory
pub mod Mmu
pub mod Registers
pub mod Sync
pub mod Time
pub mod Bsp
pub mod Gic
pub mod Gpio
pub mod Heap
pub mod Examples
pub mod Uart
pub mod Drivers
pub mod Devices
pub mod Board
pub mod Exception
pub mod Panic
pub mod Main
pub mod Loader
