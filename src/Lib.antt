-- ===== src/Lib.antt =====
-- aVisor, a hypervisor for the Raspberry Pi 3: the state and the operations of its components, as
-- functions on explicit state, and what holds of them.
--
-- A VM is a task. The scheduler picks the task that runs, the memory manager gives it pages and
-- translates its addresses, and its accesses to devices trap to an emulated board, whose mini UART
-- has two rings between the VM and the console. The parts, and the files that model them:
--
-- - Prelude: numbers, tests, lists and the bit operations that the other files share.
-- - Pages: the pool of physical pages (hypervisor/common/mm.c get_free_page to deallocate_page,
--   hypervisor/boards/raspi/raspi3b.c). A `Machine` is the pool and the words of physical memory;
--   a function that changes it returns the new one. A machine remembers that get_free_page has
--   called PANIC, which ends the current task; nothing more is then done for that task. That PANIC
--   comes back in task 0 while no other task runs is left out.
-- - Stage2: the stage-2 tables (hypervisor/common/mm.c map_stage2_page and what is built on it).
--   Tables are words of the machine's memory; Stage2.Tree says which pages are tables of which
--   task, and models the walk of the MMU as an independent function.
-- - Fifo: the rings (hypervisor/common/fifo.c); Fifo.Queue is the queue that they stand for.
-- - Task, Board: struct task_struct (include/common/sched.h, include/common/task.h), the state of
--   the emulated board and the addresses of its registers (hypervisor/emulator/raspi/bcm2837.c,
--   include/boards/raspi).
-- - Sched: the choice of the next task (hypervisor/common/sched.c). `current` is a place of `task`.
--   The search truncates counters to an `int` (Prelude.Int), as the code does; a valid system has
--   counters that an `int` holds, here and in lrtos.
-- - VmWork: what is done when a VM is entered and left (hypervisor/common/sched.c
--   vm_entering_work and vm_leaving_work, hypervisor/arch/aarch64/utils.S save_sysregs and
--   restore_sysregs).
-- - Bcm2837: the emulated board (hypervisor/emulator/raspi/bcm2837.c): its start, the interrupt
--   controller, the mini UART and the system timer, one file each, and
--   in Bcm2837.Mmio the dispatch on the address.
-- - Timer: the reading of the system timer (hypervisor/boards/raspi/timer.c). The counter at each
--   read is an argument.
-- - Vmbox: the mailbox of the board (hypervisor/emulator/raspi/vmbox.c), shared by all VMs.
-- - Regs, Trap: what a VM traps for (hypervisor/arch/aarch64/sync_exc.c, and
--   hypervisor/common/mm.c handle_mem_abort): the registers of the task, the trapped instruction,
--   and the page or the device behind a data abort. `World` is what a trap can change, `Env` what
--   the hardware answers meanwhile.
-- - Console: the console of a VM (hypervisor/arch/aarch64/task.c).
-- - Uart: the keys that reach the hypervisor (hypervisor/boards/raspi/mini_uart.c): the escape
--   character, the forwarding to the console of a VM, and the shell when no VM has the keyboard.
-- - Shell: the command line (hypervisor/common/shell.c); Shell.Argv is string_to_argv, and
--   Shell.Process the way from a line to a command. The commands are a parameter.
-- - Utils: the string, memory and number functions (hypervisor/common/utils.c): strtol_deci,
--   strtoul, in Utils.Str the functions on strings, and in Utils.Mem those on memory, without the
--   pointers that memset and memmove return. A string is the list of its characters.
-- - Create, Loader: a new VM (hypervisor/arch/aarch64/task.c create_task and prepare_task,
--   hypervisor/common/loader.c). What the file system returns is an argument.
-- - Command: the commands vmc and vmld of the shell.
-- - Sd: the driver of the SD card (hypervisor/boards/raspi/sd.c) and the glue to FatFs
--   (hypervisor/fs/diskio.c). The controller is an argument, a function from what was done so far
--   to what a register holds; a part of the driver is a function on `Sd`, the driver's variables
--   with the history of reads, writes and waits. Sd.Trace says what of a history a card sees.
-- - Lrtos: the scheduler of the guest lrtos (guests/lrtos/src/sched.c, guests/lrtos/src/fork.c), as
--   steps between which a tick can come. Its state is `Guest`, with the phase of the current task.
-- - Delays: the waits (hypervisor/common/delays.c), over the readings of their counters.
-- - Samples: a VM and a machine for the examples in the modules named Tests.
--
-- Words are natural numbers, with their wrap-around written out. The outer loop of `_schedule` is
-- given two rounds (`rounds_enough`, here and in lrtos): a result other than `none` is part of
-- what is proved of it. The search of `get_free_page` is given a round for each page, the last
-- loop of `sd_init` takes fuel (`sd_init-Returns`), the loop of `bcm2837_initialize` one for each
-- page of the devices, that of `flush_task_console` one more than a ring has places, that of
-- `string_to_argv` one for each character of the line, that of `strcpy` one for each character and
-- the zero (`strcpy_lem`), and those of the waits one more than the counts they wait for. Readings
-- of the physical counter are arguments of the functions that take them, and so is the unset local
-- that a read of an empty ring returns.
--
-- Not modelled: the rest of the assembly (entry, boot and context switch), the registers of the
-- physical devices other than the SD card, the commands of the shell that only print, the rest
-- of the guests, and the copies of FatFs and of a printf.
pub mod Bcm2837
pub mod Board
pub mod Command
pub mod Console
pub mod Create
pub mod Delays
pub mod Fifo
pub mod Loader
pub mod Lrtos
pub mod Pages
pub mod Prelude
pub mod Regs
pub mod Samples
pub mod Sched
pub mod Sd
pub mod Shell
pub mod Stage2
pub mod Task
pub mod Timer
pub mod Trap
pub mod Uart
pub mod Utils
pub mod VmWork
pub mod Vmbox
