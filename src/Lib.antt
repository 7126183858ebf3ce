-- ===== src/Lib.antt =====
-- Baios, the dual microkernel of TeamOS 3.0: a model of the tree that BIOS/Makefile builds, and of
-- a second kernel beside it that no build file names, and what is proved of them.
--
-- The program is one process in which two microkernels run, each in a thread: the software
-- microkernel serves the applications' system calls, the hardware microkernel owns physical memory,
-- interrupts and drivers, and they talk through two ring buffers. Each source file keeps its state
-- in static variables. Here that state is a record, and a function of the file is a function that
-- takes the record and returns it beside the function's own result; a pointer through which a
-- result goes out is an option in the result.
--
--   Types.antt       BIOS/include/types.h, config.h: status codes, priorities, limits
--   Ring.antt        the `ring_*` functions of BIOS/src/ipc/zero_copy.c
--   Ipc.antt         the rest of that file: channels, sending, receiving
--   Process.antt     BIOS/src/sw/process_manager.c: `baios_proc_*`
--   Irq.antt         BIOS/src/hw/interrupt.c: `baios_irq_*`
--   Driver.antt      BIOS/src/hw/driver_compat.c: `baios_driver_*`
--   Memory.antt      BIOS/src/hw/phys_memory.c: `baios_mm_*`; Memory/Pages.antt has its page
--                    descriptors and free lists, Memory/Blocks.antt and Memory/Seed.antt the
--                    blocks that the start puts into the free lists
--   HwKernel.antt    BIOS/src/hw/hw_kernel.c: `baios_hw_*`
--   SwKernel.antt    BIOS/src/sw/sw_kernel.cpp: `baios_sw_*`, `baios_syscall`
--   Boot.antt        BIOS/src/boot/entry.c: `baios_init`, `baios_shutdown`
--
-- The second kernel, in BIOS/hw, BIOS/ipc and BIOS/sw, has its model in Demo.antt and its children:
--
--   Demo/Softirq.antt   BIOS/hw/interrupts.c: the queue of deferred functions
--   Demo/Irq.antt       the rest of that file: the interrupt table
--   Demo/Power.antt     BIOS/hw/power.c: the power states
--   Demo/Buddy.antt     BIOS/hw/memory.c: blocks of pages, `hw_mem_*`
--   Demo/Pages.antt     the rest of that file: mapped pages
--   Demo/Shm.antt       BIOS/ipc/shared_memory.c: shared regions and the simulated heap
--   Demo/Channel.antt   BIOS/ipc/zero_copy.c: channels; Demo/Channel/Message.antt sends and receives
--   Demo/Process.antt   BIOS/sw/process_manager.cpp; Demo/Process/Schedule.antt is its scheduler
--   Demo/Permission.antt  BIOS/sw/permissions.cpp: `perm_*`
--   Demo/Chrdev.antt    BIOS/hw/linux_compat.c: character devices
--   Demo/Bridge.antt    BIOS/sw/ipc_bridge.cpp: `sw_ipc_*`
--   Demo/Kernel.antt    BIOS/hw/main.c: `hw_kernel_*`, the start and the loop over the parts
--
-- In it Channel creates and destroys regions of Shm, Process and Chrdev take memory from the heap of
-- Shm, Permission reads the processes, Bridge sends on the channels, and Kernel starts Shm, Buddy,
-- Irq, Chrdev and Channel in this order and runs the timer of Irq and the queue of Softirq.
-- Demo/Error.antt has its status codes and Demo/Search.antt the search that its tables share. It
-- uses names that no header declares, and each is a parameter: the number of buddy orders, the
-- address of the simulated heap, the flags of a region, the lengths of names, and what the record
-- `Env` of Demo/Channel.antt lists.
--
-- The other children of a module hold its theorems: Valid or Count an invariant and its
-- preservation, Laws what the operations do to what can be observed, Refine and Run the refinement
-- of an abstract specification, History what holds after any sequence of calls, Lifecycle start and
-- stop, Tests concrete instances. In the second kernel, Worth counts pages, Silence and Sends are
-- about the two rings of a channel, Built, Live and Revive about the list of processes and the
-- scheduler. Base.antt has the shared names, lists and words, Circular.antt the
-- arithmetic of ring indices, and Queue.antt the bounded queue of the specification.
--
-- The parts meet as in the source: Ipc calls Ring; HwKernel calls Memory, Irq, Driver and Ipc;
-- SwKernel calls Process and Ipc; Boot starts Ipc, HwKernel and SwKernel in this order, undoes a
-- start that fails, and stops them in the opposite order. Boot/Exchange.antt follows one system call
-- through all of them.
--
-- Outside the model, and its inputs: the clock (`now`, `start`, and the readings of a receive's
-- loop, with what the other kernel does between two of them), whether `calloc` gives memory
-- (`allocated`), the text at an address of a program's memory (`name_at`), and the code behind
-- interrupt handlers and driver callbacks (a dispatch or a registration gives the call that it
-- makes). Each call of a function is one step: a ring operation is taken as atomic, as the comments
-- of the source say that a real kernel would make it.
--
-- Numbers are natural numbers, and an increment or a subtraction on a machine word wraps by a
-- written-out remainder. Loops are structural recursion, on a list, a number of rounds, or fuel:
-- the loop of `baios_mm_init` has as many rounds as there are pages, and takes at least one page in
-- each; `split_block` has 10 rounds, and each lowers an order that is at most 10; the merge of
-- `baios_mm_free_pages` has 10 rounds less the order that it starts with, as in the source; the
-- loop of a receive ends with the readings of the clock, and says so when they are used up.
--
-- In the second kernel the loops of `softirq_process` and of the scheduler run on fuel, and the
-- theorems on them say how much is enough; so does the loop of `sw_ipc_poll`, which ends when a
-- receive gives no message. Its other loops go over tables or orders.
--
-- Not modelled: logging, the threads and the flags that end their loops, and the demonstration in
-- `main`. Of the second kernel: the tree of files (BIOS/sw/filesystem.cpp), which a later
-- version is to add, the main function of BIOS/sw/main.cpp, and its services, utilities and
-- demonstration, which print or answer with fixed values.
pub mod Base
pub mod Types
pub mod Circular
pub mod Queue
pub mod Ring
pub mod Ipc
pub mod Process
pub mod Irq
pub mod Driver
pub mod Memory
pub mod HwKernel
pub mod SwKernel
pub mod Boot
pub mod Demo
