-- ===== src/Lib.antt =====
-- DEV-OS, the kernel under kernel/, a monolithic kernel for x86-64.
--
-- The parts and how they interact. The boot code hands the firmware's memory map to `pmm_init`
-- (kernel/mm/pmm.c), the allocator of physical frames. The page tables (kernel/mm/vmm.c,
-- kernel/mm/vmm_ext.c) take their frames from it and return the frames of a range to it. The heap
-- (kernel/mm/heap.c) grows by frames mapped there, and the file system (kernel/fs) keeps its nodes,
-- buffers and open files in it. The scheduler (kernel/sched/sched.c) keeps the tasks in a circular
-- doubly linked run queue, is driven by the timer (`sched_tick`) and by tasks that yield, sleep or
-- exit, and each task has its descriptors of open files. The ELF loader (kernel/elf) makes an address
-- space for a program and fills it. A network driver hands frames to `eth_rx`
-- (kernel/drivers/net), which dispatches to ARP and IPv4, and ICMP answers through `ipv4_send`,
-- `arp_resolve` and `eth_tx`. A program enters through the system calls (kernel/syscall), which check
-- its pointers and call the file system, the scheduler and the page tables. The processes
-- (kernel/proc) and the drivers that a task waits for block it and wake it through the scheduler. The
-- ATA driver registers its drives with the table of block devices (kernel/drivers/storage), and the
-- tables of the firmware (kernel/acpi) tell the processors and interrupt controllers.
--
-- The files.
-- - Prelude, Bits, Word: lists, tables and tests shared by all parts; bit operations of 64-bit
--   words on native numbers; wrap-around and alignment (kernel/include/types.h).
-- - Mm/Pmm: kernel/mm/pmm.c. `Pmm` holds its static variables, and a function of the source is a
--   function from this state; Mm/Pmm/Init is `pmm_init`, Mm/Pmm/Alloc, Free and Boot the theorems.
-- - Mm/Machine: the frame allocator together with physical memory, and the monad of code that
--   allocates, loads and stores, and may stop at a failed allocation.
-- - Mm/Vmm: kernel/mm/vmm.c, and Mm/Vmm/Ext: the rest of it and kernel/mm/vmm_ext.c. Tables are
--   words of the physical memory; Mm/Vmm/Tables says what well-formed tables are.
-- - Heap: kernel/mm/heap.c. Heap/State has the headers and variables, Heap/Slab, Heap/Large and
--   Heap/Api the functions. Fresh pages come through Mm/Machine and Mm/Vmm, as in the source.
-- - Fs: kernel/fs. Nodes, open files and mounts are functions from the address or number. Fs/Ramfs is
--   ramfs.c, Fs/Path the first part of vfs.c, Fs/Descriptors the functions of descriptors and Fs/Vfs
--   those of paths. `Allocator` is what they ask of the heap, and `heap_allocator` the heap as one.
-- - Elf: kernel/elf/elf.c up to the creation of the task, on the page tables of Mm/Vmm and the bytes
--   of the physical memory. The bytes of the file are an argument.
-- - Pci: kernel/drivers/pci/pci.c. The configuration space is an argument, a function from the
--   address that is written to the port; the drivers look their devices up in the table.
-- - Str: kernel/lib/string.c, and `put_uint` of kernel/lib/printf.c in Str/Number.
-- - Sched: kernel/sched/sched.c. Tasks are addresses and the fields of `task_t` are functions from
--   them, so that the links alias as in the source. Sched/Queue relates the links to a sequence;
--   Sched/Create makes tasks.
-- - Net: kernel/drivers/net. Packets are functions from the offset of a byte. Net/Order is the
--   byte order, Net/Checksum `ipv4_checksum`, Net/Ethernet, Net/Arp, Net/Ipv4 and Net/Receive the
--   protocols (`icmp_rx` is in Net/Ipv4). `Outside` stands for `kmalloc` and the driver's `send`.
-- - Keyboard: kernel/drivers/keyboard.c, from the scancode that the handler reads; it wakes the
--   waiting tasks through the scheduler. Keyboard/Keys has the rows of a US keyboard. Mouse:
--   kernel/drivers/mouse.c, likewise.
-- - Syscall: kernel/syscall/syscall.c. `Kernel` joins the states of Fs, Sched and Mm/Machine with the
--   memory of the program.
-- - Proc: kernel/proc/proc.c, on the scheduler of Sched. `proc_waitpid` is `waitpid_enter`, up to the
--   point where it blocks, and `waitpid_finish`.
-- - Ata: kernel/drivers/storage/ata.c, on ports that are an argument; Ata/Identify is the search for
--   drives, Ata/Disk says how a drive behaves by the ATA standard. Registry: the tables of
--   kernel/drivers/storage/block.c and kernel/drivers/net/netdev.c.
-- - Ioapic: kernel/arch/x86_64/ioapic.c, the entries of its units. Vga:
--   kernel/drivers/vga.c, on the cells of the video memory.
-- - Acpi: kernel/acpi/acpi.c, on the memory as bytes. Clock: kernel/drivers/rtc.c, on the registers.
--
-- Numbers are the native ℕ with the wrap-around of the C type written out where it can occur. A
-- loop is recursion on the number of rounds left; the walk of `sched_pick_next` has fuel, for
-- which the length of the queue is enough, as its theorem says; the walk of `vfs_lookup` has one
-- round for each byte of the path and one more, which its theorem shows to be enough. A NULL result
-- is `none`, frame 0 of the frame allocator too, whose address is NULL; in the scheduler and the
-- processes `none` is a dereference of NULL. In the heap, and in the file system, where 0 stands for
-- an address that is not given, NULL is 0. The `none` of `pmm_init`, `vfs_open`, `vfs_mkdir` and their
-- callers is a write behind an array: the bitmap of the frames, or the buffer for the parent's path.
--
-- The fuel of `string_at` is that of the walk; `parse_madt` has a round for each byte of the table, as
-- its theorem shows enough, and the loops of `ata_blk_read` and `ata_blk_write` one for each sector.
--
-- Not modelled: the drivers of graphics and sound, the console, the RTL8139 network card, AHCI and
-- NVMe; the interrupt table, the PIC and the timer; the order of initialisation; format strings;
-- assembly, port and device input and output except where it is an argument, TLB and control
-- registers, messages on the serial port, interrupts in between the statements of a function (every
-- function here runs with interrupts off or on one CPU).
pub mod Prelude
pub mod Bits
pub mod Word
pub mod Mm
pub mod Heap
pub mod Sched
pub mod Net
pub mod Keyboard
pub mod Str
pub mod Fs
pub mod Pci
pub mod Elf
pub mod Syscall
pub mod Mouse
pub mod Clock
pub mod Acpi
pub mod Ata
pub mod Proc
pub mod Registry
pub mod Ioapic
pub mod Vga
