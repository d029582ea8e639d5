-- ===== src/Lib.antt =====
-- Verification of the memory management, the virtual filesystem, signals, terminals, input devices,
-- paths and descriptors of the YabroOS-32 kernel.
--
-- The program's parts. The physical memory manager (src/kernel/pmm.c) hands out pages of 4096 bytes
-- below 4 GiB and counts the references to each. The virtual memory manager (src/kernel/vmm.c)
-- keeps page tables of four levels in such pages, one top table for each user space. The kernel
-- proper (src/kernel/main.c) answers system calls with both, and with the virtual filesystem
-- (src/kernel/vfs.c).
--
-- Base and its children hold what the components share: Boolean tests on native numbers
-- (Base/Tests), a C `int` by its value (Base/Int), arrays as functions (Base/Lists), bits by
-- division (Base/Bits), counting (Base/Count), optional results (Base/Monad), return codes and
-- counted loops (Base/Loop).
--
-- Pmm models src/kernel/pmm.c. Pmm/State has the static variables as the record `Pmm`, with the
-- bitmaps `page_state` and `reserved_state` as functions from the index of a word; Pmm/Reserve has
-- `pmm_reserve_range` and the reservation of the page tables in use at start, Pmm/Init has
-- `pmm_init`, Pmm/Alloc has the operations on pages. Pmm/Valid states the invariant `IsValid`. The
-- other files hold proofs: Pmm/Bitmap, Pmm/Scan and Pmm/Take on allocation, Pmm/Release on free and
-- retain, Pmm/Reservation on reservation, Pmm/Keep, Pmm/Run and Pmm/Held on sequences of calls.
--
-- Vmm models src/kernel/vmm.c. Vmm/Machine has the state: the physical manager, the memory as words
-- of pages, the current user space, CR3. Vmm/Walk reads tables, Vmm/Map maps and unmaps and creates
-- spaces, Vmm/Cow has the copy-on-write fault and protection, Vmm/Fork the copy of a space for
-- fork, Vmm/Destroy its end. The other files hold proofs: Vmm/Entry on the bits of entries,
-- Vmm/Read, Vmm/Unmap, Vmm/Create, Vmm/Ensure, Vmm/Mapping, Vmm/MapTranslate, Vmm/Fault, Vmm/Share,
-- Vmm/Protect.
--
-- Vfs models most of src/kernel/vfs.c. Vfs/Node has the nodes and their creation, Vfs/Path names
-- and the lookup of paths, Vfs/Tree creation, links and removal, Vfs/Rename renaming and files of
-- the boot medium, Vfs/Directories `vfs_ensure_dir`, Vfs/Listing the sorted listing, Vfs/Data the
-- slots of file data and the operations on a file's contents, Vfs/Text the output of numbers and of
-- /proc/meminfo. The other files hold proofs: Vfs/Slots, Vfs/Contents, Vfs/Decimal, Vfs/Links,
-- Vfs/Sorted.
--
-- Kernel models parts of src/kernel/main.c. Kernel/Mmap has the table of ranges that are mapped on
-- the first access and the search for free addresses; Kernel/Ring the rings of bytes of the
-- pseudo-terminals; Kernel/Task the tasks, as far as the rest uses them, and `task_init_root`; Kernel/UserCopy the copies
-- between the kernel and user memory, with the tables of Vmm; Kernel/Signal signals, their delivery
-- and return, with Kernel/Signal/Queue for those of terminals; Kernel/Tty the pseudo-terminals,
-- with Kernel/Tty/Output for output and readiness and Kernel/Tty/Canon for the line discipline;
-- Kernel/Input the queues of events and their readers; Kernel/Keyboard the state and the tables of
-- the keyboard, with Kernel/Keyboard/Decode for its bytes; Kernel/Mouse the decoding of the mouse;
-- Kernel/Paths `normalize_abs_path`; Kernel/Files the descriptors, with Kernel/Files/Refs for the
-- references to what they share and Kernel/Files/Calls for the operations. `task_wake_io_waiters`,
-- which looks at every descriptor that a task waits for, and the clock are parameters. The other
-- files hold proofs.
--
-- A C array is a function, a pointer to a page table is the physical address of the page, a null
-- pointer or -1 is `none` or `err`. Sums of 64 bits that can wrap are written with `% word_mod`.
-- Loops over pages have fuel: `next_scan`, `base_scan`, `range_loop` and `reserve_range_loop` get
-- one round more than the pages between their bounds, `probe` the size of the hash table,
-- `free_slot` the number of slots, `tmp_digits` the size of the buffer of digits; loops over the
-- entries of a table are counted. Recursion over tables goes by the level. The loops of
-- Kernel/UserCopy get one round for each byte, `gap_loop` more rounds than the user space has
-- pages, and `covered_loop` one for each address, `parts_loop` one more than the bytes of the path.
--
-- Not modelled: output to the debug port and the counters and masks of traces, flushes of the TLB,
-- which have no effect on the state, the Rust part of the kernel, the mounts and initialisation of
-- src/kernel/vfs.c, and of src/kernel/main.c the ports of devices, the framebuffer, ACPI, the
-- scheduler, fork and exec, sockets, and most system calls on files. A chain of siblings is
-- followed for as many steps as there are nodes.
pub mod Base
pub mod Pmm
pub mod Vmm
pub mod Vfs
pub mod Kernel
