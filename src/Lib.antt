-- ===== src/Lib.antt =====
-- A model of the core of rubi_kernel, a small 32-bit x86 kernel in C.
--
-- The program's parts and the files that model them (paths from the repository's root):
--
--   Klib/Slist     kernel/src/lib/slist.c: the static list, a doubly linked list over a fixed array of
--                  slots. slist_insert_after, slist_insert_before and slist_delete are insert_after,
--                  insert_before and delete. The heap keeps its blocks in such a list.
--   Klib/Clist     kernel/src/lib/clist.c and queue.c: the circular list and the queue over it, under the
--                  C names; find_prev is the loop of clist_delete. IsRing, in Klib/Clist/Ring, says which
--                  elements a list holds, and Insert, Append, Remove and Find show what the operations do to it.
--   Klib/Text      kernel/src/lib/string.c over a byte memory, under the C names.
--   Klib/Format    vsprintf of the same file; each conversion is a function, `step` is one round.
--   Klib/Scan      vsscanf of the same file; scan_step is one round of its loop.
--   Memory/Layout  the address constants of kernel/include/kernel/defines.h and memory/mmu.h.
--   Memory/Mmu     kernel/src/kernel/memory/mmu.c: the bitmaps of pages, the entries of page tables and
--                  directories, binding, unbinding and the two page allocators, under the C names;
--                  Memory/Mmu/Init is init_memory_manager, and map_heap_page a round of its last loop.
--   Memory/Heap    kernel/src/kernel/memory/heap.c over Klib/Slist, under the C names. The parts of kmalloc are
--                  steal_left, grow, shrink (give_right and cut_off) and append_block; `release` is the part
--                  of kfree behind the search. Memory/Heap/Blocks says what a heap is, and
--                  Memory/Heap/Pairs that no two free blocks are side by side, so that steal_left and
--                  give_right are not reached.
--   Memory/Tables  the page directories and tables in the heap, of mmu.c, under the C names.
--   Dev/Vga        kernel/src/kernel/vga/vga.c: the text terminal, under the C names.
--   Dev/Tty        kernel/src/kernel/dev/tty.c: the keyboard interrupt, reading, writing and the commands of
--                  the terminal device, over Dev/Vga, under the C names. accept_char is the part of
--                  tty_keyboard_ih_low behind the look-up of the character.
--   Dev/Keyboard   kernel/src/kernel/dev/kb_driver.c: keyboard_ih_low (`answer` is its switch), send_data, and
--                  kb_echo_func, which is echo_step.
--   Dev/Pci        kernel/src/kernel/dev/pci.c: the configuration space and pci_fill_dev, whose loop over the
--                  base address registers is fill_bars. The ports are parameters; the record ConfigSpace in
--                  Dev/Pci/Restore says what the code relies on of the bus. Dev/Pci/Memory is alloc_pci_mem.
--   Dev/Serial     kernel/src/kernel/serial/serial.c, under the C names; wait_com is the loop of write_com.
--   DescriptorTables
--                  kernel/src/kernel/DT/dt.c: the encoding of descriptors and gates; DescriptorTables/Gdt is
--                  gdt_init and gdt_flush, and DescriptorTables/Idt idt_init with pic_init and pic_enable of int.c.
--   Interrupts     kernel/src/kernel/DT/int.c and keyboard.c with the list of devices of
--                  kernel/src/kernel/dev/dev.c, under the C names; try_from is the loop of dev_each_low_ih_cb.
--   Sched          kernel/src/kernel/scheduler over Klib/Clist: the searches, whose loop is find_from; ksend
--                  (send_to behind the search) and krecive (krecive_wait up to its yield, krecive_take behind
--                  it); mark_reschedule is sched_yield up to the interrupt. Sched/Life is task_create and
--                  task_delete, over Memory/Heap, Memory/Mmu and Memory/Tables. Sched/Switch is
--                  sched_schedule: account, save_task, choose_next, reap and load_task are its parts, in
--                  this order, and `switches` stands for switch_kcontext. Sched/Threads is kernel/src/kernel/kthread:
--                  kernel_tasks_init, and dq_round, one round of dq_task.
--   Vfs            kernel/src/kernel/vfs: Vfs/Store is the list of nodes of node.c, Vfs/Path its resolve_path,
--                  Vfs/Initrd fs/initrd.c, Vfs/Devfs fs/devfs.c, and Vfs/Files file.c, under the C names. The
--                  devices' drivers are functions in the records of the devices, over a state `world` of their
--                  own.
--   Elf            kernel/src/kernel/vfs/elf.c: elf_exec over Memory and Sched/Life; load_segments is its loop. Elf/Segment is about
--                  one segment, and its record Paging says what the code relies on of the processor.
--   Syscall        kernel/src/kernel/DT/syscall.c: cint_syscall, which joins Sched, Memory/Heap and Vfs.
--   Prelude, Bits  numbers, lists, integers, loops and bit operations that the parts share.
--
-- State is a record that each operation takes and returns. Memory, bitmaps and tables are functions
-- from indices, so a write out of bounds is visible as a change outside the array. A dereference of NULL
-- that the code can reach is `none`, or `fault` where there is fuel.
--
-- Bounds and fuel. Fixed-width integers wrap where the code can make them wrap; loop counters that
-- cannot get there do not. The loops of the page allocators have constant bounds: alloc_rounds
-- (8193) is one more than the number of user pages, and alloc_page_lem shows that it is enough. Loops
-- that end at a NUL take fuel as an argument, and their theorems give the fuel that is enough: more than
-- the length of the string, or of the value's binary numeral for itoa.
-- The searches for a task take fuel too; one unit for each task of the ring is enough.
-- kmalloc and kfree take fuel, and more than the heap has blocks is enough.
-- The search of a circular list takes fuel, and as much as it has elements is enough.
-- The loop over a part of a path takes fuel, and more than the 128 bytes of its array is enough.
-- tty_read waits for keys, so its fuel bounds the rounds it makes.
--
-- The lists of devices and of their handlers take fuel too, one unit for each element.
--
-- write_com waits on fuel for an empty buffer, and more than the number of busy reads is enough.
--
-- Not modelled: the functions that print over vsprintf, the terminal and the line, the drivers of PCI
-- devices and their log, the kernel's start, assembly and the boot loader.
pub mod Prelude
pub mod Bits
pub mod Memory
pub mod Klib
pub mod Dev
pub mod Sched
pub mod DescriptorTables
pub mod Vfs
pub mod Syscall
pub mod Interrupts
pub mod Elf
