-- ===== src/Lib.antt =====
-- The Aevros kernel: a verification library beside its C sources.
--
-- Aevros is a 32-bit hobby kernel. The library models its memory allocators, its files in
-- memory, its ready queue, the core of its network stack and its log of causes and effects, and
-- proves what makes each of them correct.
--
-- The parts and how they interact.
--   Compass is the IPv4 input. It checks a packet's header, strikes the sender of a bad one in
--   Curfew, asks GuestList for a rule, Curfew for the limit on bad frames and Rolodex for a dispute,
--   teaches Rolodex the sender's address and calls the handler of the protocol. LockBox is the
--   table of sockets, Inbox the receive buffers over it, Postbox the datagrams that wait for them,
--   Menu the set of open ports, Bouncer the filter of the frames before all of them, WatchList the
--   flood limit by MAC address. Sentry watches which ports an address asks for and bans it in
--   GuestList. Foyer holds the frames whose target has no address in Rolodex yet, and sends them
--   through Bailiff. Rapport moves each TCP conversation from its greeting to its goodbye, and
--   releases its slot in LockBox at the end. SynCookie makes the numbers of half-open connections.
--   Fragment6 puts the fragments of an IPv6 packet together. Scheduler sends TCP segments again
--   until they are acknowledged: each goes through a pass of Bailiff, is noted in Why, and a
--   connection it gives up is closed in Rapport and released in LockBox.
--   Buddy and Pmm hand out memory, and Slab divides blocks of Buddy into objects. Files is the tree
--   of directory entries (Tree), the files behind them (Ramfs) and the calls on open files (Calls).
--   Ready is the queue that the kernel takes the next task from. The provenance log is called from
--   all over the kernel and keeps the last 256 records.
--
-- The files.
--   Base: the names and lemmas that the components share. A fixed table of slots is a list: a loop
--     that returns a pointer to the first slot that passes a test is `find`, a write through that
--     pointer is `update_first`, `a[i] = v` is `set` or `update_at` (Base/Slots, Base/At); a circular
--     array is read by `window` (Base/Ring); unsigned arithmetic is `add32` and `sub32` (Base/Words).
--   Networking/GuestList: Networking/GuestList/guestlist.c (guestlist_set is `set`, and so on)
--   Networking/Menu: Networking/Menu/menu.c
--   Networking/LockBox: Networking/IPv4/LockBox/lockbox.c
--   Networking/Inbox: Networking/IPv4/Inbox/inbox.c
--   Networking/Postbox: Networking/IPv4/Postbox/postbox.c
--   Networking/Curfew: Networking/Curfew/curfew.c
--   Networking/Rolodex: Networking/IPv4/Rolodex/rolodex.c
--   Networking/Compass: Networking/IPv4/Compass/compass.c
--   Networking/Bouncer: Networking/IPv4/Bouncer/bouncer.c
--   Networking/Bailiff: Networking/Bailiff/bailiff.c
--   Networking/Why: Networking/Why/why.c
--   Networking/Scheduler: Networking/Scheduler/scheduler.c, in two files: the window and `track`
--     in Scheduler, the acknowledgements and the clock in Scheduler/Timer
--   Networking/Sentry: Networking/Sentry/sentry.c
--   Networking/Foyer: Networking/Foyer/foyer.c
--   Networking/WatchList: Networking/WatchList/watchlist.c
--   Networking/Conversation: the states of a conversation in
--     Networking/IPv4/Conversation/conversation.h
--   Networking/Rapport: Networking/IPv4/Conversation/rapport.c, the sequence numbers in
--     Rapport/Sequence
--   Files/Ramfs: kernel/VFS/RAMFS.c, the bytes of a file
--   Files/Tree: kernel/VFS/vfs.c, the entries and the lookup of a path; the making of files and
--     directories, here and in RAMFS.c, is Tree/Make
--   Files/Calls: kernel/VFS/vfs.c, from sys_open to sys_readdir
--   Networking/SynCookie: Networking/SynCookie/syncookie.c and Networking/Lottery/lottery.c
--   Networking/Fragment6: Networking/IPv6/Fragment6/fragment6.c
--   Memory/Buddy: kernel/Memory/buddy.c
--   Memory/Pmm: kernel/Memory/pmm.c
--   Memory/Slab: kernel/Memory/slab.c
--   Processes/Ready: kernel/Process/task.c, from task_add_ready to pick_next_task, and task_wake
--   Provenance: Provenance/provenance.c
--   A component's definitions stand in the file of its name, its lemmas in the children named for
--   what they prove, its runs on concrete input in its Examples.
--
-- How the code corresponds.
--   The static variables of a C file are the record `State` (or the table itself) of its module,
--   the argument and result of each operation; an operation keeps its name without the module's
--   prefix. A pointer result is an option (in Pmm and Slab an address, with 0 for NULL), an `int` that is 0 or 1 a Boolean, an address or a frame
--   the list of its bytes. A `uint32_t` is a natural number with its wrap-around written out.
--   `get_ticks` is outside: an operation takes the readings that it makes, separately where it
--   reads more than once. The driver's answer to a send is an argument, and the table of protocol
--   handlers, which the linker collects, is a list of protocols.
--
-- Bounds and fuel.
--   Loops over an array recurse on the list. The other loops take a number of rounds: `split`,
--   `merge` and `scan` of Buddy count the orders that are left; `fill` of Pmm takes one round more
--   than the stack has places, and each round fills one; `fold` of Compass takes three, where two
--   halve a 32-bit sum to 17 and then 16 bits and the third folds the last carry; `grow` of
--   Ramfs takes 33, the doublings of a 32-bit capacity until it stays at 0; `walk` of
--   Provenance takes one round more than entities can be queued; `last_of` of Ready takes as many
--   as there are tasks. That the rounds are enough is part of the theorems on these loops. The
--   search of `task_remove_ready` takes as many, and `pick_from` the 0xFFFF of the source.
--
-- What is not modelled.
--   sys_unlink, which frees entries that open files still point to, and the heap that Files asks for
--   memory: its answers are arguments, also that of `strdup`, whose NULL the callers do not test.
--   Paths have fewer than 256 bytes, since vfs.c copies their parts to arrays of 256 unchecked, and
--   the operations of a file are those of the files in memory, not of a device.
--   Log lines, texts for display and the interrupt guards (a call runs alone). The free list of
--   Buddy is a list of addresses, so writes of a client into a free block are outside.
--   The rest of the network stack (IPv6 but for the fragments, TCP input, DHCP, DNS), the rest of
--   the processes, the shell, devices, paging and the windows have no model; the devices, paging
--   and the interrupts depend on the hardware.
pub mod Base
pub mod Files
pub mod Memory
pub mod Networking
pub mod Processes
pub mod Provenance
