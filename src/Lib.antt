-- ===== src/Lib.antt =====
-- JuiceOS-Kernel32, a 32-bit x86 hobby kernel: parts of its core, modelled with their wrap-around
-- arithmetic and their error branches, and theorems about them.
--
-- How the parts interact: the page allocator hands out physical pages to the memory manager, which
-- maps them and gives a run of them to the kernel heap. The kernel log, the text screen and the
-- shell take numbers as text; the console reads the keyboard and prints on the screen. Partitions
-- are devices on the drives, and stand below the file systems. The parts share no state: each is
-- modelled on its own.
--
-- Files and sources:
--
-- * Prelude and its children: names of the libraries, Boolean tests, lists indexed by native
--   numbers, bits of bytes.
-- * BitmapAllocator and its children: core/bitmap_allocator.cpp, core/bitmap_allocator.h and
--   divide_round_up of core/math.h. Defs holds the state and the methods under their names; the
--   loops of alloc are search, scan_bytes, visit and scan_byte, those of mark_pages are
--   mark_bytes and mark_byte. Runs and Fill hold the list-of-bits view. The fuel of scan_byte is
--   nine rounds: each round moves on by at least one of eight bits. A failed kernel_assert is
--   none; the pointers are 32-bit addresses.
-- * MemoryManager and its children: core/mmanager.cpp with core/paging.h. The directory and the
--   page tables are functions from an index to an entry; a page table is found by the number of
--   the page it lies in. An entry has the bits that the kernel writes. Every function ends in an
--   outcome: done, failed with the assertion that stops it, or a page fault. Paging is on, as init
--   leaves it, so that an access to a page table goes through translate, the walk of the
--   processor, and is a page fault where that finds nothing; the directory itself is taken to be
--   within reach. Not modelled: init, and what reads registers or enables paging.
-- * Syslog and its children: the log ring of core/kernel.cpp (kernel_log and flatten_logs) with
--   mem_copy of core/stdlib.cpp. The portions that vsprintf hands to its consumer are the input.
-- * Keyboard and its children: core/drivers/ps2.cpp. An interrupt is one scancode; a read takes
--   the list of scancodes that are still to come, lets one in with each round of its loop, and
--   says when they are used up while it waits. A read behind the end of a string literal is
--   none.
-- * Numbers and its children: uint_to_str, int_to_str, uint_to_hex, uint64_to_hex, str_to_uint
--   and str_to_int of core/stdlib.cpp. A text is the list of its bytes with its terminator; the
--   loop of uint_to_str runs on the bytes of temp that are free, 32, and a write behind them or
--   a read behind a text is none.
-- * Screen and its children: core/drivers/screen.cpp. The video memory is a list of 2000 cells,
--   and a read or a write behind it is none, for a character, for clear and for the loops of
--   update_scroll, which moves the rows cell by cell from the front, as mem_copy does. Not
--   modelled: the hardware cursor, and the two functions that print at a place of the caller.
-- * Storage and its children: the partitions of core/drivers/storage.h and the scan of the boot
--   record of core/drivers/storage.cpp. A device is a record of its virtual functions on a
--   state; the boot record is given by the fields that the scan reads. Mounting and Volumes have
--   the registries of drives and volumes, with the probes of the file systems as parameters, and
--   Paths has normalize_path, whose loop takes one character of the path at least with each
--   round. Not modelled: unmounting.
-- * Text and its children: the byte and text functions of core/stdlib.cpp with sprintf and
--   vsprintf, and the class of core/string.cpp. A pointer is a place in a list of bytes.
--   vsprintf takes its arguments as a list, and gives the portions that it hands to its
--   callback; a directive without its argument, and a read behind the format, is wrong. Each
--   round of its loop moves on by one byte at least, so that one for each byte of the format is
--   enough. A concat that leaves the memory is none. Output holds what sprintf does with
--   portions; Formatting, Steps, WideDirective and Pieces hold the loop of vsprintf, and
--   Printing what it prints. Not modelled: the two functions that stop the kernel on an error.
-- * Fat and its children: core/filesystems/fat.cpp and core/filesystems/fat.h. Structures are
--   overlaid on bytes by Layout; Probe holds probe, Entries holds EntryParser, Clusters holds
--   ClusterReader, next_cluster and the loop over the entries of a cluster, Files holds read_dir
--   and resolve_path, FileData holds read_file, Volume holds on_init and the names and sizes.
--   Checks and Geometry have what probe accepts, NameParts one part of a long name and LongNames
--   several, NameCopies and ShortNames the short names. The device is a parameter: the bytes that
--   a read of sectors gives. The walks over chains run on a number of clusters as fuel, which for
--   a chain that ends is its length; a chain that loops runs for ever in the source. An access
--   outside of the table or of a path's buffer is out_of_bounds; utf16_to_ascii tests each of its
--   writes, with the name buffer at the address 13, so that the place in front of it for the
--   number 0 of a part has an address, and is none for one outside. The copies of a short name
--   need 14 bytes of the buffer's 256 and are not tested. Not modelled: messages, on_deinit and
--   the reuse of the sector buffer.
-- * Heap and its children: core/free_llist_allocator.cpp, which core/heap.cpp calls. Memory is a
--   byte for each address, and Defs has the methods under their names; an entry is read and
--   written in the first bytes of its block. The null page can be read and written, since the
--   list operations write there at the ends of the list. The loops find_suitable, free_loop and
--   count_free run on a number of entries, for which the length of the list is enough; a loop
--   that is still running then is endless, and a failed kernel_assert is panic. Chains and Links
--   have the list of blocks that the entries stand for; Moves, Swaps and Joining have what the
--   list operations do to it. Not modelled: dump, and the templates of core/heap.h.
-- * Iso and its children: core/filesystems/iso_9660.cpp and core/filesystems/iso_9660.h. Layout
--   reads the structures from bytes; Probe has probe, Names has the names with the tags they are
--   made of, Directories has the paths and directories, Support has on_init, FileData has
--   read_file. The device is a parameter, as for Fat, a field that lies behind a sector buffer
--   reads as zero, and a tag that does is out_of_bounds. The loop of probe has 100 rounds unless
--   it never ends, that over the entries of a sector 2048, that over the sectors of a directory
--   one for each 2048 bytes, and that of read_file one for each byte. The fuel of
--   traverse_susp_tags is a number of tags, which nothing in the source bounds. Not modelled:
--   messages.
pub mod BitmapAllocator
pub mod Fat
pub mod Heap
pub mod Iso
pub mod Keyboard
pub mod MemoryManager
pub mod Numbers
pub mod Prelude
pub mod Screen
pub mod Storage
pub mod Syslog
pub mod Text
