-- ===== src/Lib.antt =====
-- Verification of Frosk: the kernel, the C library, the libraries and programs of user space, and
-- the builder of its file system. The modules follow the parts of the system:
--
-- * Kernel/Kobj is kernel/src/kernobj.c, the pool of kernel objects: pages of slots with a header
--   that has two bitmap words. The scan for a clear bit has fuel for the bits of a word, which is
--   enough since it starts on a word that is not full.
-- * Kernel/Pages is kernel/src/pagemgr.c over that pool: the lists of memory regions that
--   `alloc_pages`, `free_pages` and `init_page_mgr` keep. A list's objects carry their addresses, so
--   that `free_kobj` is called on them; the map of the boot loader is a list of nodes.
-- * Kernel/Ports is kernel/src/ports.c over both: `send`, `poll` and `receive` on the list of ports
--   and the memory that holds their bytes. Kernel/Ports/Link is one port as a channel of Comm.
-- * Kernel/Keyboard is kernel/src/keyboard.c, the ring of key codes.
-- * Kernel/Mouse is kernel/src/mouse.c, over what the reads of its ports give and the key ring.
-- * Kernel/Wsys is kernel/src/wsysreg.c, the registration of the window system.
-- * Kernel/Driver is kernel/src/driver.c, the dispatch of driver calls, over the drivers' functions.
-- * Kernel/Fs is kernel/src/fs.c, lookup, locks, sizes and reads over the table of nodes in memory.
--   Tree is what a table stands for. Each step from a node to the next costs fuel; the theorems say how
--   much a tree or a file needs. The reads of the disk are recorded, not made.
-- * Kernel/CgaText is kernel/src/cga_text.c, the text screen. The search for the end of a line
--   has fuel for one cell more than a line has, the digits of a number for one more than 64.
-- * Kernel/Paging is kernel/src/paging.c over Kernel/Kobj and Kernel/Pages: four levels of page tables in
--   physical memory, the entry through which the code sees a table, and workspaces. The loop over the
--   pages of a region is on their number. The flush of the processor's cache of entries has no effect.
-- * Cstd/Ctype, Cstd/Strings, Cstd/Stdlib, Cstd/Time and Cstd/Malloc are lib/cstd/src: ctype.c, string.c
--   on a byte memory, stdlib.c, time.c and malloc.c, whose loop has fuel for the free blocks. A scan for
--   the end of a string has fuel; the theorems say how much is enough.
-- * Rusk/Expanses and Rusk/Keys are prgm/rusk/src/rusk.c, the window server: the list of windows
--   with the operations of its clients as a step relation, and the decoding of key codes to events.
--   Rusk/Partial is its `update_partial`. Rusk/Serve is prgm/rusk/src/rusk_comm.c, its protocol; each
--   message costs a step of fuel.
-- * Bearing is prgm/bearing/src/bearing.c, the window manager: which events it keeps, and the windows
--   it moves and resizes with them, on the windows and events of Rusk. Bearing/Serve is
--   prgm/bearing/src/bearing_comm.c, the calls it makes of Rusk/Serve and the messages it takes.
-- * Comm is lib/events/src/events.c and lib/expanse/src/expanse.c, lists as messages, and Comm/Buffers
--   is lib/ykw/src/bufferutils.c, pixel buffers. They stand on a channel, a record of operations and
--   laws that Kernel/Ports/Link fills while a port's page has room; the bytes of a C struct are a parameter.
--   Comm/Net is ports of several processes that always have room, a parameter on which the two protocols
--   stand, and Comm/Pair two processes on them.
-- * Sheep is lib/sheep/src/var.c, the variables of the shell language, over a standard `strcpy` and
--   `realloc`, which those of lib/cstd are not; their names are compared as
--   Cstd/Strings proves of `strcmp`. Sheep/Parse is lib/sheep/src/parse.c, statements and comments; the
--   loop over the arguments has one step of fuel more than the buffer has characters.
-- * Builder/Nodes and Builder/Image are util/f301_builder/src/fs.c: the nodes that are made for a tree of
--   files, and the bytes of a node in the image, with what Kernel/Fs reads from them. The sizes of the
--   host's files, the addresses of nodes in the builder's memory and the bytes that nothing sets are
--   parameters; the size goes through a C `int`. A string's recursion is on its length. Builder/Parse is
--   util/f301_builder/src/parse.c, the script that names the files; each field and each entry costs a step of fuel. Builder/Load
--   is the loop of main.c over the script, with `add_fs_entry`. Builder/Image/Write is the whole image:
--   the recursion over the nodes has fuel for the nodes and three more, and the theorems are for
--   nodes that fit into one table of 169 entries. The zeros behind the last file are left out.
-- * Shiny is lib/shiny/src: the things of a container and the list of expanses of the widget library.
-- * Start is prgm/start/src/start.c: `read_file` over Kernel/Fs and Cstd/Malloc, and the list of programs.
--
-- Numbers are natural, with the wrap-around of a C type written out where the code can reach it, and
-- integers where C has them signed. A fault (a null pointer written to, a division by 0, a read
-- outside a table) is `none`. A list of C structs that is linked by `next` pointers is a list, in
-- the order of the pointers; where a struct is freed or its address compared it carries the address.
--
-- Prelude holds what all parts share; Prelude/Outcome is what holds of a result where there is one.
--
-- Not modelled: assembly and port input and output, and the parts of the kernel that only program
-- hardware; processes and threads (kernel/src/process.c), which the context switch in assembly runs; the
-- sheep interpreter (lib/sheep/src/sheep.c), which does not compile; drawing; and of the rest what has no
-- module above.
pub mod Prelude
pub mod Cstd
pub mod Kernel
pub mod Bearing
pub mod Comm
pub mod Sheep
pub mod Rusk
pub mod Builder
pub mod Start
pub mod Shiny
