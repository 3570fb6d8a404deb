-- ===== src/Lib.antt =====
-- A distributed LLM for the Raspberry Pi Zero 2 W: a bare-metal kernel (libpi) that boots four cores,
-- reads a model and a vocabulary from a FAT32 card, and generates text (libpi/src/run.c).
--
-- The parts and their files:
--   Base        Booleans, lists, words, integers and bits that the parts share; `swap` of qsort.c.
--   Libc        libpi/libc. Qsort and Bsearch (qsort.c, bsearch.c) on lists, with a comparison that is
--               a parameter; Str (strcmp, strlen, strcpy, strcat, memcmp, memiszero); Kmalloc
--               (kmalloc.c), whose three static variables and memory are the record `Heap`; Printk,
--               the numbers that printk.c writes; Crc (our-crc32.c), which Comm and Boot use.
--   Multicore   libpi/multicore/multicore.c. A core is the record of its command box and of where it
--               stands in `multicore_main`, with its event register, which `sev` sets and `wfe` waits for;
--               `Step` interleaves the cores and the program on core 0. Script says what a sound sequence
--               of calls is, Done that all work is done at its end, Roused that no event is lost, Live
--               that the end is reached, Keeps what no work changes.
--   Infer       libpi/src/run.c. Matmul is `matmul` and `matmul_worker`, a client of Multicore; Tokenizer
--               sorts and searches the vocabulary with Libc's `qsort`, `bsearch` and `strcmp`; Sampler
--               draws tokens; Checkpoint is the layout of the model's file and of the buffers; Forward is
--               `forward`, with `rmsnorm` and `softmax`: each array is a list, a pointer into one is its
--               index, and an access out of range is `none`; Vocab reads the tokenizer's file
--               (`build_tokenizer`); Encode is `encode`, with the loop over the text in Spell and the merges
--               in Merge; Generate is `generate` and `sample`, over a pass that is a parameter, which Model
--               fills with `forward`. Floating-point arithmetic is a parameter of which nothing is assumed
--               but what a theorem names.
--   Fat32       libpi/fat32. The table's entries and the two walks over it (Fat32, Entry, Chain), the reads
--               of the card (Card, of pi-sd.c), the partition table (Mbr), the boot sector and `fat32_mk`
--               (Volume), directories and files (Directory), the names that an entry can hold (Names,
--               ShortName). `Fs` is `fat32_fs_t`.
--   Comm        libpi/src/pi-comm.c: messages between two boards as lists of bytes (Comm, with the fields
--               of `CommHeader`), and a byte on the clock and data wires (Link).
--   Boot        the boot protocol: Pi is libpi/boot/get-code.h on the board, Host is libunix/put-code.c.
--               Each side is a function of the bytes that it reads; Dialog gives each what the other
--               sends, Errors says what no message makes the board do.
--   Gpio        libpi/src/gpio.c: the pins' registers as a function of their address (Gpio), and the change
--               of one pin's three bits (Word, Fields).
--   Vm          libpi/vm: attributes (Attr), the kernel's memory map (Procmap, Maps), and page tables of
--               sections (Table, of pt-vm.c). A table is a function from the index of an entry. Sections,
--               Default is the default map; Domains and Kernel are about one mapping, the domain register, and the loop over the
--               map; Paging puts them together with the allocator. Setup is `setup_vm` of
--               libpi/src/run.c.
--   Tests       the theorems at concrete inputs.
--
-- Fuel: the merges of `encode` take one round more than there are tokens, and the host's loops of the
-- boot protocol the number of bytes that they can read;
-- `qsort_impl` takes the length of its array, `bsearch` one more than it, `emit_val` the 33 cells
-- of its buffer; the theorems prove these enough. A walk of the table has no bound in the source, and
-- its theorems ask for one round more than the file has clusters.
--
-- Addresses and sizes are 32-bit numbers with their wrap-around written out. Sizes of arrays and the
-- products of indices are not wrapped in Matmul, Checkpoint, Qsort and Bsearch, whose arrays are in memory.
-- Memory is sequentially consistent: the caches are coherent and the barriers order the accesses.
--
-- Not modelled: device registers but those of the pins, the coprocessor's, the SD card driver and the
-- host tools (I/O); the quantised build (libpi/src/runq.c); FAT32's long names (its writes are unimplemented),
-- and the handshake that turns the link between boards around.
mod Base
pub mod Libc
pub mod Multicore
pub mod Infer
pub mod Fat32
pub mod Comm
pub mod Boot
pub mod Gpio
pub mod Vm
mod Tests
