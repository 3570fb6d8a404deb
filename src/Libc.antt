-- ===== src/Libc.antt =====
-- libpi/libc: the C library that the kernel and the inference program are linked with.
pub mod Compare
pub mod Crc
pub mod Bsearch
pub mod Str
pub mod Kmalloc
pub mod Printk
pub mod Qsort
