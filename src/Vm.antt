-- ===== src/Vm.antt =====
-- libpi/vm: the page table of 1 MB sections. Attr is mem-attr.h and pinned-vm.h, Procmap is procmap.h,
-- Table is pt-vm.c. `none` is a failed `assert` or `demand`, or a `panic`: none of them returns.
pub mod Attr
pub mod Procmap
pub mod Table
pub mod Sections
pub mod Domains
pub mod Maps
pub mod Kernel
pub mod Paging
pub mod Setup
pub mod Default
