-- ===== src/Tests.antt =====
-- The theorems at concrete inputs, and runs of the definitions.
mod Libc
mod Infer
mod Fat32
mod Comm
mod Boot
mod Encode
mod Checkpoint
mod Gpio
mod Vm
mod Card
mod Forward
