-- ===== src/Basics.antt =====
-- The first five Linux programs: src/part-01-syscalls to src/part-05-rootfs, one module for each.
pub mod Syscalls
pub mod Memory
pub mod Processes
pub mod Namespaces
pub mod Rootfs
pub mod Returned
