-- ===== src/Examples.antt =====
-- Runs on a small machine with one file, one task and one process, and on a small Linux.
mod Descriptors
mod Kernel
mod Linux
mod Programs
mod Syscalls
mod World
