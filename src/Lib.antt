-- ===== src/Lib.antt =====
-- mini-isolation-lab: the mini-kernel, a small x86_64 kernel in C with a log on the serial port, a
-- read-only file system, a system call dispatcher and an interpreter for user programs; and the Linux
-- programs that show isolation, with cgroups, namespaces, seccomp, capabilities and KVM.
--
-- How the parts of the kernel interact. A user program is a list of operations. The runtime (mini-kernel/kernel/user.c)
-- turns each into a trap frame; the trap boundary (syscall_entry.c) passes the frame's registers to the
-- dispatcher (syscall.c); a system call looks at the task's user memory and its table of files, and uses the
-- file system (fs.c) and the log (main.c, serial.c); the result goes back through the frame. The
-- descriptor tables (arch/x86_64) are set up before.
--
-- Files.
-- - Machine: bytes at addresses, some mapped and some not, the static variables of fs.c, ports, and
--   commands on these. Machine/Memory: regions, strings and changes of a region.
-- - KernelLib: lib/mem.c and lib/string.c. Console: arch/x86_64/serial.c, the port and halt instructions
--   of arch/x86_64/cpu.c, and the log of main.c.
-- - Fs: fs.c and include/kernel/fs.h. Fs/Catalog describes what is mounted: names with their nodes.
-- - Task: the types of include/kernel/syscall.h. Syscall: syscall.c. Syscall/State: a state in order; Syscall/Calls: what each number does.
-- - SyscallEntry: syscall_entry.c and include/kernel/syscall_entry.h.
-- - User: include/kernel/user.h and user.c up to the switch of kuser_run; User/Run: the rest of kuser_run, User/Run/Steps and User/Run/Files on single operations;
--   User/InitProgram: the data of the init program.
-- - Panic: panic.c and KASSERT of include/kernel/assert.h. Boot: kernel_start of main.c.
-- - Gdt, Idt, Cpu: arch/x86_64/gdt.c, idt.c and cpu.c, with include/kernel/arch.h.
-- - Base: the tests, lists, words and bits that all of these share. Examples: runs on a small machine.
-- These paths are under mini-kernel/kernel.
-- - Host: the calls that the Linux programs make, and programs as trees of calls; Host/Format: texts and
--   numbers; Host/Paths: what holds on every path; Host/Runs: runs. Status: print_status_field of parts 11
--   and 14.
-- - Basics: src/part-01-syscalls to src/part-05-rootfs, one module for each program.
-- - Cgroup: src/part-06-cgroups/cgroup_limit.c. Container: src/part-07-container/mini_container.c.
-- - Kvm: what the KVM programs share; Kvm/Api: src/part-08-kvm/kvm_api_version.c; Kvm/Firecracker:
--   src/part-09-microvm/mini_firecracker.c; Kvm/Slots: src/part-10-microvm-memory/kvm_memory_slots.c;
--   Kvm/Capabilities: src/part-13-kvm-capabilities/kvm_capabilities.c.
-- - Hardening: src/part-11-hardening/container_hardening.c. Userns: src/part-12-userns/userns_map.c.
--   Caps: src/part-14-capabilities/drop_capabilities.c.
-- A function keeps its C name, without the prefix kx86_.
--
-- State and results of the kernel. A command takes the world and ends in `ok` with a value and a world, in `halted`
-- (arch_halt), in `fault` (an access to an address that is not mapped, or past an array) or in
-- `out_of_fuel`. A pointer argument that C tests against NULL is an option where it points to a struct, and
-- an address, 0 for NULL, where it points to bytes. Structs that only the kernel sees (task, process, frame,
-- file nodes, which are const) are values beside the memory; a function that changes one returns the new
-- value. A struct that a user buffer receives is written as bytes, without its padding.
--
-- Numbers. Words are natural numbers with the wrap-around written out; an int or intptr_t is its bit
-- pattern. Addresses of bytes in a buffer are computed without wrap-around, since C has none for pointers
-- into an object; task_contains_user_range, which guards against it, has its overflow tests.
--
-- The Linux programs. A program is a tree: each call of the operating system has a branch for every answer,
-- a number or structure or an error with its errno, and nothing is assumed of the answers, not even that two
-- open files have different numbers. A monitor is a state that each call with its answer, and each output,
-- changes; a theorem about a program states what holds of the monitor at the end of every path. errno changes
-- with a call that fails and with an assignment; printing leaves it. exit and _exit end the program. A call
-- that may not return (execvp, or getpid under strict seccomp) has both continuations. fork and clone answer
-- each process of the two; where the child runs a function of its own, that is a program of its own. Texts of
-- strerror and strsignal stay names, numbers of headers are those of Linux on x86_64, and the size of
-- struct kvm_run is a parameter.
--
-- Fuel. In the kernel, only loops whose end is up to memory or a device have it: kstrlen and klog_write, for which more
-- fuel than the text is long suffices, and arch_serial_putc, which needs more than the polls until the port
-- is ready (IsResponsive). Every other loop counts down a number that its caller fixes. Of the Linux programs,
-- the loops around waitpid and KVM_RUN and those over the lines of a file have it; a path that uses it up is
-- one on which the operating system has answered so many times without an end of the loop.
--
-- Hypotheses on what is not here. A task's own write_byte is a call recorded as an event: it returns and
-- does not change the kernel's state. The serial port is an input function that gives, for the n-th read of a
-- port, what is read.
--
-- Not modelled. The KERNEL_HOST_TEST build, in which bytes to the default output are dropped; the
-- version of kernel_panic in security/assert.c, which belongs to it; the assembly of boot/; of the Linux
-- programs, the buffers of the standard output, the contents of mapped memory, and the branches for headers
-- that lack a KVM capability.
pub mod Base
pub mod Machine
pub mod KernelLib
pub mod Boot
pub mod Basics
pub mod Cgroup
pub mod Kvm
pub mod Userns
pub mod Container
pub mod Status
pub mod Caps
pub mod Hardening
pub mod Console
pub mod Cpu
pub mod Fs
pub mod Gdt
pub mod Host
pub mod Idt
pub mod Task
pub mod Panic
pub mod Syscall
pub mod SyscallEntry
pub mod User
mod Examples
