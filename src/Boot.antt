-- ===== src/Boot.antt =====
-- The boot sequence: `kernel_start` and `klog_init` of mini-kernel/kernel/main.c, and
-- `arch_early_init` of mini-kernel/kernel/arch/x86_64/cpu.c.
use mini_isolation_lab.Base.{ℕ, ◌+◌, Bool, true, some, not, ◌==◌, ◌||◌, if◌then◌else◌, replicate}
use mini_isolation_lab.Machine.{Addr, Cmd, pure, null, must, ◌>>=◌, ◌>>◌}
use mini_isolation_lab.KernelLib.{kstrlen, kmemcpy_checked}
use mini_isolation_lab.Console.{arch_serial_init, arch_halt, klog_putc, klog_writeln}
use mini_isolation_lab.Gdt.{GdtEntry}
use mini_isolation_lab.Cpu.{Tables, descriptor_tables_init}
use mini_isolation_lab.Syscall.{
  Ktask, KsyscallRegs, KsyscallResult, nr_write, fd_stdout, max_files, no_file, ksyscall_dispatch,
}
use mini_isolation_lab.User.{KuserError, KuserProcess, kuser_init_process}
use mini_isolation_lab.User.InitProgram.{InitPlaces, init_program}
use mini_isolation_lab.User.Run.{is_success, kuser_run}

-- Where the linker and the compiler put what the boot sequence uses: the literals, the buffer and the
-- array of the init process.
pub record Image : Type 0 where
  pub banner_at : Addr
  pub banner_buffer : Addr
  pub copy_failed_at : Addr
  pub write_failed_at : Addr
  pub online_at : Addr
  pub init_failed_at : Addr
  pub exited_at : Addr
  pub process_memory : Addr
  pub init_places : InitPlaces

abbrev banner_size : ℕ
banner_size = 64

pub arch_early_init : GdtEntry → Tables → Cmd Tables
arch_early_init stale tables = do
  loaded ← descriptor_tables_init stale tables
  arch_serial_init
  pure loaded

pub klog_init : GdtEntry → Tables → Cmd Tables
unfolding arch_early_init
klog_init stale tables = arch_early_init stale tables

-- A line on the log, and the end.
pub give_up : {A : Type 0} → Addr → Cmd A
give_up text = do klog_writeln text; arch_halt

-- The fields that an initialiser leaves out are 0.
pub write_banner : Addr → (user_len len : ℕ) → Cmd KsyscallResult
write_banner buffer user_len len = do
  let init_task : Ktask = record {
    pid = 1;
    user_base = buffer;
    user_len = user_len;
    write_byte = null;
    write_ctx = 0;
    files = replicate max_files no_file;
  }
  let regs : KsyscallRegs = record {
    nr = nr_write;
    arg0 = fd_stdout;
    arg1 = buffer;
    arg2 = len;
    arg3 = 0;
    arg4 = 0;
    arg5 = 0;
  }
  out ← ksyscall_dispatch (some init_task) (some regs)
  pure out.0

-- The test behind the run of the init program.
pub init_failed : KuserError → KuserProcess → Bool
init_failed KuserError.success process = not process.exited || not (process.exit_status == 0)
init_failed _ process = true

pub launch_init : Image → Cmd (Unit {0})
unfolding init_failed
launch_init image = do
  made ← kuser_init_process (some image.process_memory) 2 null 0
  (init_error, ran) ← kuser_run made (some (init_program image.init_places))
  process ← must ran
  if init_failed init_error process then give_up image.init_failed_at else pure tt

-- `stale` is what an uninitialised segment descriptor holds.
pub kernel_start : {A : Type 0} → GdtEntry → Tables → Image → Cmd A
unfolding klog_init give_up write_banner launch_init
kernel_start stale tables image = do
  loaded ← klog_init stale tables
  n ← kstrlen image.banner_at
  copied ← kmemcpy_checked image.banner_buffer banner_size image.banner_at (n + 1)
  if copied then pure tt else give_up image.copy_failed_at
  user_len ← kstrlen image.banner_buffer
  len ← kstrlen image.banner_buffer
  result ← write_banner image.banner_buffer user_len len
  if is_success result.error then pure tt else give_up image.write_failed_at
  klog_putc b'\n'
  klog_writeln image.online_at
  launch_init image
  klog_writeln image.exited_at
  arch_halt
