-- ===== src/Panic.antt =====
-- mini-kernel/kernel/panic.c and `KASSERT` of mini-kernel/kernel/include/kernel/assert.h.
pub mod Halts
use mini_isolation_lab.Base.{ℕ, Bool, if◌then◌else◌, ◌!=◌}
use mini_isolation_lab.Machine.{Addr, Cmd, pure, null, ◌>>◌}
use mini_isolation_lab.Console.{klog_write, klog_writeln, arch_halt}

-- The addresses of the literals `"kernel panic: "` and `"(null)"`.
pub record PanicTexts : Type 0 where
  pub prefix_at : Addr
  pub null_at : Addr

pub kernel_panic : {A : Type 0} → PanicTexts → Addr → Cmd A
kernel_panic texts message = do
  klog_write texts.prefix_at
  klog_writeln (if message != null then message else texts.null_at)
  arch_halt

-- `KASSERT` of a condition; `message` is the address of the literal that the macro builds.
pub kassert : PanicTexts → Addr → Bool → Cmd (Unit {0})
kassert texts message holds = if holds then pure tt else kernel_panic texts message
