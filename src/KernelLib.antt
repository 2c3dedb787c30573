-- ===== src/KernelLib.antt =====
-- mini-kernel/kernel/lib/mem.c and mini-kernel/kernel/lib/string.c: memory and string helpers of the
-- kernel, over pointers into the memory.
pub mod Copy
pub mod Strings
use mini_isolation_lab.Base.{
  ℕ, zero, suc, ◌+◌, Bool, true, false, ◌||◌, ◌==◌, ◌!=◌, ltb, if◌then◌else◌,
}
use mini_isolation_lab.Base.Words.{u8}
use mini_isolation_lab.Machine.{Addr, null, World, out_of_fuel, Cmd, pure, ◌>>=◌, ◌>>◌, load, store}

-- The loop of `kmemset`, from index `i` with this many rounds left.
set_loop : ℕ → Addr → ℕ → ℕ → Cmd (Unit {0})
set_loop zero out value i = pure tt
set_loop (suc n) out value i = do store (out + i) (u8 value); set_loop n out value (i + 1)

pub kmemset : Addr → ℕ → ℕ → Cmd Addr
unfolding set_loop
kmemset dst value len = if dst == null then pure null else do set_loop len dst value 0; pure dst

-- `for (i = 0; i < len; i++) out[i] = in[i];`, from index `i` with this many rounds left.
pub copy_loop : ℕ → (out in_ : Addr) → ℕ → Cmd (Unit {0})
copy_loop zero out in_ i = pure tt
copy_loop (suc n) out in_ i = do b ← load (in_ + i); store (out + i) b; copy_loop n out in_ (i + 1)

pub kmemcpy : (dst src : Addr) → ℕ → Cmd Addr
unfolding copy_loop
kmemcpy dst src len =
    if len == 0
    then pure dst
    else if (dst == null) || (src == null)
    then pure null
    else do copy_loop len dst src 0; pure dst

pub kmemcpy_checked : Addr → ℕ → Addr → ℕ → Cmd Bool
unfolding kmemcpy
kmemcpy_checked dst dst_len src src_len =
    if ltb dst_len src_len
    then pure false
    else do copied ← kmemcpy dst src src_len; pure (copied == dst)

strlen_loop : ℕ → Addr → ℕ → Cmd ℕ
strlen_loop zero text len = λ w. out_of_fuel
strlen_loop (suc k) text len = do
  c ← load (text + len)
  if c == 0 then pure len else strlen_loop k text (len + 1)

pub kstrlen : Addr → Cmd ℕ
unfolding strlen_loop
kstrlen text = if text == null then pure 0 else λ w. strlen_loop w.fuel text 0 w

equal_loop : ℕ → (left right : Addr) → ℕ → Cmd Bool
equal_loop zero left right i = pure true
equal_loop (suc n) left right i = do
  x ← load (left + i)
  y ← load (right + i)
  if x != y then pure false else equal_loop n left right (i + 1)

pub kmem_equal : (lhs rhs : Addr) → ℕ → Cmd Bool
unfolding equal_loop
kmem_equal lhs rhs len =
    if len == 0
    then pure true
    else if (lhs == null) || (rhs == null)
    then pure false
    else equal_loop len lhs rhs 0
