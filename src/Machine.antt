-- ===== src/Machine.antt =====
-- The machine that the kernel's C code runs on: a byte-addressed memory in which some addresses are
-- mapped, x86 ports, the `static` variables of kernel/fs.c, and commands that change these.
pub mod Memory
use mini_isolation_lab.Base.{
  ℕ, zero, suc, ◌+◌, Option, none, some, List, [], ◌∷◌, ◌++◌, ◌==◌, if◌then◌else◌,
}

abbrev pub Addr : Type 0
Addr = ℕ

-- `NULL`.
abbrev pub null : Addr
null = 0

-- `none` at an address that is not mapped.
abbrev pub Mem : Type 0
Mem = Addr → Option ℕ

-- `struct kfs_node`. The nodes are `const`, so a pointer to one is the node itself; its `path` and
-- `data` stay pointers into the memory.
pub record KfsNode : Type 0 where
  pub path : Addr
  pub bytes : Addr
  pub size : ℕ
  pub mode : ℕ

-- What the outside sees: a call of a task's `write_byte` with its context, or a byte sent to a port.
pub data Event : Type 0 where
  call : (fn ctx byte : ℕ) → Event
  out : (port value : ℕ) → Event

pub record World : Type 0 where
  pub mem : Mem
  pub trace : List Event
  -- What the n-th `inb` reads from a port.
  pub input : ℕ → ℕ → ℕ
  pub reads : ℕ
  -- The rounds that are given to a loop whose end is up to memory or a device.
  pub fuel : ℕ
  pub mounted_nodes : Option (List KfsNode)
  pub mounted_count : ℕ

abbrev pub with_mem : World → Mem → World
with_mem w m = record w { mem = m }

abbrev pub with_trace : World → List Event → World
with_trace w t = record w { trace = t }

-- `halted` is `arch_halt`, which never returns; `fault` is an access to an address that is not
-- mapped, or to an array's element that is not there.
pub data Run (A : Type 0) : Type 0 where
  ok : A → World → Run A
  halted : World → Run A
  fault : Run A
  out_of_fuel : Run A

abbrev pub Cmd : Type 0 → Type 0
Cmd A = World → Run A

abbrev pub pure : {A : Type 0} → A → Cmd A
pure a w = ok a w

module _ {A B : Type 0} where
  abbrev pub and_then : Run A → (A → Cmd B) → Run B
  and_then (ok a w) k = k a w
  and_then (halted w) k = halted w
  and_then fault k = fault
  and_then out_of_fuel k = out_of_fuel

  infixl 5 ◌>>=◌ ◌>>◌
  abbrev pub ◌>>=◌ : Cmd A → (A → Cmd B) → Cmd B
  ◌>>=◌ m k w = and_then (m w) k

  abbrev pub ◌>>◌ : Cmd A → Cmd B → Cmd B
  ◌>>◌ m n w = and_then (m w) (λ _. n)

abbrev pub update : Mem → Addr → ℕ → Mem
update m p v a = if a == p then some v else m a

-- `*p` and `*p = v` at a byte.
unfoldable pub load : Addr → Cmd ℕ
load p w = elim (w.mem p) [ none ↦ fault | some b ↦ ok b w ]

unfoldable pub store : Addr → ℕ → Cmd (Unit {0})
store p v w = elim (w.mem p) [ none ↦ fault | some b ↦ ok tt (with_mem w (update w.mem p v)) ]

-- An event at the end of the trace.
abbrev pub emit : Event → Cmd (Unit {0})
emit e w = ok tt (with_trace w (w.trace ++ (e ∷ [])))

-- The value of an option that must be there.
abbrev pub must : {A : Type 0} → Option A → Cmd A
must none w = fault
must (some a) w = ok a w
