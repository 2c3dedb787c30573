-- ===== src/Syscall/Keeps.antt =====
-- What a system call may change of a task and its world.
use mini_isolation_lab.Base.{
  ℕ, ◌+◌, ◌^◌, ◌≤◌, ◌<◌, ◌≡◌, refl, true, arith, Option, some, List, ◌++◌, length, set,
}
use mini_isolation_lab.Machine.{World, Run, ok, Event, with_mem}
use mini_isolation_lab.Machine.Memory.{
  overlay, SameOutside, SameOutside-refl, overlay-SameOutside, SameOutside-widen,
}
use mini_isolation_lab.Fs.Catalog.{Entry}
use mini_isolation_lab.Console.Output.{sent}
use mini_isolation_lab.Syscall.{Ktask, KtaskFile, KsyscallResult, task_contains_user_range}
use mini_isolation_lab.Syscall.Range.{contains-Room, contains-inside}
use mini_isolation_lab.Syscall.State.{
  IsSound, IsOpenFile, IsBacked-frame, IsSound-frame, IsSound-set,
}

-- What a system call may change: the state stays in order, memory differs at most in the user
-- memory, the mounted files stay, and of the task only the table of files differs.
pub record Keeps (es : List Entry) (t t' : Ktask) (w w' : World) : Type 0 where
  pub sound : IsSound es t' w'
  pub memory : SameOutside t.user_base t.user_len w.mem w'.mem
  pub task : t' ≡ record t { files = t'.files }
  pub fuel : w'.fuel ≡ w.fuel
  pub nodes : w'.mounted_nodes ≡ w.mounted_nodes

-- The call returns to a task, with no more changes than these.
abbrev pub Answers : List Entry → Ktask → World → Run (KsyscallResult × Option Ktask) → Type 0
Answers es t w run =
    (r : KsyscallResult) × (t' : Ktask) × (w' : World) × (run ≡ ok (r, some t') w')
    × Keeps es t t' w w'

pub Keeps-refl : (es : List Entry) (t : Ktask) (w : World) → IsSound es t w → Keeps es t t w w
Keeps-refl es t w s = record {
  sound = s;
  memory = SameOutside-refl t.user_base t.user_len w.mem;
  task = refl;
  fuel = refl;
  nodes = refl;
}

module _ (es : List Entry) (t : Ktask) (w : World) (s : IsSound es t w) where
  -- A change of one slot to a file in order.
  pub Keeps-set :
      (fd : ℕ) (f : KtaskFile)
      → IsOpenFile w.mem t.user_base t.user_len f
      → Keeps es t (record t { files = set t.files fd f }) w w
  Keeps-set fd f o = record {
    sound = IsSound-set es t w fd f s o;
    memory = SameOutside-refl t.user_base t.user_len w.mem;
    task = refl;
    fuel = refl;
    nodes = refl;
  }

  -- A change in an accepted range changes only the user memory.
  inside-SameOutside :
      (ptr len : ℕ) (bs : List ℕ)
      → task_contains_user_range (some t) ptr len ≡ true
      → length bs ≤ len
      → SameOutside t.user_base t.user_len w.mem (overlay w.mem ptr bs)
  inside-SameOutside ptr len bs inside most =
      let change =
        overlay-SameOutside w.mem ptr bs
          (λ a l u. contains-Room t ptr len inside w.mem s.room a l (omega arith)) in
      SameOutside-widen ptr (length bs) t.user_base t.user_len w.mem (overlay w.mem ptr bs)
        (λ a l u. contains-inside t ptr len inside a l (omega arith)) change

  pub Keeps-overlay :
      (ptr len : ℕ) (bs : List ℕ)
      → task_contains_user_range (some t) ptr len ≡ true
      → length bs ≤ len
      → Keeps es t t w (with_mem w (overlay w.mem ptr bs))
  Keeps-overlay ptr len bs inside most =
      let change = inside-SameOutside ptr len bs inside most in
      record {
        sound = IsSound-frame es t w (overlay w.mem ptr bs) w.trace w.reads s change;
        memory = change;
        task = refl;
        fuel = refl;
        nodes = refl;
      }

  pub Keeps-sent : (events : List Event) (n : ℕ) → Keeps es t t w (sent w events n)
  Keeps-sent events n =
      let same = SameOutside-refl t.user_base t.user_len w.mem in
      record {
        sound = IsSound-frame es t w w.mem (w.trace ++ events) n s same;
        memory = same;
        task = refl;
        fuel = refl;
        nodes = refl;
      }

  -- A read: bytes in an accepted range, and the file behind them.
  pub Keeps-read :
      (fd dst len : ℕ) (f : KtaskFile) (bs : List ℕ)
      → task_contains_user_range (some t) dst len ≡ true
      → length bs ≤ len
      → IsOpenFile w.mem t.user_base t.user_len f
      → f.offset + length bs < 2 ^ 64
      → Keeps es t
          (record t { files = set t.files fd (record f { offset = f.offset + length bs }) })
          w
          (with_mem w (overlay w.mem dst bs))
  Keeps-read fd dst len f bs inside most o fits =
      let change = inside-SameOutside dst len bs inside most in
      let kept = Keeps-overlay dst len bs inside most in
      record {
        sound =
            IsSound-set es t (with_mem w (overlay w.mem dst bs)) fd
              (record f { offset = f.offset + length bs }) kept.sound
              (record {
                node = λ n e. IsBacked-frame t.user_base t.user_len change n (o.node n e);
                offset = fits;
              });
        memory = change;
        task = refl;
        fuel = refl;
        nodes = refl;
      }
