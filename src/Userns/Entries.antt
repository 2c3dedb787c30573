-- ===== src/Userns/Entries.antt =====
-- What the parent of userns_map.c writes into the maps of the child: the monitor, and the entries.
use Prim.Native.String.{String}
use mini_isolation_lab.Base.{
  ℕ, ◌++◌, ◌≤◌, ap, ◌∙◌, arith, length-append, ◌≡◌, ◌⊎◌, inl, inr, Option, none, some, List, [],
  ◌∷◌, length, ◌==◌, ◌&&◌, if◌then◌else◌,
}
use mini_isolation_lab.Host.{
  Text, Event, called, Flag, Call, done, failed, WaitStatus, int_value, enoent,
}
use mini_isolation_lab.Host.Format.{chars, decimal, take-whole, decimal-le}
use mini_isolation_lab.Userns.{proc_path, map_line}

-- The ids of the parent; the end of the pipe that is written, and the child of the clone into a user namespace; the
-- file that is open, with its path; the texts written as a whole with the paths of their files, the last one first;
-- the paths at which there was no file to open; what was written when a byte went into the pipe; and the child's status.
pub record Seen : Type 0 where
  pub uid : ℕ
  pub gid : ℕ
  pub pipe_end : ℕ
  pub child : ℕ
  pub target : Option (ℕ × Text)
  pub written : List (Text × Text)
  pub absent : List Text
  pub released : Option (List (Text × Text))
  pub status : Option WaitStatus

-- A write to the open file, or of one byte to the pipe when none is open.
abbrev pub after_write : Seen → Option (ℕ × Text) → ℕ → Text → Seen
after_write m (some (file, path)) fd t =
    if file == fd then record m { written = (path, t) ∷ m.written } else m
after_write m none fd t =
    if (length t == 1) && (m.pipe_end == fd) then record m { released = some m.written } else m

abbrev pub step : Seen → Event → Seen
step m (called Call.getuid a) = record m { uid = int_value a }
step m (called Call.getgid a) = record m { gid = int_value a }
step m (called Call.pipe (done (r, w))) = record m { pipe_end = w }
step m (called (Call.clone (Flag.clone_newuser ∷ Flag.sigchld ∷ [])) (done pid)) = record m {
  child = pid;
}
step m (called (Call.open_file path flags) (done fd)) = record m { target = some (fd, path) }
step m (called (Call.open_file path flags) (failed e)) =
    if e == enoent then record m { absent = path ∷ m.absent } else m
step m (called (Call.close_fd fd) a) = record m { target = none }
step m (called (Call.write_fd fd t) (done n)) =
    if n == length t then after_write m m.target fd t else m
step m (called (Call.waitpid pid) (done (p, s))) =
    if m.child == pid then record m { status = some s } else m
step m _ = m

abbrev pub unmapped : Seen
unmapped = record {
  uid = 0;
  gid = 0;
  pipe_end = 0;
  child = 0;
  target = none;
  written = [];
  absent = [];
  released = none;
  status = none;
}

-- A file of the child below /proc.
abbrev pub own_path : ℕ → String → Text
own_path child file = chars "/proc/" ++ (decimal child ++ chars file)

-- Id 0 inside for one id outside.
abbrev pub own_line : ℕ → Text
own_line id = chars "0 " ++ (decimal id ++ chars " 1\n")

-- Both maps for the parent's ids; `deny` between them, or there was no file for it.
abbrev pub uid_entry : Seen → Text × Text
uid_entry m = (own_path m.child "/uid_map", own_line m.uid)

abbrev pub gid_entry : Seen → Text × Text
gid_entry m = (own_path m.child "/gid_map", own_line m.gid)

abbrev pub deny_entry : Seen → Text × Text
deny_entry m = (own_path m.child "/setgroups", chars "deny\n")

abbrev pub Mapped : Seen → Type 0
Mapped m =
    (m.released ≡ some (gid_entry m ∷ deny_entry m ∷ uid_entry m ∷ []))
    ⊎ ((m.released ≡ some (gid_entry m ∷ uid_entry m ∷ []))
        × (m.absent ≡ own_path m.child "/setgroups" ∷ []))

-- The paths and the lines fit into their buffers.
proc_path-whole :
    (child : ℕ) (file : String)
    → length (chars file) ≤ 100
    → proc_path child file ≡ own_path child file
proc_path-whole child file h = take-whole 127 (own_path child file) (
    omega (
      arith,
      length-append (chars "/proc/") (decimal child ++ chars file),
      length-append (decimal child) (chars file),
      decimal-le child,
      h,
    ))

map_line-whole : (id : ℕ) → map_line id ≡ own_line id
map_line-whole id = take-whole 127 (own_line id) (
    omega (
      arith,
      length-append (chars "0 ") (decimal id ++ chars " 1\n"),
      length-append (decimal id) (chars " 1\n"),
      decimal-le id,
    ))

-- The entries as the program writes them.
abbrev pub uid_written : Seen → Text × Text
uid_written m = (proc_path m.child "/uid_map", map_line m.uid)

abbrev pub gid_written : Seen → Text × Text
gid_written m = (proc_path m.child "/gid_map", map_line m.gid)

abbrev pub deny_written : Seen → Text × Text
deny_written m = (proc_path m.child "/setgroups", chars "deny\n")

uid_written-whole : (m : Seen) → uid_written m ≡ uid_entry m
uid_written-whole m =
    ap (λ p. (p, map_line m.uid)) (proc_path-whole m.child "/uid_map" (omega arith))
    ∙ ap (λ l. (own_path m.child "/uid_map", l)) (map_line-whole m.uid)

gid_written-whole : (m : Seen) → gid_written m ≡ gid_entry m
gid_written-whole m =
    ap (λ p. (p, map_line m.gid)) (proc_path-whole m.child "/gid_map" (omega arith))
    ∙ ap (λ l. (own_path m.child "/gid_map", l)) (map_line-whole m.gid)

deny_written-whole : (m : Seen) → deny_written m ≡ deny_entry m
deny_written-whole m =
    ap (λ p. (p, chars "deny\n")) (proc_path-whole m.child "/setgroups" (omega arith))

pub three-Mapped :
    (m : Seen) → m.released ≡ some (gid_written m ∷ deny_written m ∷ uid_written m ∷ []) → Mapped m
three-Mapped m e = inl (
    e
    ∙ ap (λ x. some (x ∷ deny_written m ∷ uid_written m ∷ [])) (gid_written-whole m)
    ∙ ap (λ x. some (gid_entry m ∷ x ∷ uid_written m ∷ [])) (deny_written-whole m)
    ∙ ap (λ x. some (gid_entry m ∷ deny_entry m ∷ x ∷ [])) (uid_written-whole m))

pub two-Mapped :
    (m : Seen)
    → m.released ≡ some (gid_written m ∷ uid_written m ∷ [])
    → m.absent ≡ proc_path m.child "/setgroups" ∷ []
    → Mapped m
two-Mapped m e none_there = inr (
  e
      ∙ ap (λ x. some (x ∷ uid_written m ∷ [])) (gid_written-whole m)
      ∙ ap (λ x. some (gid_entry m ∷ x ∷ [])) (uid_written-whole m),
  none_there ∙ ap (λ p. p ∷ []) (proc_path-whole m.child "/setgroups" (omega arith)),
)
