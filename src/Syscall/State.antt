-- ===== src/Syscall/State.antt =====
-- When a task and the machine are in order, and how writes inside the user memory bear on it.
use mini_isolation_lab.Base.{
  ℕ, zero, suc, ◌+◌, ◌^◌, ◌≤◌, ◌<◌, ◌≡◌, inl, inr, refl, ap, sym, ◌∙◌, dec_lt, true, arith, some,
  List, [], ◌∷◌, length, Bool-cases, get_elem?, set, length-set, bytes_eq,
}
use mathlib.Core.Path.{subst}
use mathlib.Core.Option.{some-injective}
use mini_isolation_lab.Machine.{Addr, Mem, KfsNode, Event, World}
use mini_isolation_lab.Machine.Memory.{Room, Apart, CString, SameOutside}
use mini_isolation_lab.Fs.{node_is_valid}
use mini_isolation_lab.Fs.Catalog.{Entry, find, AllNamed, IsMounted}
use mini_isolation_lab.Fs.Read.{HasBytes}
use mini_isolation_lab.Syscall.{Ktask, KtaskFile, max_files}
use mini_isolation_lab.Syscall.Write.{CanWrite}

-- The bytes of a valid node are mapped, none of them in the user memory, and its size is a `size_t`.
pub record IsBacked (m : Mem) (base len : ℕ) (n : KfsNode) : Type 0 where
  pub bytes : HasBytes m n
  pub apart : node_is_valid (some n) ≡ true → Apart base len n.bytes n.size
  pub size : n.size < 2 ^ 64
  pub mode : n.mode < 2 ^ 32

-- Nor is any of its name.
pub record IsPlaced (m : Mem) (base len : ℕ) (e : Entry) : Type 0 where
  pub backed : IsBacked m base len e.node
  pub name_apart :
      node_is_valid (some e.node) ≡ true → Apart base len e.node.path (length e.name + 1)

abbrev pub AllPlaced : Mem → ℕ → ℕ → List Entry → Type 0
AllPlaced m base len [] = Unit {0}
AllPlaced m base len (e ∷ es) = IsPlaced m base len e × AllPlaced m base len es

-- An open file is on a node in order, at an offset that is a `size_t`.
pub record IsOpenFile (m : Mem) (base len : ℕ) (f : KtaskFile) : Type 0 where
  pub node : (n : KfsNode) → f.node ≡ some n → IsBacked m base len n
  pub offset : f.offset < 2 ^ 64

abbrev pub AllFiles : Mem → ℕ → ℕ → List KtaskFile → Type 0
AllFiles m base len [] = Unit {0}
AllFiles m base len (f ∷ fs) = IsOpenFile m base len f × AllFiles m base len fs

pub record IsSound (es : List Entry) (t : Ktask) (w : World) : Type 0 where
  pub mounted : IsMounted w es
  pub placed : AllPlaced w.mem t.user_base t.user_len es
  pub room : Room w.mem t.user_base t.user_len
  pub based : 0 < t.user_base
  pub files : AllFiles w.mem t.user_base t.user_len t.files
  pub table : length t.files ≡ max_files
  pub can_write : CanWrite t w

pub CString-frame :
    (m m' : Mem) (p : Addr) (name : List ℕ)
    → ((a : Addr) → p ≤ a → a < p + (length name + 1) → m' a ≡ m a)
    → CString m p name
    → CString m' p name
CString-frame m m' p [] same s = same p (omega arith) (omega arith) ∙ s
CString-frame m m' p (c ∷ cs) same s = (
  same p (omega arith) (omega arith) ∙ s.0,
  s.1,
  CString-frame m m' (suc p) cs (λ a l u. same a (omega arith) (omega arith)) s.2,
)

-- The world with other memory, events and reads.
abbrev pub changed : World → Mem → List Event → ℕ → World
changed w m tr n = record w { mem = m; trace = tr; reads = n }

module _ {m m' : Mem} (base len : ℕ) (change : SameOutside base len m m') where
  pub Room-frame : (p n : ℕ) → Room m p n → Room m' p n
  Room-frame p n room a l u = change.mapped a ∙ room a l u

  -- What lies apart from the region is unchanged.
  Apart-same : (p n : ℕ) → Apart base len p n → (a : Addr) → p ≤ a → a < p + n → m' a ≡ m a
  Apart-same p n apart a l u = change.same a (elim (dec_lt a base) [
    | yes below ↦ inl below
    | no above ↦ elim (dec_lt a (base + len)) [
      | yes below ↦ absurd (omega (arith, apart a (omega arith) below))
      | no past ↦ inr (omega arith)
    ]
  ])

  pub IsBacked-frame : (n : KfsNode) → IsBacked m base len n → IsBacked m' base len n
  IsBacked-frame n b = record {
    bytes = λ v. Room-frame n.bytes n.size (b.bytes v);
    apart = b.apart;
    size = b.size;
    mode = b.mode;
  }

  AllPlaced-frame : (es : List Entry) → AllPlaced m base len es → AllPlaced m' base len es
  AllPlaced-frame [] ps = tt
  AllPlaced-frame (e ∷ es) (p, ps) = (
    record { backed = IsBacked-frame e.node p.backed; name_apart = p.name_apart },
    AllPlaced-frame es ps,
  )

  AllFiles_frame : (fs : List KtaskFile) → AllFiles m base len fs → AllFiles m' base len fs
  AllFiles_frame [] os = tt
  AllFiles_frame (f ∷ fs) (o, os) = (
    record { node = λ n e. IsBacked-frame n (o.node n e); offset = o.offset },
    AllFiles_frame fs os,
  )

  AllNamed-frame :
      (es : List Entry) (w : World) (tr : List Event) (n : ℕ)
      → w.mem ≡ m
      → AllPlaced m base len es
      → AllNamed w es
      → AllNamed (changed w m' tr n) es
  AllNamed-frame [] w tr n at ps ns = tt
  AllNamed-frame (e ∷ es) w tr n at (p, ps) (named, ns) = (
    λ v.
        let (text, fuel) = named v in
        (
          CString-frame w.mem m' e.node.path e.name
              (λ a l u.
                Apart-same e.node.path (length e.name + 1) (p.name_apart v) a l u
                ∙ ap (λ (f : Mem). f a) (sym at))
              text,
          fuel,
        ),
    AllNamed-frame es w tr n at ps ns,
  )

-- A change of the user memory, with any events and reads, keeps the state in order.
pub IsSound-frame :
    (es : List Entry) (t : Ktask) (w : World) (m : Mem) (tr : List Event) (n : ℕ)
    → IsSound es t w
    → SameOutside t.user_base t.user_len w.mem m
    → IsSound es t (changed w m tr n)
IsSound-frame es t w m tr n s change = record {
  mounted = record {
    nodes = s.mounted.nodes;
    count = s.mounted.count;
    named = AllNamed-frame t.user_base t.user_len change es w tr n refl s.placed s.mounted.named;
  };
  placed = AllPlaced-frame t.user_base t.user_len change es s.placed;
  room = Room-frame t.user_base t.user_len change t.user_base t.user_len s.room;
  based = s.based;
  files = AllFiles_frame t.user_base t.user_len change t.files s.files;
  table = s.table;
  can_write = s.can_write;
}

-- What a search of the catalog finds is in order.
pub find-IsBacked :
    (m : Mem) (base len : ℕ) (es : List Entry) (key : List ℕ) (n : KfsNode)
    → AllPlaced m base len es
    → find es key ≡ some n
    → (node_is_valid (some n) ≡ true) × IsBacked m base len n
unfolding find
find-IsBacked m base len [] key n ps e = cc
find-IsBacked m base len (e ∷ es) key n (p, ps) h =
    elim (Bool-cases (node_is_valid (some e.node))) [
      | inl v ↦ elim (Bool-cases (bytes_eq e.name key)) [
        | inl hit ↦
            let same : e.node ≡ n = ground arith in
            subst (λ k. (node_is_valid (some k) ≡ true) × IsBacked m base len k) same (v, p.backed)
        | inr miss ↦ find-IsBacked m base len es key n ps (ground arith)
      ]
      | inr v ↦ find-IsBacked m base len es key n ps (ground arith)
    ]

pub AllFiles-get :
    (m : Mem) (base len : ℕ) (fs : List KtaskFile) (i : ℕ) (f : KtaskFile)
    → AllFiles m base len fs
    → get_elem? fs i ≡ some f
    → IsOpenFile m base len f
AllFiles-get m base len [] i f os e = cc
AllFiles-get m base len (g ∷ fs) zero f (o, os) e =
    subst (IsOpenFile m base len) (some-injective g f e) o
AllFiles-get m base len (g ∷ fs) (suc i) f (o, os) e = AllFiles-get m base len fs i f os e

pub AllFiles-set :
    (m : Mem) (base len : ℕ) (fs : List KtaskFile) (i : ℕ) (f : KtaskFile)
    → AllFiles m base len fs
    → IsOpenFile m base len f
    → AllFiles m base len (set fs i f)
AllFiles-set m base len [] i f os o = tt
AllFiles-set m base len (g ∷ fs) zero f (o', os) o = (o, os)
AllFiles-set m base len (g ∷ fs) (suc i) f (o', os) o = (o', AllFiles-set m base len fs i f os o)

-- Changing one file to one in order keeps the state in order.
pub IsSound-set :
    (es : List Entry) (t : Ktask) (w : World) (i : ℕ) (f : KtaskFile)
    → IsSound es t w
    → IsOpenFile w.mem t.user_base t.user_len f
    → IsSound es (record t { files = set t.files i f }) w
IsSound-set es t w i f s o = record {
  mounted = s.mounted;
  placed = s.placed;
  room = s.room;
  based = s.based;
  files = AllFiles-set w.mem t.user_base t.user_len t.files i f s.files o;
  table = length-set t.files i f ∙ s.table;
  can_write = s.can_write;
}
