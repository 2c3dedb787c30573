-- ===== src/Machine/Memory.antt =====
-- Regions of memory: which bytes stand there, and what a write elsewhere leaves alone.
use mini_isolation_lab.Base.{
  ℕ, zero, suc, ◌+◌, ◌≤◌, ◌<◌, ◌≡◌, ◌≢◌, refl, ap, ◌∙◌, true, none, some, List, [], ◌∷◌, ◌++◌,
  arith, is_some, length, ◌⊎◌, inl, inr, dec_lt,
}
use mini_isolation_lab.Machine.{Addr, Mem, update}

-- Every address of the region is mapped.
abbrev pub Room : Mem → Addr → ℕ → Type 0
Room m p n = (a : Addr) → p ≤ a → a < p + n → is_some (m a) ≡ true

abbrev pub byte_at : Mem → Addr → ℕ
byte_at m p = elim (m p) [ none ↦ 0 | some b ↦ b ]

-- The bytes of a region.
unfoldable pub peek : Mem → Addr → ℕ → List ℕ
peek m p zero = []
peek m p (suc n) = byte_at m p ∷ peek m (suc p) n

-- The memory with bytes written one after the other.
unfoldable pub overlay : Mem → Addr → List ℕ → Mem
overlay m p [] = m
overlay m p (b ∷ bs) = overlay (update m p b) (suc p) bs

-- A C string: these bytes, none of them 0, and the terminator.
abbrev pub CString : Mem → Addr → List ℕ → Type 0
CString m p [] = m p ≡ some 0
CString m p (c ∷ cs) = (m p ≡ some c) × (c ≢ 0) × CString m (suc p) cs

-- Two regions share no address.
abbrev pub Apart : Addr → ℕ → Addr → ℕ → Type 0
Apart p n q k = (a : Addr) → p ≤ a → a < p + n → (a < q) ⊎ (q + k ≤ a)

-- The two memories differ at most in the region, and the same addresses are mapped.
pub record SameOutside (p : Addr) (n : ℕ) (m m' : Mem) : Type 0 where
  pub same : (a : Addr) → (a < p) ⊎ (p + n ≤ a) → m' a ≡ m a
  pub mapped : (a : Addr) → is_some (m' a) ≡ is_some (m a)

pub length-peek : (m : Mem) (p n : ℕ) → length (peek m p n) ≡ n
unfolding peek
length-peek m p zero = refl
length-peek m p (suc n) = ap suc (length-peek m (suc p) n)

pub byte_at_of_mapped : (m : Mem) (p : Addr) → is_some (m p) ≡ true → m p ≡ some (byte_at m p)
byte_at_of_mapped m p h = ground arith

pub peek_frame :
    (m m' : Mem) (p n : ℕ)
    → ((a : Addr) → p ≤ a → a < p + n → m' a ≡ m a)
    → peek m' p n ≡ peek m p n
unfolding peek
peek_frame m m' p zero h = refl
peek_frame m m' p (suc n) h = ground (
  arith,
  h p (omega arith) (omega arith),
  peek_frame m m' (suc p) n (λ a l u. h a (omega arith) (omega arith)),
)

pub overlay_outside :
    (m : Mem) (p : Addr) (bs : List ℕ) (a : Addr)
    → (a < p) ⊎ (p + length bs ≤ a)
    → overlay m p bs a ≡ m a
unfolding overlay
overlay_outside m p [] a h = refl
overlay_outside m p (b ∷ bs) a h =
    ground (arith, overlay_outside (update m p b) (suc p) bs a (omega arith))

pub overlay_mapped :
    (m : Mem) (p : Addr) (bs : List ℕ) (a : Addr)
    → Room m p (length bs)
    → is_some (overlay m p bs a) ≡ is_some (m a)
unfolding overlay
overlay_mapped m p [] a room = refl
overlay_mapped m p (b ∷ bs) a room = ground (
  arith,
  overlay_mapped (update m p b) (suc p) bs a
      (λ x l u. ground (arith, room x (omega arith) (omega arith))),
  room p (omega arith) (omega arith),
)

pub overlay-SameOutside :
    (m : Mem) (p : Addr) (bs : List ℕ)
    → Room m p (length bs)
    → SameOutside p (length bs) m (overlay m p bs)
overlay-SameOutside m p bs room = record {
  same = overlay_outside m p bs;
  mapped = λ a. overlay_mapped m p bs a room;
}

-- What was written is read back.
pub peek-overlay : (m : Mem) (p : Addr) (bs : List ℕ) → peek (overlay m p bs) p (length bs) ≡ bs
unfolding peek overlay
peek-overlay m p [] = refl
peek-overlay m p (b ∷ bs) = ground (
  arith,
  peek-overlay (update m p b) (suc p) bs,
  overlay_outside (update m p b) (suc p) bs p (inl (omega arith)),
)

pub overlay-append :
    (m : Mem) (p : Addr) (xs ys : List ℕ)
    → overlay m p (xs ++ ys) ≡ overlay (overlay m p xs) (p + length xs) ys
unfolding overlay
overlay-append m p [] ys = ap (λ k. overlay m k ys) (omega arith)
overlay-append m p (x ∷ xs) ys =
    overlay-append (update m p x) (suc p) xs ys
    ∙ ap (λ k. overlay (overlay (update m p x) (suc p) xs) k ys) (omega arith)

-- The parts of what was written are read back.
pub peek-overlay_prefix :
    (m : Mem) (p : Addr) (xs ys : List ℕ) → peek (overlay m p (xs ++ ys)) p (length xs) ≡ xs
peek-overlay_prefix m p xs ys = rw (overlay-append m p xs ys) (
    peek_frame (overlay m p xs) (overlay (overlay m p xs) (p + length xs) ys) p (length xs)
      (λ a l u. overlay_outside (overlay m p xs) (p + length xs) ys a (inl u))
    ∙ peek-overlay m p xs)

pub peek-overlay_suffix :
    (m : Mem) (p : Addr) (xs ys : List ℕ)
    → peek (overlay m p (xs ++ ys)) (p + length xs) (length ys) ≡ ys
peek-overlay_suffix m p xs ys =
    rw (overlay-append m p xs ys) (peek-overlay (overlay m p xs) (p + length xs) ys)

pub SameOutside-refl : (p n : ℕ) (m : Mem) → SameOutside p n m m
SameOutside-refl p n m = record { same = λ a h. refl; mapped = λ a. refl }

pub SameOutside-trans :
    (p n : ℕ) (m m' m'' : Mem)
    → SameOutside p n m m'
    → SameOutside p n m' m''
    → SameOutside p n m m''
SameOutside-trans p n m m' m'' a b = record {
  same = λ x h. b.same x h ∙ a.same x h;
  mapped = λ x. b.mapped x ∙ a.mapped x;
}

-- A change of a part of a region is a change of the region.
pub SameOutside-widen :
    (p n q k : ℕ) (m m' : Mem)
    → ((a : Addr) → p ≤ a → a < p + n → (q ≤ a) × (a < q + k))
    → SameOutside p n m m'
    → SameOutside q k m m'
SameOutside-widen p n q k m m' part change = record {
  same = λ a out. change.same a (elim (dec_lt a p) [
    | yes below ↦ inl below
    | no above ↦ elim (dec_lt a (p + n)) [
      | yes within ↦ let (from, to) = part a (omega arith) within in absurd (omega arith)
      | no past ↦ inr (omega arith)
    ]
  ]);
  mapped = change.mapped;
}
