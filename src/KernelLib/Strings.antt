-- ===== src/KernelLib/Strings.antt =====
-- `kstrlen` and `kmem_equal` against the bytes that stand in memory.
use mini_isolation_lab.Base.{
  ℕ, zero, suc, ◌+◌, ◌<◌, ◌≡◌, ◌≢◌, refl, ap, arith, inl, inr, List, [], ◌∷◌, length, Bool-cases,
  ◌==◌, bytes_eq, some,
}
use mini_isolation_lab.Machine.{Addr, Mem, null, World, ok, load}
use mini_isolation_lab.Machine.Memory.{Room, CString, peek}
use mini_isolation_lab.KernelLib.{strlen_loop, kstrlen, equal_loop, kmem_equal}
use mini_isolation_lab.KernelLib.Copy.{load-mapped}

pub load-some : (p b : ℕ) (w : World) → w.mem p ≡ some b → load p w ≡ ok b w
unfolding load
load-some p b w e = rw (e, load)

strlen_loop-CString :
    (name : List ℕ) (k text len : ℕ) (p : Addr) (w : World)
    → text + len ≡ p
    → CString w.mem p name
    → length name < k
    → strlen_loop k text len w ≡ ok (len + length name) w
unfolding strlen_loop
strlen_loop-CString name zero text len p w e s fuel = absurd (omega arith)
strlen_loop-CString [] (suc k) text len p w e s fuel =
    rw (e, load-some p 0 w s) (ap (λ n. ok n w) (omega arith))
strlen_loop-CString (c ∷ cs) (suc k) text len p w e s fuel =
    rw (e, load-some p c w s.0)
      (ground
        (arith, strlen_loop-CString cs k text (len + 1) (suc p) w (omega arith) s.2 (omega arith)))

-- With fuel for the string, at an address other than null, `kstrlen` returns its length and
-- changes nothing.
pub kstrlen-CString :
    (text : Addr) (name : List ℕ) (w : World)
    → text ≢ null
    → CString w.mem text name
    → length name < w.fuel
    → kstrlen text w ≡ ok (length name) w
unfolding kstrlen
kstrlen-CString text name w ne s fuel =
    ground (arith, strlen_loop-CString name w.fuel text 0 text w (omega arith) s fuel)

-- A string's bytes are mapped, and are its name.
pub CString-Room : (m : Mem) (p : Addr) (name : List ℕ) → CString m p name → Room m p (length name)
CString-Room m p [] s a l u = absurd (omega arith)
CString-Room m p (c ∷ cs) s a l u = elim (Bool-cases (a == p)) [
  | inl e ↦ ground arith
  | inr e ↦ CString-Room m (suc p) cs s.2 a (ground arith) (omega arith)
]

pub peek-CString :
    (m : Mem) (p : Addr) (name : List ℕ) → CString m p name → peek m p (length name) ≡ name
unfolding peek
peek-CString m p [] s = refl
peek-CString m p (c ∷ cs) s = ground (arith, peek-CString m (suc p) cs s.2)

equal_loop-bytes_eq :
    (n left right i : ℕ) (l r : Addr) (w : World)
    → left + i ≡ l
    → right + i ≡ r
    → Room w.mem l n
    → Room w.mem r n
    → equal_loop n left right i w ≡ ok (bytes_eq (peek w.mem l n) (peek w.mem r n)) w
unfolding equal_loop peek
equal_loop-bytes_eq zero left right i l r w e e' room room' = refl
equal_loop-bytes_eq (suc n) left right i l r w e e' room room' =
    rw
      (
        e,
        e',
        load-mapped l w (room l (omega arith) (omega arith)),
        load-mapped r w (room' r (omega arith) (omega arith)),
      )
      (ground (
        arith,
        equal_loop-bytes_eq n left right (i + 1) (suc l) (suc r) w (omega arith) (omega arith)
            (λ a lo up. room a (omega arith) (omega arith))
            (λ a lo up. room' a (omega arith) (omega arith)),
      ))

-- `kmem_equal` compares the bytes of two mapped regions other than null and changes nothing.
pub kmem_equal-bytes_eq :
    (lhs rhs : Addr) (n : ℕ) (w : World)
    → lhs ≢ null
    → rhs ≢ null
    → Room w.mem lhs n
    → Room w.mem rhs n
    → kmem_equal lhs rhs n w ≡ ok (bytes_eq (peek w.mem lhs n) (peek w.mem rhs n)) w
unfolding kmem_equal peek
kmem_equal-bytes_eq lhs rhs zero w ne ne' room room' = refl
kmem_equal-bytes_eq lhs rhs (suc n) w ne ne' room room' =
    ground (
      arith,
      equal_loop-bytes_eq (suc n) lhs rhs 0 lhs rhs w (omega arith) (omega arith) room room',
    )
