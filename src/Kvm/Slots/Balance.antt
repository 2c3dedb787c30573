-- ===== src/Kvm/Slots/Balance.antt =====
-- The memory of the machine on every path through kvm_memory_slots.c.
use mini_isolation_lab.Base.{
  ℕ, ◌+◌, ◌≡◌, ◌⊎◌, inl, inr, refl, Bool, true, false, not, ap, ◌∙◌, Bool-cases, ==_refl, List, [],
  ◌∷◌, ◌==◌, ◌!=◌, ◌||◌, ◌&&◌, ltb, leb, if◌then◌else◌,
}
use mini_isolation_lab.Host.{Event, called, Region, Request, Call, done}
use mini_isolation_lab.Host.Paths.{End, Stop, Always, on_answer}
use mini_isolation_lab.Kvm.{kvm_api_version, checked_ioctl}
use mini_isolation_lab.Kvm.Opening.{open-then}
use mini_isolation_lab.Host.Resources.{without, is_map, released-maps}
use mini_isolation_lab.Kvm.Slots.{
  low_mem_size, high_mem_size, main, shape_memory, map_host_memory, set_memory_slot,
  remove_memory_slot,
}

-- The open files, the mappings and the slots; how often a slot was given addresses of the guest that another one has, how
-- often host memory that is not mapped so, and how often memory under a slot was unmapped.
pub record Seen : Type 0 where
  pub fds : List ℕ
  pub maps : List (ℕ × ℕ)
  pub slots : List Region
  pub clashes : ℕ
  pub unbacked : ℕ
  pub torn : ℕ
  pub sets : ℕ

-- The guest's addresses of the two have a common one.
abbrev pub overlap : Region → Region → Bool
overlap r s =
    not (leb (r.guest_phys_addr + r.memory_size) s.guest_phys_addr)
    && not (leb (s.guest_phys_addr + s.memory_size) r.guest_phys_addr)

abbrev pub any {ℓ} : {A : Type ℓ} → (A → Bool) → List A → Bool
any p [] = false
any p (x ∷ xs) = p x || any p xs

abbrev pub count : Bool → ℕ → ℕ
count b n = if b then n + 1 else n

-- A region of size 0 takes the slot away.
abbrev pub set_region : Seen → Region → Seen
set_region m r =
    if r.memory_size == 0
    then record m { slots = without (λ s. s.slot == r.slot) m.slots }
    else record m {
      slots = r ∷ m.slots;
      clashes = count (any (overlap r) m.slots) m.clashes;
      unbacked = count (not (any (is_map (r.userspace_addr, r.memory_size)) m.maps)) m.unbacked;
      sets = m.sets + 1;
    }

abbrev pub unmap : Seen → ℕ → ℕ → Seen
unmap m addr size = record m {
  maps = without (is_map (addr, size)) m.maps;
  torn = count (any (λ s. is_map (addr, size) (s.userspace_addr, s.memory_size)) m.slots) m.torn;
}

abbrev pub step : Seen → Event → Seen
step m (called (Call.open_file path flags) (done fd)) = record m { fds = fd ∷ m.fds }
step m (called (Call.ioctl fd Request.create_vm) (done vm)) = record m { fds = vm ∷ m.fds }
step m (called (Call.close_fd fd) a) = record m { fds = without (λ y. fd == y) m.fds }
step m (called (Call.mmap size prot flags fd) (done addr)) = record m {
  maps = (addr, size) ∷ m.maps;
}
step m (called (Call.munmap addr size) a) = unmap m addr size
step m (called (Call.ioctl fd (Request.set_user_memory_region r)) (done n)) = set_region m r
step m _ = m

abbrev pub untouched : Seen
untouched = record {
  fds = [];
  maps = [];
  slots = [];
  clashes = 0;
  unbacked = 0;
  torn = 0;
  sets = 0;
}

-- Nothing is wrong with the slots so far.
abbrev Sound : Seen → Type 0
Sound m = (m.clashes ≡ 0) × (m.unbacked ≡ 0) × (m.torn ≡ 0)

-- Every end of `main`.
abbrev pub Balanced : Seen → ℕ → End ℕ → Type 0
Balanced m e (End.returned n) =
    Sound m
    × (((n ≡ 0) × (m.sets ≡ 2)) ⊎ ((n ≡ 1) × (m.sets ≡ 0)))
    × (m.fds ≡ [])
    × (m.maps ≡ [])
    × (m.slots ≡ [])
Balanced m e (End.stopped (Stop.exits n)) = Sound m × (n ≡ 1)
Balanced m e _ = ⊥

or_true : (b : Bool) → (b || true) ≡ true
or_true true = refl
or_true false = refl

first-backed : (x : ℕ × ℕ) (ms : List (ℕ × ℕ)) → any (is_map x) (x ∷ ms) ≡ true
first-backed x ms = rw (==_refl x.0, ==_refl x.1) refl

second-backed : (x y : ℕ × ℕ) → any (is_map x) (y ∷ x ∷ []) ≡ true
second-backed x y = ap (λ b. is_map x y || b) (first-backed x []) ∙ or_true (is_map x y)

-- Slot 0, and then slot 1, lie in mappings of their sizes.
low-backed :
    (low high : ℕ)
    → count
        (not (any (is_map (low, low_mem_size)) ((high, high_mem_size) ∷ (low, low_mem_size) ∷ [])))
        0
      ≡ 0
low-backed low high =
    ap (λ b. count (not b) 0) (second-backed (low, low_mem_size) (high, high_mem_size))

both-backed :
    (low high : ℕ)
    → count
        (not
          (any (is_map (high, high_mem_size)) ((high, high_mem_size) ∷ (low, low_mem_size) ∷ [])))
        (count
          (not
            (any (is_map (low, low_mem_size)) ((high, high_mem_size) ∷ (low, low_mem_size) ∷ [])))
          0)
      ≡ 0
both-backed low high =
    ap
      (λ b. count (not b) (
        count
          (not
            (any (is_map (low, low_mem_size)) ((high, high_mem_size) ∷ (low, low_mem_size) ∷ [])))
          0))
      (first-backed (high, high_mem_size) ((low, low_mem_size) ∷ []))
    ∙ low-backed low high

closed-fds : (a b : ℕ) → without (λ y. b == y) (without (λ y. a == y) (a ∷ b ∷ [])) ≡ []
closed-fds a b = rw (==_refl a, ==_refl b) refl

shape_memory-Balanced :
    (kvm_fd vm_fd e : ℕ)
    → Always step Balanced
        (shape_memory kvm_fd vm_fd)
        (record untouched { fds = vm_fd ∷ kvm_fd ∷ [] })
        e
unfolding shape_memory map_host_memory set_memory_slot remove_memory_slot checked_ioctl
shape_memory-Balanced kvm_fd vm_fd e =
    on_answer _ (λ x. ((refl, refl, refl), refl))
      (λ low.
        on_answer _ (λ x. ((refl, refl, refl), refl))
          (λ high. λ c c'.
            on_answer _ (λ x. ((refl, refl, refl), refl))
              (λ n.
                on_answer _ (λ x. ((refl, low-backed low high, refl), refl))
                  (λ n'.
                    on_answer _ (λ x. ((refl, both-backed low high, refl), refl))
                      (λ n''.
                        on_answer _ (λ x. ((refl, both-backed low high, refl), refl))
                          (λ n3. λ u u' f f'. (
                            (refl, both-backed low high, refl),
                            inl (refl, refl),
                            closed-fds vm_fd kvm_fd,
                            released-maps (high, high_mem_size) (low, low_mem_size),
                            refl,
                          )))))))

-- `main` of kvm_memory_slots.c, whatever the kernel answers: no two slots ever share an address of
-- the guest, each is set over a mapping of its size, and none of them is there when its memory is
-- unmapped. When `main` returns, no file, mapping or slot is left, and it returns 0 after two
-- slots and 1 after none; else it ends with `exit(1)`.
pub main-Balanced : (e : ℕ) → Always step Balanced main untouched e
unfolding main checked_ioctl
main-Balanced e =
    open-then step (λ m ps. refl) Balanced _ untouched e (λ x e'. ((refl, refl, refl), refl))
      (λ fd.
        on_answer _ (λ x. ((refl, refl, refl), refl))
          (λ v. elim (Bool-cases (v != kvm_api_version)) [
            | inl other ↦
                rw (other, Always)
                  (λ closed.
                    rw (==_refl fd) ((refl, refl, refl), inr (refl, refl), refl, refl, refl))
            | inr same ↦
                rw (same, Always)
                  (on_answer _ (λ x. ((refl, refl, refl), refl))
                    (λ n. elim (Bool-cases (ltb n 2)) [
                      | inl few ↦
                          rw (few, Always)
                            (λ closed.
                              rw (==_refl fd)
                                ((refl, refl, refl), inr (refl, refl), refl, refl, refl))
                      | inr enough ↦
                          rw (enough, Always)
                            (on_answer _ (λ x. ((refl, refl, refl), refl))
                              (λ vm. shape_memory-Balanced fd vm e))
                    ]))
          ]))
