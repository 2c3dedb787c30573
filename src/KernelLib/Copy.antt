-- ===== src/KernelLib/Copy.antt =====
-- What `kmemset`, `kmemcpy` and `kmemcpy_checked` leave in memory.
use mini_isolation_lab.Base.{
  ℕ, zero, suc, ◌+◌, ◌≡◌, ◌≢◌, refl, ap, true, arith, replicate, is_some, ltb, ==_refl, false, ◌≤◌,
  ◌<◌, ◌∙◌,
}
use mini_isolation_lab.Base.Words.{u8}
use mini_isolation_lab.Machine.{Addr, Mem, null, World, with_mem, update, ok, load, store}
use mini_isolation_lab.Machine.Memory.{
  Room, Apart, byte_at, peek, overlay, byte_at_of_mapped, peek_frame,
}
use mini_isolation_lab.KernelLib.{set_loop, kmemset, copy_loop, kmemcpy, kmemcpy_checked}

-- An access at a mapped address succeeds.
pub load-mapped :
    (p : Addr) (w : World) → is_some (w.mem p) ≡ true → load p w ≡ ok (byte_at w.mem p) w
unfolding load
load-mapped p w h = ground (arith, byte_at_of_mapped w.mem p h)

pub store-mapped :
    (p v : Addr) (w : World)
    → is_some (w.mem p) ≡ true
    → store p v w ≡ ok tt (with_mem w (update w.mem p v))
unfolding store
store-mapped p v w h = ground (arith, byte_at_of_mapped w.mem p h)

update-Room : (m : Mem) (p v q n : ℕ) → is_some (m p) ≡ true → Room m q n → Room (update m p v) q n
update-Room m p v q n h room a l u = ground (arith, room a l u)

set_loop-overlay :
    (n : ℕ) (out value i : ℕ) (d : Addr) (w : World)
    → out + i ≡ d
    → Room w.mem d n
    → set_loop n out value i w ≡ ok tt (with_mem w (overlay w.mem d (replicate n (u8 value))))
unfolding set_loop overlay
set_loop-overlay zero out value i d w e room = refl
set_loop-overlay (suc n) out value i d w e room =
    let here = room d (omega arith) (omega arith) in
    rw (e, store-mapped d (u8 value) w here)
      (set_loop-overlay n out value (i + 1) (suc d) (with_mem w (update w.mem d (u8 value)))
        (omega arith)
        (update-Room w.mem d (u8 value) (suc d) n here
          (λ a l u. room a (omega arith) (omega arith))))

pub copy_loop-overlay :
    (n : ℕ) (out in_ i : ℕ) (d s : Addr) (w : World)
    → out + i ≡ d
    → in_ + i ≡ s
    → Room w.mem d n
    → Room w.mem s n
    → Apart d n s n
    → copy_loop n out in_ i w ≡ ok tt (with_mem w (overlay w.mem d (peek w.mem s n)))
unfolding copy_loop overlay peek
copy_loop-overlay zero out in_ i d s w e e' room room' apart = refl
copy_loop-overlay (suc n) out in_ i d s w e e' room room' apart =
    let here = room d (omega arith) (omega arith) in
    let there = room' s (omega arith) (omega arith) in
    let b = byte_at w.mem s in
    rw (e, e', load-mapped s w there, store-mapped d b w here)
      (copy_loop-overlay n out in_ (i + 1) (suc d) (suc s) (with_mem w (update w.mem d b))
          (omega arith) (omega arith)
          (update-Room w.mem d b (suc d) n here (λ a l u. room a (omega arith) (omega arith)))
          (update-Room w.mem d b (suc s) n here (λ a l u. room' a (omega arith) (omega arith)))
          (λ a l u. omega (arith, apart a (omega arith) (omega arith)))
        ∙ ap (λ bs. ok tt (with_mem w (overlay (update w.mem d b) (suc d) bs)))
            (peek_frame w.mem (update w.mem d b) (suc s) n
              (λ a l u. ground (arith, apart d (omega arith) (omega arith)))))

-- `kmemset` fills a mapped region other than null with the low byte of its value, and changes
-- nothing else.
pub kmemset-overlay :
    (dst value len : ℕ) (w : World)
    → dst ≢ null
    → Room w.mem dst len
    → kmemset dst value len w ≡ ok dst (with_mem w (overlay w.mem dst (replicate len (u8 value))))
unfolding kmemset
kmemset-overlay dst value len w ne room =
    ground (arith, set_loop-overlay len dst value 0 dst w (omega arith) room)

-- `kmemcpy` between regions that share no address.
pub kmemcpy-overlay :
    (dst src len : ℕ) (w : World)
    → dst ≢ null
    → src ≢ null
    → Room w.mem dst len
    → Room w.mem src len
    → Apart dst len src len
    → kmemcpy dst src len w ≡ ok dst (with_mem w (overlay w.mem dst (peek w.mem src len)))
unfolding kmemcpy overlay peek
kmemcpy-overlay dst src zero w ne ne' room room' apart = refl
kmemcpy-overlay dst src (suc n) w ne ne' room room' apart = ground (
  arith,
  copy_loop-overlay (suc n) dst src 0 dst src w (omega arith) (omega arith) room room' apart,
)

-- `kmemcpy_checked` refuses a source larger than its destination, with nothing copied.
pub kmemcpy_checked-false :
    (dst dst_len src src_len : ℕ) (w : World)
    → dst_len < src_len
    → kmemcpy_checked dst dst_len src src_len w ≡ ok false w
unfolding kmemcpy_checked
kmemcpy_checked-false dst dst_len src src_len w h = ground arith

-- `kmemcpy_checked` of a source no larger than its destination copies the source and says so,
-- between mapped regions that share no address and are not null.
pub kmemcpy_checked-overlay :
    (dst dst_len src src_len : ℕ) (w : World)
    → src_len ≤ dst_len
    → dst ≢ null
    → src ≢ null
    → Room w.mem dst src_len
    → Room w.mem src src_len
    → Apart dst src_len src src_len
    → kmemcpy_checked dst dst_len src src_len w
      ≡ ok true (with_mem w (overlay w.mem dst (peek w.mem src src_len)))
unfolding kmemcpy_checked
kmemcpy_checked-overlay dst dst_len src src_len w fits ne ne' room room' apart =
    let copied = kmemcpy-overlay dst src src_len w ne ne' room room' apart in
    let small : ltb dst_len src_len ≡ false = ground arith in rw (small, copied, ==_refl dst)
