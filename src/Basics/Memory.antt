-- ===== src/Basics/Memory.antt =====
-- src/part-02-memory/mmap_memory.c. What is printed of the memory is the text that was copied there.
use mini_isolation_lab.Base.{ℕ, none, [], ◌∷◌, ◌++◌}
use mini_isolation_lab.Base.Words.{minus_one64}
use mini_isolation_lab.Host.{
  Text, lit, text, number, Flag, Call, Answer, done, failed, Prog, ret, ◌>>=◌, ◌>>◌, sys, do_call,
  printf, perror,
}
use mini_isolation_lab.Host.Format.{chars}

abbrev pub heap_text : Text
heap_text = chars "malloc: memory managed by the C allocator"

abbrev pub mapped_text : Text
mapped_text = chars "mmap: memory requested directly from the kernel"

-- `(size_t)sysconf(_SC_PAGESIZE)`, which is not checked.
abbrev pub size_of_page : Answer ℕ → ℕ
size_of_page (done n) = n
size_of_page (failed e) = minus_one64

-- `main` with the block of the C allocator.
unfoldable pub with_heap : ℕ → Prog ℕ
with_heap heap = do
  do_call (Call.memcpy heap (heap_text ++ (0 ∷ [])))
  asked ← sys Call.sysconf_pagesize
  let page_size = size_of_page asked
  got ← sys (
      Call.mmap page_size (Flag.prot_read ∷ Flag.prot_write ∷ [])
        (Flag.map_private ∷ Flag.map_anonymous ∷ []) none)
  elim got [
    | failed e ↦ do perror "mmap"; do_call (Call.free heap); ret 1
    | done mapped ↦ do
      do_call (Call.memcpy mapped (mapped_text ++ (0 ∷ [])))
      printf (text heap_text ∷ lit "\n" ∷ [])
      printf (text mapped_text ∷ lit "\n" ∷ [])
      printf (lit "page size: " ∷ number page_size ∷ lit " bytes\n" ∷ [])
      do_call (Call.munmap mapped page_size)
      do_call (Call.free heap)
      ret 0
  ]

unfoldable pub main : Prog ℕ
main = do
  got ← sys (Call.malloc 64)
  elim got [ failed e ↦ do perror "malloc"; ret 1 | done heap ↦ with_heap heap ]
