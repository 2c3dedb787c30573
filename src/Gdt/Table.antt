-- ===== src/Gdt/Table.antt =====
-- The table of segments that the kernel starts with.
use mini_isolation_lab.Base.{
  ℕ, ◌≤◌, ◌<◌, some, ◌≡◌, refl, false, true, arith, List, [], ◌∷◌, ◌++◌, map, length, ltb, set,
}
use mini_isolation_lab.Machine.{World, ok}
use mini_isolation_lab.Gdt.{
  GdtEntry, gdt_null_entry, gdt_default_table, gdt_default_entries, gdt_code_segment,
  gdt_data_segment, gdt_entry_set, assign,
}
use mini_isolation_lab.Gdt.Layout.{descriptor_bits}

abbrev flat : (access limit_high_flags : ℕ) → GdtEntry
flat access limit_high_flags = record {
  limit_low = 0xffff;
  base_low = 0;
  base_mid = 0;
  access = access;
  limit_high_flags = limit_high_flags;
  base_high = 0;
}

abbrev segments : List GdtEntry
segments = gdt_null_entry ∷ flat 0x9a 0xaf ∷ flat 0x92 0xcf ∷ flat 0xfa 0xaf ∷ flat 0xf2 0xcf ∷ []

assign-set :
    (es : List GdtEntry) (i : ℕ) (e : GdtEntry) (w : World)
    → i < length es
    → assign es i (some e) w ≡ ok (set es i e) w
unfolding assign
assign-set es i e w h = let inside : ltb i (length es) ≡ true = ground arith in rw inside

-- `kx86_gdt_default_table` on an array with room for five entries and a count of at least five:
-- the first five become the null descriptor, the kernel's and the user's code and data segments
-- with privilege levels 0 and 3, and the others stay.
pub gdt_default_table-segments :
    (stale a b c d e : GdtEntry) (rest : List GdtEntry) (count : ℕ) (w : World)
    → gdt_default_entries ≤ count
    → (ts : List GdtEntry) × (gdt_default_table stale (some (a ∷ b ∷ c ∷ d ∷ e ∷ rest)) count w
        ≡ ok (some (ts ++ rest)) w)
      × (map descriptor_bits ts
          ≡ 0 ∷ 0x00af9a000000ffff ∷ 0x00cf92000000ffff ∷ 0x00affa000000ffff ∷ 0x00cff2000000ffff
            ∷ [])
unfolding gdt_default_table gdt_code_segment gdt_data_segment gdt_entry_set
gdt_default_table-segments stale a b c d e rest count w h =
    let enough : ltb count gdt_default_entries ≡ false = ground arith in
    let n = gdt_null_entry in
    let kc = flat 0x9a 0xaf in
    let kd = flat 0x92 0xcf in
    let uc = flat 0xfa 0xaf in
    let ud = flat 0xf2 0xcf in
    let s0 = assign-set (a ∷ b ∷ c ∷ d ∷ e ∷ rest) 0 n w (omega arith) in
    let s1 = assign-set (n ∷ b ∷ c ∷ d ∷ e ∷ rest) 1 kc w (omega arith) in
    let s2 = assign-set (n ∷ kc ∷ c ∷ d ∷ e ∷ rest) 2 kd w (omega arith) in
    let s3 = assign-set (n ∷ kc ∷ kd ∷ d ∷ e ∷ rest) 3 uc w (omega arith) in
    let s4 = assign-set (n ∷ kc ∷ kd ∷ uc ∷ e ∷ rest) 4 ud w (omega arith) in
    (segments, rw (enough, s0, s1, s2, s3, s4), refl)
