-- ===== src/Gdt/Layout.antt =====
-- The segment descriptors that gdt.c packs, read back the way a processor reads them.
use mini_isolation_lab.Base.{
  ℕ, ◌+◌, ◌*◌, ◌/◌, ◌%◌, ◌^◌, ◌≤◌, ◌<◌, some, ◌≡◌, refl, true, arith, ◌==◌, ==_iff, bit_or,
}
use mini_isolation_lab.Base.Words.{u32}
use mini_isolation_lab.Base.Bits.{tested, tested_lem, bit_or_nibbles}
use mini_isolation_lab.Machine.{Addr}
use mini_isolation_lab.Gdt.{
  GdtEntry, gdt_entry_set, gdt_code_segment, gdt_data_segment, gdtr_make, sizeof_gdt_entry,
}

-- The base, the limit and the flags of an entry.
abbrev pub base_of : GdtEntry → ℕ
base_of e = e.base_low + e.base_mid * 2 ^ 16 + e.base_high * 2 ^ 24

abbrev pub limit_of : GdtEntry → ℕ
limit_of e = e.limit_low + (e.limit_high_flags % 16) * 2 ^ 16

abbrev pub flags_of : GdtEntry → ℕ
flags_of e = e.limit_high_flags / 16

-- The 64 bits of an entry.
abbrev pub descriptor_bits : GdtEntry → ℕ
descriptor_bits e =
    e.limit_low
    + e.base_low * 2 ^ 16
    + e.base_mid * 2 ^ 32
    + e.access * 2 ^ 40
    + e.limit_high_flags * 2 ^ 48
    + e.base_high * 2 ^ 56

-- An entry set by `kx86_gdt_entry_set` is read back: the base as a 32-bit word, the low 20 bits of
-- the limit, the low 4 bits of the flags, and the access byte, whatever the entry held before.
pub gdt_entry_set-decodes :
    (old : GdtEntry) (base limit access flags : ℕ)
    → (e : GdtEntry) × (gdt_entry_set (some old) base limit access flags ≡ some e)
      × (base_of e ≡ u32 base)
      × (limit_of e ≡ limit % 2 ^ 20)
      × (flags_of e ≡ flags % 2 ^ 4)
      × (e.access ≡ access)
unfolding gdt_entry_set
gdt_entry_set-decodes old base limit access flags =
    let packed =
      bit_or_nibbles ((limit / 2 ^ 16) % 2 ^ 4) (flags % 2 ^ 4) (omega arith) (omega arith) in
    (_, refl, omega arith, omega (arith, packed), omega (arith, packed), refl)

code_table :
    tested
      (λ d.
        (bit_or (bit_or (bit_or (bit_or 0x80 (d * 2 ^ 5 % 2 ^ 8)) 0x10) 0x08) 0x02 % 2 ^ 8)
        == 0x9a + d * 2 ^ 5)
      4
      0
    ≡ true
unfolding tested
code_table = refl

data_table :
    tested
      (λ d.
        (bit_or (bit_or (bit_or 0x80 (d * 2 ^ 5 % 2 ^ 8)) 0x10) 0x02 % 2 ^ 8) == 0x92 + d * 2 ^ 5)
      4
      0
    ≡ true
unfolding tested
data_table = refl

-- A code segment for a privilege level, taken in two bits, is the flat 64-bit one of 4 GiB,
-- present, executable and readable, with the level in bits 45 and 46, whatever the uninitialised
-- entry held.
pub gdt_code_segment-bits :
    (stale : GdtEntry) (dpl : ℕ)
    → (e : GdtEntry) × (gdt_code_segment stale dpl ≡ some e)
      × (descriptor_bits e ≡ 0x00af9a000000ffff + (dpl % 2 ^ 2) * 2 ^ 45)
unfolding gdt_code_segment gdt_entry_set
gdt_code_segment-bits stale dpl =
    let access =
      (==_iff _ _).0 (tested_lem _ 4 0 (dpl % 2 ^ 2) code_table (omega arith) (omega arith)) in
    (_, refl, omega (arith, access))

-- A data segment for a privilege level, taken in two bits, is the flat one of 4 GiB, present and
-- writable, with the level in bits 45 and 46, whatever the uninitialised entry held.
pub gdt_data_segment-bits :
    (stale : GdtEntry) (dpl : ℕ)
    → (e : GdtEntry) × (gdt_data_segment stale dpl ≡ some e)
      × (descriptor_bits e ≡ 0x00cf92000000ffff + (dpl % 2 ^ 2) * 2 ^ 45)
unfolding gdt_data_segment gdt_entry_set
gdt_data_segment-bits stale dpl =
    let access =
      (==_iff _ _).0 (tested_lem _ 4 0 (dpl % 2 ^ 2) data_table (omega arith) (omega arith)) in
    (_, refl, omega (arith, access))

-- The register value for a segment table at an address other than null with 1 to 8192 entries: the
-- limit is the offset of the table's last byte, and the base is the address.
pub gdtr_make-covers :
    (entries : Addr) (count : ℕ)
    → 0 < entries
    → 0 < count
    → count ≤ 8192
    → ((gdtr_make entries count).limit + 1 ≡ count * sizeof_gdt_entry)
      × ((gdtr_make entries count).base ≡ entries)
unfolding gdtr_make
gdtr_make-covers entries count he hc hm = (ground arith, ground arith)
