-- ===== src/Gdt.antt =====
-- mini-kernel/kernel/arch/x86_64/gdt.c and the part of mini-kernel/kernel/include/kernel/arch.h about
-- segments. A mask with 2 ^ k - 1 is `% 2 ^ k`, a shift is `* 2 ^ k` or `/ 2 ^ k`.
pub mod Layout
pub mod Table
use mini_isolation_lab.Base.{
  ℕ, ◌+◌, ◌-◌, ◌*◌, ◌/◌, ◌%◌, ◌^◌, bit_or, Bool, Option, none, some, List, length, set, ltb, ◌==◌,
  ◌||◌, if◌then◌else◌,
}
use mini_isolation_lab.Base.Words.{u8, u16, u32}
use mini_isolation_lab.Machine.{Addr, Cmd, pure, ◌>>=◌, must}

abbrev pub gdt_default_entries : ℕ
gdt_default_entries = 5

abbrev pub index_null : ℕ
index_null = 0

abbrev pub index_kernel_code : ℕ
index_kernel_code = 1

abbrev pub index_kernel_data : ℕ
index_kernel_data = 2

abbrev pub index_user_code : ℕ
index_user_code = 3

abbrev pub index_user_data : ℕ
index_user_data = 4

abbrev pub selector_kernel_code : ℕ
selector_kernel_code = index_kernel_code * 2 ^ 3

abbrev pub selector_kernel_data : ℕ
selector_kernel_data = index_kernel_data * 2 ^ 3

abbrev pub selector_user_code : ℕ
selector_user_code = bit_or (index_user_code * 2 ^ 3) 0x03

abbrev pub selector_user_data : ℕ
selector_user_data = bit_or (index_user_data * 2 ^ 3) 0x03

abbrev access_read_write : ℕ
access_read_write = 0x02

abbrev access_executable : ℕ
access_executable = 0x08

abbrev access_descriptor : ℕ
access_descriptor = 0x10

abbrev access_present : ℕ
access_present = 0x80

abbrev flag_long_mode : ℕ
flag_long_mode = 0x02

abbrev flag_32bit : ℕ
flag_32bit = 0x04

abbrev flag_granularity_4k : ℕ
flag_granularity_4k = 0x08

-- `struct kx86_gdt_entry`.
pub record GdtEntry : Type 0 where
  pub limit_low : ℕ
  pub base_low : ℕ
  pub base_mid : ℕ
  pub access : ℕ
  pub limit_high_flags : ℕ
  pub base_high : ℕ

abbrev pub sizeof_gdt_entry : ℕ
sizeof_gdt_entry = 8

-- `struct kx86_gdtr`.
pub record Gdtr : Type 0 where
  pub limit : ℕ
  pub base : ℕ

abbrev pub gdt_ring_bits : ℕ → ℕ
gdt_ring_bits dpl = u8 ((dpl % 2 ^ 2) * 2 ^ 5)

unfoldable pub gdt_entry_set : Option GdtEntry → (base limit access flags : ℕ) → Option GdtEntry
gdt_entry_set none base limit access flags = none
gdt_entry_set (some entry) base limit access flags = some (record entry {
  limit_low = u16 (limit % 2 ^ 16);
  base_low = u16 (base % 2 ^ 16);
  base_mid = u8 ((base / 2 ^ 16) % 2 ^ 8);
  access = access;
  limit_high_flags = u8 (bit_or ((limit / 2 ^ 16) % 2 ^ 4) ((flags % 2 ^ 4) * 2 ^ 4));
  base_high = u8 ((base / 2 ^ 24) % 2 ^ 8);
})

abbrev pub gdt_null_entry : GdtEntry
gdt_null_entry = record {
  limit_low = 0;
  base_low = 0;
  base_mid = 0;
  access = 0;
  limit_high_flags = 0;
  base_high = 0;
}

-- The local `entry` of the source is not initialised: its old value is a parameter.
unfoldable pub gdt_code_segment : GdtEntry → (dpl : ℕ) → Option GdtEntry
gdt_code_segment entry dpl =
    let access = u8 (
      bit_or
        (bit_or (bit_or (bit_or access_present (gdt_ring_bits dpl)) access_descriptor)
          access_executable)
        access_read_write) in
    let flags = u8 (bit_or flag_granularity_4k flag_long_mode) in
    gdt_entry_set (some entry) 0 0x000fffff access flags

unfoldable pub gdt_data_segment : GdtEntry → (dpl : ℕ) → Option GdtEntry
gdt_data_segment entry dpl =
    let access = u8 (
      bit_or (bit_or (bit_or access_present (gdt_ring_bits dpl)) access_descriptor)
        access_read_write) in
    let flags = u8 (bit_or flag_granularity_4k flag_32bit) in
    gdt_entry_set (some entry) 0 0x000fffff access flags

-- `entries[i] = entry`, a fault when the array is shorter or there is no entry.
unfoldable pub assign : List GdtEntry → ℕ → Option GdtEntry → Cmd (List GdtEntry)
assign entries i none = must none
assign entries i (some entry) =
    must (if ltb i (length entries) then some (set entries i entry) else none)

-- `stale` is what an uninitialised local holds.
unfoldable pub gdt_default_table :
    GdtEntry → Option (List GdtEntry) → ℕ → Cmd (Option (List GdtEntry))
gdt_default_table stale none count = pure none
gdt_default_table stale (some entries) count =
    if ltb count gdt_default_entries then pure (some entries) else (do
      e0 ← assign entries index_null (some gdt_null_entry)
      e1 ← assign e0 index_kernel_code (gdt_code_segment stale 0)
      e2 ← assign e1 index_kernel_data (gdt_data_segment stale 0)
      e3 ← assign e2 index_user_code (gdt_code_segment stale 3)
      e4 ← assign e3 index_user_data (gdt_data_segment stale 3)
      pure (some e4))

-- `entries` is the array's address.
unfoldable pub gdtr_make : (entries : Addr) → (count : ℕ) → Gdtr
gdtr_make entries count =
    if (entries == 0) || (count == 0)
    then record { limit = 0; base = 0 }
    else record { limit = u16 (count * sizeof_gdt_entry - 1); base = entries }
