-- ===== src/PageTable/Mmu.antt =====
-- What the processor reads from the tables: the translation of an address through three levels, as
-- the architecture has it for pages of 4 KB and addresses of 39 bits. An entry is valid if its two
-- lowest bits are set; the bits 12 to 47 are the address of the next table or of the page.
use hob_os.Base.{
  ℕ, ◌+◌, ◌-◌, ◌*◌, ◌/◌, ◌%◌, ◌^◌, ◌<◌, ◌≡◌, ◌≢◌, ◌∙◌, ◌⊎◌, inl, inr, ap, Bool, true, false, Option,
  some, none, ltb, ◌==◌, if◌then◌else◌, arith, ltb-le, lt→ltb, eq→==, ne→==,
}
use Prim.Native.Nat.{bit_or}
use hob_os.Base.Bits.{bit_or-shift, bit_or-mask, bit_or-zero, zero-bit_or}
use hob_os.PageTable.{kernel_start, va_to_pa, pt_entry, addr_bits, extract_addr_from_pte}

abbrev pub output_address : ℕ → ℕ
output_address e = e / 2 ^ 12 % 2 ^ 36 * 2 ^ 12

abbrev pub is_valid : ℕ → Bool
is_valid e = e % 4 == 3

-- The translation through the physical memory `mem` and the table at `root`.
unfoldable pub translate : (ℕ → ℕ) → ℕ → ℕ → Option ℕ
translate mem root va =
    let e1 : ℕ = mem (root + 8 * (va / 2 ^ 30 % 2 ^ 9)) in
    let e2 : ℕ = mem (output_address e1 + 8 * (va / 2 ^ 21 % 2 ^ 9)) in
    let e3 : ℕ = mem (output_address e2 + 8 * (va / 2 ^ 12 % 2 ^ 9)) in
    if is_valid e1
    then (if is_valid e2
        then (if is_valid e3 then some (output_address e3 + va % 2 ^ 12) else none)
        else none)
    else none

-- Attributes that stand beside an address: a valid entry, and none of the bits 12 to 51 or from 56 on
abbrev pub IsFlags : ℕ → Type 0
IsFlags f = (f % 4 ≡ 3) × (f / 2 ^ 12 % 2 ^ 40 ≡ 0) × (f / 2 ^ 56 ≡ 0)

-- The pages are reached at their physical addresses, or in the kernel's half of the addresses.
abbrev pub IsBase : ℕ → Type 0
IsBase base = (base ≡ 0) ⊎ (base ≡ kernel_start)

-- `p` points to the page of number `m`, below 4 GB and not the first one.
abbrev pub IsPage : ℕ → ℕ → ℕ → Type 0
IsPage base m p = (p ≡ base + 4096 * m) × (m ≢ 0) × (m < 2 ^ 20)

pub va_to_pa-IsPage : (base m p : ℕ) → IsBase base → IsPage base m p → va_to_pa p ≡ 4096 * m
va_to_pa-IsPage base m p (inl z) h = omega (arith, h.0)
va_to_pa-IsPage base m p (inr z) h = omega (arith, h.0)

module _ (m f : ℕ) (flags : IsFlags f) where
  or_shift : bit_or (4096 * m) f / 2 ^ 12 ≡ bit_or m (f / 2 ^ 12)
  or_shift =
      let e : 4096 * m / 2 ^ 12 ≡ m = omega arith in
      bit_or-shift 12 (4096 * m) f ∙ ap (λ x. bit_or x (f / 2 ^ 12)) e

  or_address : m < 2 ^ 36 → bit_or (4096 * m) f / 2 ^ 12 % 2 ^ 40 ≡ m
  or_address h =
      let e : m % 2 ^ 40 ≡ m = omega arith in
      rw (or_shift, bit_or-mask 40 m (f / 2 ^ 12), flags.1, e) (bit_or-zero m)

  or_high : m < 2 ^ 36 → bit_or (4096 * m) f / 2 ^ 56 ≡ 0
  or_high h =
      let e : 4096 * m / 2 ^ 56 ≡ 0 = omega arith in
      rw (bit_or-shift 56 (4096 * m) f, e, flags.2) (bit_or-zero 0)

  or_valid : bit_or (4096 * m) f % 2 ^ 2 ≡ 3
  or_valid =
      let e : 4096 * m % 2 ^ 2 ≡ 0 = omega arith in
      let v : f % 2 ^ 2 ≡ 3 = flags.0 in rw (bit_or-mask 2 (4096 * m) f, e, v) (zero-bit_or 3)

  output_address-or : m < 2 ^ 36 → output_address (bit_or (4096 * m) f) ≡ 4096 * m
  output_address-or h = omega (arith, or_address h)

-- The entry for a page of a table
pub pt_entry-page :
    (base m p f : ℕ) → IsBase base → IsPage base m p → pt_entry p f ≡ bit_or (4096 * m) f
unfolding pt_entry
pt_entry-page base m p f (inl z) h =
    let e : ltb kernel_start p ≡ false = ltb-le kernel_start p (omega (arith, h.0)) in
    let q : p ≡ 4096 * m = omega (arith, h.0) in rw (e, q)
pt_entry-page base m p f (inr z) h =
    let e : ltb kernel_start p ≡ true = lt→ltb kernel_start p (omega (arith, h.0)) in
    let q : p - kernel_start ≡ 4096 * m = omega (arith, h.0) in rw (e, q)

-- What an entry says that points to the page number `m`: to the processor and to the walk
pub record Points (m e : ℕ) : Type 0 where
  pub valid : is_valid e ≡ true
  pub out : output_address e ≡ 4096 * m
  pub extracted : extract_addr_from_pte e ≡ 4096 * m
  pub filled : (e == 0) ≡ false

pub pt_entry-Points :
    (base m p f : ℕ) → IsBase base → IsPage base m p → IsFlags f → Points m (pt_entry p f)
unfolding extract_addr_from_pte
pt_entry-Points base m p f b h flags =
    let hm : m < 2 ^ 36 = omega (arith, h.2) in
    let e = pt_entry-page base m p f b h in
    let bits : addr_bits (bit_or (4096 * m) f) ≡ 4096 * m =
      omega (arith, or_address m f flags hm, or_high m f flags hm) in
    let small : ltb (4096 * m) 0xFFFFFFFF ≡ true =
      lt→ltb (4096 * m) 0xFFFFFFFF (omega (arith, h.2)) in
    rw e (record {
      valid = eq→== _ 3 (or_valid m f flags);
      out = output_address-or m f flags hm;
      extracted = rw (bits, small);
      filled = ne→== _ 0 (omega (arith, or_valid m f flags));
    })

-- The entry for a page at a physical address below 2 ^ 39
pub pt_entry-leaf :
    (m f : ℕ)
    → IsFlags f
    → m < 2 ^ 27
    → (is_valid (pt_entry (4096 * m) f) ≡ true)
      × (output_address (pt_entry (4096 * m) f) ≡ 4096 * m)
unfolding pt_entry
pt_entry-leaf m f flags h =
    rw (ltb-le kernel_start (4096 * m) (omega arith))
      (eq→== _ 3 (or_valid m f flags), output_address-or m f flags (omega arith))
