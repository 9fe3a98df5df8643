-- ===== src/Mm/Tests.antt =====
-- `memcpy` onto the start of its source, and onto its end.
use hob_os.Base.{ℕ, ◌≤◌, ◌⊎◌, inl, ◌+◌, ◌%◌, ◌<◌, ◌≡◌, refl, arith}
use hob_os.Base.Run.{Run, ok, fault, out_of_fuel, Ends, ◌>>◌}
use hob_os.Mm.Bytes.{Memory, copy_loop, memcpy, memset, memcpy-Copied}

abbrev counting : Memory
counting = λ a. a % 256

memcpy-Copied_example :
    Ends
      (λ _ v.
        ((i : ℕ) → i < 8 → v (0x1000 + i) ≡ (0x1004 + i) % 256)
        × ((a : ℕ) → a < 0x1000 ⊎ 0x1000 + 8 ≤ a → v a ≡ a % 256))
      (memcpy 0x1000 0x1004 8 counting)
    × Ends
        (λ _ v. (i : ℕ) → i < 8 → v (0x1000 + i) ≡ 7)
        ((do memset 0x1004 7 8; memcpy 0x1000 0x1004 8) counting)
memcpy-Copied_example =
    memcpy-Copied 0x1000 0x1004 8 7 counting (omega arith) (omega arith) (omega arith)
      (inl (omega arith))

abbrev byte_at : ℕ → Run Memory (Unit {0}) → ℕ
byte_at a (ok _ v) = v a
byte_at a fault = 256
byte_at a out_of_fuel = 256

-- A target behind the start of its source, and not behind its end
overlap_run : byte_at 0x1003 (memcpy 0x1001 0x1000 3 counting) ≡ 0
unfolding memcpy copy_loop
overlap_run = refl
