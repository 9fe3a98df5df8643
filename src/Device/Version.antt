-- ===== src/Device/Version.antt =====
-- The model of the board that `mmio_init` finds.
use hob_os.Base.{ℕ, ◌/◌, ==→eq, ==→ne, ◌%◌, ◌^◌, ◌≡◌, ◌≢◌, ◌⊎◌, inl, inr, refl, ◌==◌, Bool-cases}
use hob_os.Base.Run.{Ends, ends}
use hob_os.Device.{Device, get_rpi_version, mmio_init}

-- The part number in `midr_el1`
abbrev pub part_of : ℕ → ℕ
part_of reg = reg / 2 ^ 4 % 2 ^ 12

-- Whatever `midr_el1` holds, `mmio_init` ends and writes no register. A part number 0xB76, 0xC07,
-- 0xD03 or 0xD08 gives the version 1, 2, 3 or 4; every other one, and so 0xD0B of the fifth board,
-- gives the version 0. The base is 0x3f000000 for version 3, 0xfe000000 for version 4 and
-- 0x20000000 for the others.
pub mmio_init-base :
    (reg : ℕ) (s : Device)
    → Ends
        (λ _ v.
          (((part_of reg ≡ 0xB76) × (v.rpi_version ≡ 1) × (v.mmio_base ≡ 0x20000000))
            ⊎ (((part_of reg ≡ 0xC07) × (v.rpi_version ≡ 2) × (v.mmio_base ≡ 0x20000000))
                ⊎ (((part_of reg ≡ 0xD03) × (v.rpi_version ≡ 3) × (v.mmio_base ≡ 0x3f000000))
                    ⊎ (((part_of reg ≡ 0xD08) × (v.rpi_version ≡ 4) × (v.mmio_base ≡ 0xfe000000))
                        ⊎ ((part_of reg ≢ 0xB76)
                            × (part_of reg ≢ 0xC07)
                            × (part_of reg ≢ 0xD03)
                            × (part_of reg ≢ 0xD08)
                            × (v.rpi_version ≡ 0)
                            × (v.mmio_base ≡ 0x20000000))))))
          × (v.written ≡ s.written))
        (mmio_init reg s)
unfolding mmio_init get_rpi_version
mmio_init-base reg s =
    let part = reg / 2 ^ 4 % 2 ^ 12 in
    elim (Bool-cases (part == 0xB76)) [
      | inl a ↦ rw a (ends (inl (==→eq part 0xB76 a, refl, refl), refl))
      | inr a ↦ elim (Bool-cases (part == 0xC07)) [
        | inl b ↦ rw (a, b) (ends (inr (inl (==→eq part 0xC07 b, refl, refl)), refl))
        | inr b ↦ elim (Bool-cases (part == 0xD03)) [
          | inl c ↦ rw (a, b, c) (ends (inr (inr (inl (==→eq part 0xD03 c, refl, refl))), refl))
          | inr c ↦ elim (Bool-cases (part == 0xD08)) [
            | inl d ↦
                rw (a, b, c, d)
                  (ends (inr (inr (inr (inl (==→eq part 0xD08 d, refl, refl)))), refl))
            | inr d ↦
                let others : (part ≢ 0xB76) × (part ≢ 0xC07) × (part ≢ 0xD03) × (part ≢ 0xD08) = (
                  ==→ne part 0xB76 a,
                  ==→ne part 0xC07 b,
                  ==→ne part 0xD03 c,
                  ==→ne part 0xD08 d,
                ) in
                elim (Bool-cases (part == 0xD0B)) [
                  | inl e ↦
                      rw (a, b, c, d, e)
                        (ends (
                          inr (
                              inr (inr (inr (others.0, others.1, others.2, others.3, refl, refl)))),
                          refl,
                        ))
                  | inr e ↦
                      rw (a, b, c, d, e)
                        (ends (
                          inr (
                              inr (inr (inr (others.0, others.1, others.2, others.3, refl, refl)))),
                          refl,
                        ))
                ]
          ]
        ]
      ]
    ]
