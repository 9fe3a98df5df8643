-- ===== src/PageTable/Entries.antt =====
-- `create_pt_entries`: entries in a row.
use hob_os.Base.{
  ℕ, zero, suc, ◌+◌, ◌-◌, ◌*◌, ◌/◌, ◌%◌, ◌^◌, ◌<◌, ◌≤◌, ◌≡◌, ◌≢◌, ◌∙◌, ◌⊎◌, inl, inr, refl, ap, ltb,
  update, eq→==, ne→==, arith, Bool-cases,
}
use hob_os.Base.Int.{negsuc}
use hob_os.Base.Run.{ok, Ends, ends, after, weaken}
use hob_os.Task.{Ptr, null}
use hob_os.PageTable.{Paging, pt_entry, place_pt_entry, create_entries_loop, create_pt_entries}
use hob_os.PageTable.Access.{put, put_entry, load_desc-ok, store_desc-ok, store_entry-ok}

-- The words of `w` at the entries from `j` on of the table at `p` are the `n` first of `g`; the others
-- are those of `w0`.
pub record Written (w0 w : ℕ → ℕ) (p j n : ℕ) (g : ℕ → ℕ) : Type 0 where
  pub entries : (i : ℕ) → i < n → w (p + 8 * (j + i)) ≡ g i
  pub others : (a : ℕ) → (a < p + 8 * j) ⊎ (p + 8 * (j + n) ≤ a) → w a ≡ w0 a

module _ (w0 w : ℕ → ℕ) (p j n : ℕ) (g : ℕ → ℕ) where
  abbrev Later : Type 0
  Later = Written (update w0 (p + 8 * j) (g 0)) w p (j + 1) n (λ i. g (suc i))

  entries_step : Later → (i : ℕ) → i < suc n → w (p + 8 * (j + i)) ≡ g i
  entries_step f zero h =
      let a : p + 8 * (j + zero) ≡ p + 8 * j = omega arith in
      rw (a, f.others (p + 8 * j) (inl (omega arith)), eq→== (p + 8 * j) (p + 8 * j) refl) refl
  entries_step f (suc i) h =
      let a : j + suc i ≡ j + 1 + i = omega arith in rw a (f.entries i (omega arith))

  others_step : Later → (a : ℕ) → (a < p + 8 * j) ⊎ (p + 8 * (j + suc n) ≤ a) → w a ≡ w0 a
  others_step f a (inl h) =
      rw (f.others a (inl (omega arith)), ne→== a (p + 8 * j) (omega arith)) refl
  others_step f a (inr h) =
      rw (f.others a (inr (omega arith)), ne→== a (p + 8 * j) (omega arith)) refl

  Written-step : Later → Written w0 w p j (suc n) g
  Written-step f = record { entries = entries_step f; others = others_step f }

Written-none : (w : ℕ → ℕ) (p j : ℕ) (g : ℕ → ℕ) → Written w w p j 0 g
Written-none w p j g = record { entries = λ i h. absurd (omega arith); others = λ a h. refl }

-- The entry for the page number `i` behind `start`
abbrev pub entry_from : ℕ → ℕ → ℕ → ℕ
entry_from start flags i = pt_entry (start + 4096 * i) flags

-- A descriptor with a table and `l` entries
abbrev HasRoom : Paging → Ptr → ℕ → ℕ → Type 0
HasRoom s d p l = (d ≢ null) × (p ≢ null) × ((s.desc d).pt ≡ p) × ((s.desc d).pt_len ≡ l)

-- What `n` calls of `place_pt_entry` leave.
pub record Appended (s : Paging) (d p l n : ℕ) (g : ℕ → ℕ) (v : Paging) : Type 0 where
  pub written : Written s.word v.word p l n g
  pub length : (v.desc d).pt_len ≡ l + n
  pub table : (v.desc d).pt ≡ p

module _ (s : Paging) (d p l e : ℕ) (room : HasRoom s d p l) (small : l < 512) where
  abbrev placed : Paging
  placed = put_entry (put s d (record (s.desc d) { pt_len = (l + 1) % 2 ^ 16; pt = p })) p l e

  place_next : place_pt_entry d e (negsuc 0) s ≡ ok tt placed
  unfolding place_pt_entry
  place_next =
      let t : Paging = put s d (record (s.desc d) { pt_len = (l + 1) % 2 ^ 16; pt = p }) in
      rw (
        load_desc-ok s d room.0,
        room.3,
        room.2,
        store_desc-ok s d (record (s.desc d) { pt_len = (l + 1) % 2 ^ 16; pt = p }) room.0,
        store_entry-ok t p l e room.1 small,
      )

  placed-HasRoom : HasRoom placed d p (l + 1)
  placed-HasRoom = (room.0, room.1, ground arith, ground arith)

Appended-none : (s : Paging) (d p l : ℕ) (g : ℕ → ℕ) → HasRoom s d p l → Appended s d p l 0 g s
Appended-none s d p l g room = record {
  written = Written-none s.word p l g;
  length = room.3 ∙ omega arith;
  table = room.2;
}

-- One entry, and then the next ones
Appended-step :
    (s : Paging) (d p l start flags n : ℕ) (room : HasRoom s d p l) (small : l < 512) (v : Paging)
    → Appended
        (placed s d p l (pt_entry start flags) room small)
        d
        p
        (l + 1)
        n
        (entry_from (start + 4096) flags)
        v
    → Appended s d p l (suc n) (entry_from start flags) v
Appended-step s d p l start flags n room small v f =
    let first : start ≡ start + 4096 * 0 = omega arith in
    let later : (i : ℕ) → start + 4096 + 4096 * i ≡ start + 4096 * suc i = λ i. omega arith in
    record {
      written = Written-step s.word v.word p l n (entry_from start flags) (record {
        entries = λ i h. f.written.entries i h ∙ ap (λ x. pt_entry x flags) (later i);
        others = λ a h.
            f.written.others a h ∙ ap (λ x. update s.word (p + 8 * l) (pt_entry x flags) a) first;
      });
      length = f.length ∙ omega arith;
      table = f.table;
    }

create_entries_loop-Appended :
    (n : ℕ) (s : Paging) (d p l start flags : ℕ)
    → HasRoom s d p l
    → l + n ≤ 512
    → Ends
        (λ _ v. Appended s d p l n (entry_from start flags) v)
        (create_entries_loop n d flags start s)
unfolding create_entries_loop
create_entries_loop-Appended zero s d p l start flags room small =
    ends (Appended-none s d p l (entry_from start flags) room)
create_entries_loop-Appended (suc n) s d p l start flags room small =
    let inside : l < 512 = omega arith in
    let e = pt_entry start flags in
    rw (place_next s d p l e room inside) (
      weaken
        (create_entries_loop-Appended n (placed s d p l e room inside) d p (l + 1) (start + 4096)
          flags (placed-HasRoom s d p l e room inside) (omega arith))
        λ _ v f. Appended-step s d p l start flags n room inside v f)

-- The descriptor `d` has the table `p` with `l` entries, and room for those of the pages from `start`
-- to `end_paddr`, which is not before `start` and is below 2 ^ 64 - 4096. Then `create_pt_entries` ends and returns where the
-- first one stands; it has appended one entry for each page in order, all of them inside the table,
-- and changed no other word.
pub create_pt_entries-Appended :
    (s : Paging) (d p l start end_paddr flags : ℕ)
    → (d ≢ null) × (p ≢ null) × ((s.desc d).pt ≡ p) × ((s.desc d).pt_len ≡ l)
    → start ≤ end_paddr
    → end_paddr < 2 ^ 64 - 4096
    → l + (end_paddr - start) / 4096 < 512
    → Ends
        (λ r v.
          (r ≡ p + 8 * l)
          × Appended s d p l (suc ((end_paddr - start) / 4096)) (entry_from start flags) v)
        (create_pt_entries d start end_paddr flags s)
unfolding create_pt_entries
create_pt_entries-Appended s d p l start end_paddr flags room order small fit =
    let inside : l < 512 = omega arith in
    let e = pt_entry start flags in
    let t = placed s d p l e room inside in
    let next = placed-HasRoom s d p l e room inside in
    let span : (end_paddr + 2 ^ 64 - start) % 2 ^ 64 ≡ end_paddr - start = omega arith in
    rw (load_desc-ok s d room.0, place_next s d p l e room inside, span, room.2, room.3)
      (elim (Bool-cases (ltb (end_paddr - start) 4096)) [
        | inl near ↦
            let one : (end_paddr - start) / 4096 ≡ 0 = ground (arith, near) in
            rw (near, one)
              (ends {s = t} (
                refl,
                Appended-step s d p l start flags 0 room inside t
                    (Appended-none t d p (l + 1) (entry_from (start + 4096) flags) next),
              ))
        | inr far ↦
            let apart : start ≢ end_paddr = ground (arith, far) in
            rw (far, ne→== start end_paddr apart)
              (after
                (create_entries_loop-Appended ((end_paddr - start) / 4096) t d p (l + 1)
                  (start + 4096) flags next (omega arith))
                λ _ v f. ends (
                  refl,
                  Appended-step s d p l start flags ((end_paddr - start) / 4096) room inside v f,
                ))
      ])
