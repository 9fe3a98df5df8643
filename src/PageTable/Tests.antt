-- ===== src/PageTable/Tests.antt =====
-- The theorems at a table of the first level with two free pages, and at three tables.
use hob_os.Base.{ℕ, ◌+◌, ◌^◌, ◌≡◌, ◌≢◌, refl, arith, false}
use hob_os.Base.Run.{Ends}
use hob_os.PageTable.{Paging, pt_entry, create_pt_entries}
use hob_os.PageTable.Access.{put_entry}
use hob_os.PageTable.Entries.{Appended, entry_from, create_pt_entries-Appended}
use hob_os.PageTable.Fresh.{map-Fresh}
use hob_os.PageTable.Map.{Maps}
use hob_os.PageTable.Mapping.{Route, Route-put, map-Route}
use hob_os.PageTable.Attr.{va_set_attr-Maps}
use hob_os.PageTable.Sample.{one_table, three_tables, one_table-Fresh, three_tables-Route}
use hob_os.PageTable.Walk.{map_pa_to_va_pg, va_set_attr}

map-Fresh_example :
    Ends
      (λ r v.
        (r ≡ 0x40201000)
        × Maps 0 v 0x5000 0x40201000 0x7000
        × Route 5 0 v 0x5000 0x40201000 0x5020 0x5040 1 4 3
        × ((a : ℕ) → a ≢ 0x1008 → a ≢ 0x4008 → a ≢ 0x3008 → v.word a ≡ 0))
      (map_pa_to_va_pg 0 5 9 0x7000 0x40201000 0x5000 0 false one_table)
map-Fresh_example = map-Fresh 0 5 9 0 7 0 one_table-Fresh refl (omega arith) (refl, refl, refl)

map-Route_example :
    Ends
      (λ r v.
        (r ≡ 0x40201000)
        × (v ≡ put_entry three_tables 0x3000 1 (pt_entry 0x7000 0x703))
        × Maps 0 v 0x5000 0x40201000 0x7000
        × Route 5 0 v 0x5000 0x40201000 0x5020 0x5040 1 4 3)
      (map_pa_to_va_pg 0 5 9 0x7000 0x40201000 0x5000 0x703 false three_tables)
map-Route_example =
    map-Route 0 5 9 0 7 0x703 three_tables-Route refl (omega arith) (refl, refl, refl)

-- The entry of the page has been written.
abbrev three_tables_mapped : Paging
three_tables_mapped = put_entry three_tables 0x3000 1 0x7703

three_tables_mapped-Route : Route 5 0 three_tables_mapped 0x5000 0x40201000 0x5020 0x5040 1 4 3
three_tables_mapped-Route = Route-put 5 0 three_tables-Route 0x7703

va_set_attr-Maps_example :
    Ends
      (λ _ v.
        (v ≡ put_entry three_tables_mapped 0x3000 1 (0x7703 + 2 ^ 53))
        × Maps 0 v 0x5000 0x40201000 0x7000
        × Route 5 0 v 0x5000 0x40201000 0x5020 0x5040 1 4 3)
      (va_set_attr 0 5 9 0x40201000 0x5000 (2 ^ 53) three_tables_mapped)
va_set_attr-Maps_example = va_set_attr-Maps 0 5 9 0 (2 ^ 53) three_tables_mapped-Route refl refl

create_pt_entries-Appended_example :
    Ends
      (λ r v. (r ≡ 0x4000) × Appended three_tables 0x5020 0x4000 0 4 (entry_from 0x8000 0x703) v)
      (create_pt_entries 0x5020 0x8000 0xb000 0x703 three_tables)
create_pt_entries-Appended_example =
    create_pt_entries-Appended three_tables 0x5020 0x4000 0 0x8000 0xb000 0x703
      (omega arith, omega arith, refl, refl) (omega arith) (omega arith) (omega arith)
