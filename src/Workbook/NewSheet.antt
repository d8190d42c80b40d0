-- ===== src/Workbook/NewSheet.antt =====
-- NewSheet (sheet.go) with a fresh name.
use excelize.Adjust.Links.{Relationship}
use excelize.Common.{
  ℕ, suc, ◌≤◌, ◌<◌, ◌≡◌, refl, sym, ap, ◌∙◌, true, false, not, none, some, [], ◌∷◌, ◌++◌, arith,
  if◌then◌else◌, length, Bytes, str_eq, str_eq_refl, ◌>>=◌, ok,
}
use excelize.Common.Dict.{lookup, insert, lookup-insert}
use excelize.Common.Int.{max_int, ◌+ℤ◌, eqb_ℤ, pos}
use excelize.Workbook.Create.{
  max_sheet_id, set_content_types, new_part, set_sheet, max_rel_id, work_sheet_relationship,
  rel_name, add_xlsx_workbook_rels, set_workbook, set_app_xml, append_sheet, new_sheet,
}
use excelize.Workbook.Data.{SheetEntry, Parser, File}
use excelize.Workbook.Delete.{delete_sheet}
use excelize.Workbook.Fresh.{set_active_sheet-IsOpen, delete_sheet-none}
use excelize.Workbook.Ids.{largest_id, DistinctIds, max_sheet_id-largest, DistinctIds-append}
use excelize.Workbook.Invariant.{
  AllEntries, DistinctNames, IsBook, HasNumbers-AllEntries, EntriesOpen-AllEntries, index_loop-none,
  index_loop-last, AllEntries-active, AllEntries-append, DistinctNames-append,
}
use excelize.Workbook.Lookup.{find_rel, index_or, index_loop, get_sheet_index, get_sheet_map}
use excelize.Workbook.Names.{trim_sheet_name, sheet_path, sheet_target, target_index}
use excelize.Workbook.Reader.{save_file_list}
use excelize.Workbook.RelIds.{find_rel-fresh, find_rel-last}
use excelize.Workbook.Rename.{has_name}
use excelize.Workbook.Targets.{target_index-sheet_target}
use excelize.Workbook.Trim.{IsName, trim_id}

next_pos_of : (k : ℕ) → k < max_int → pos k +ℤ pos 1 ≡ pos (suc k)
unfolding ◌+ℤ◌
next_pos_of k h = ground arith

-- An entry, a relationship and a worksheet that are appended under a fresh name.
appended-IsBook :
    (name : Bytes) (f : File) (n : ℕ) (e : SheetEntry) (r : Relationship)
    → IsBook f
    → IsName name
    → has_name name f.entries ≡ false
    → n ≤ max_int
    → e.name ≡ name
    → e.sheet_id ≡ pos n
    → r.id ≡ e.id
    → r.target ≡ sheet_target (pos n)
    → find_rel e.id f.book_rels ≡ none
    → largest_id f.entries < n
    → AllEntries
        (insert name (sheet_path (pos n)) f.sheet_map)
        (insert (sheet_path (pos n)) new_part f.sheets)
        (f.book_rels ++ r ∷ [])
        (f.entries ++ e ∷ [])
      × DistinctNames (f.entries ++ e ∷ [])
      × DistinctIds (f.entries ++ e ∷ [])
      × index_loop (f.entries ++ e ∷ []) (f.book_rels ++ r ∷ []) name ≡ pos n
unfolding index_loop
appended-IsBook name f n e r (all, distinct, ids) hn fresh le en ei ri rt none_yet above =
    let path = sheet_path (pos n) in
    let found = find_rel-last e.id f.book_rels r none_yet ri in
    let named : str_eq e.name name ≡ true = ap (λ s. str_eq s name) en ∙ str_eq_refl name in
    (
      AllEntries-append f.sheet_map f.sheets f.book_rels f.entries name path new_part r e fresh all
          (record {
            number = n;
            rel = r;
            part = new_part;
            numbered = ei;
            bounded = le;
            related = found;
            target = rt;
            own_name = ap trim_sheet_name en ∙ trim_id name hn ∙ sym en;
            mapped =
                lookup-insert e.name name path f.sheet_map
                ∙ ap (λ t. if t then some path else lookup e.name f.sheet_map)
                    (ap (str_eq name) en ∙ str_eq_refl name);
            read =
                lookup-insert path path new_part f.sheets
                ∙ ap (λ t. if t then some new_part else lookup path f.sheets) (str_eq_refl path);
          }),
      DistinctNames-append f.entries e (ap (λ s. has_name s f.entries) en ∙ fresh) distinct,
      DistinctIds-append f.entries e n ei above
          (HasNumbers-AllEntries f.sheet_map f.sheets f.book_rels f.entries all) ids,
      index_loop-last f.entries e (f.book_rels ++ r ∷ []) name fresh
          ∙ ap (λ t. if t then index_or (find_rel e.id (f.book_rels ++ r ∷ [])) (pos 0) else pos 0)
              named
          ∙ ap (λ o. index_or o (pos 0)) found
          ∙ ap target_index rt
          ∙ target_index-sheet_target n le,
    )

append_sheet-IsBook :
    (name : Bytes) (f : File) (j : ℕ)
    → IsBook f
    → IsName name
    → has_name name f.entries ≡ false
    → max_rel_id f.book_rels (pos 0) ≡ pos j
    → largest_id f.entries < max_int
    → j < max_int
    → ((append_sheet name f).1 ≡ pos (suc (largest_id f.entries)))
      × IsBook (append_sheet name f).0
      × (get_sheet_index name (append_sheet name f).0 ≡ pos (suc (largest_id f.entries)))
unfolding append_sheet set_workbook add_xlsx_workbook_rels set_sheet set_content_types set_app_xml
    save_file_list get_sheet_index
append_sheet-IsBook name f j book hn fresh ej hk hj =
    let id : max_sheet_id f.entries (pos 0) +ℤ pos 1 ≡ pos (suc (largest_id f.entries)) =
      ap (λ z. z +ℤ pos 1)
        (max_sheet_id-largest f.entries
          (HasNumbers-AllEntries f.sheet_map f.sheets f.book_rels f.entries book.0))
      ∙ next_pos_of (largest_id f.entries) hk in
    let rid : max_rel_id f.book_rels (pos 0) +ℤ pos 1 ≡ pos (suc j) =
      ap (λ z. z +ℤ pos 1) ej ∙ next_pos_of j hj in
    let same = trim_id name hn in
    let e : SheetEntry = record {
      name = name;
      sheet_id = pos (suc (largest_id f.entries));
      id = rel_name (pos (suc j));
      state = [];
    } in
    let r : Relationship = record {
      id = rel_name (pos (suc j));
      target = sheet_target (pos (suc (largest_id f.entries)));
      t = work_sheet_relationship;
      target_mode = [];
    } in
    let absent = find_rel-fresh f.book_rels (pos 0) j (suc j) ej (omega arith) (omega arith) in
    let (all, distinct, ids, index) =
      appended-IsBook name f (suc (largest_id f.entries)) e r book hn fresh (omega arith) refl refl
        refl refl absent (omega arith) in
    rw (id, rid, same) (refl, (all, distinct, ids), index)

-- NewSheet with an allowed name that no sheet has, on a workbook whose sheets are all read, returns
-- the number behind the largest sheet id; the workbook keeps its invariant, where no two sheets have
-- the same name or the same id, which is the number of the file; and the new sheet is found under that
-- index. The largest sheet id and the largest number of a relationship are below the largest int.
pub new_sheet-IsBook :
    (p : Parser) (name : Bytes) (f : File) (j : ℕ)
    → IsBook f
    → IsName name
    → has_name name f.entries ≡ false
    → max_rel_id f.book_rels (pos 0) ≡ pos j
    → largest_id f.entries < max_int
    → j < max_int
    → (f' : File) × (new_sheet p name f ≡ ok (f', pos (suc (largest_id f.entries))))
      × IsBook f'
      × (get_sheet_index name f' ≡ pos (suc (largest_id f.entries)))
unfolding new_sheet get_sheet_index
new_sheet-IsBook p name f j (all, distinct, ids) hn fresh ej hk hj =
    let absent = index_loop-none f.entries f.book_rels name fresh in
    let (sheets, tabs, done, keeps) =
      set_active_sheet-IsOpen p (pos (length (get_sheet_map f))) f
        (EntriesOpen-AllEntries f.sheet_map f.sheets f.book_rels f.entries all) in
    let f1 = record f { sheets = sheets; active_tabs = tabs } in
    let (id, book, index) =
      append_sheet-IsBook name f1 j
        (
          AllEntries-active f.sheet_map f.sheets sheets f.book_rels f.entries keeps all,
          distinct,
          ids,
        )
        hn fresh ej hk hj in
    let selected =
      delete_sheet-none p name f (ap (λ s. has_name s f.entries) (trim_id name hn) ∙ fresh)
      ∙ done in
    (
      (append_sheet name f1).0,
      ap
            (λ z.
              if not (eqb_ℤ z (pos 0))
              then ok (f, f.sheet_count)
              else (delete_sheet p name f >>= λ f'. ok (append_sheet name f')))
            absent
          ∙ ap (λ r. r >>= λ f'. ok (append_sheet name f')) selected
          ∙ ap (λ z. ok ((append_sheet name f1).0, z)) id,
      book,
      index,
    )
