-- ===== src/Parts/Laws.antt =====
-- A relationship that is added to a sheet is found by its id, where no other has that id.
use mathlib.Core.Path.{subst}
use excelize.Adjust.Links.{Relationship}
use excelize.Common.{
  ℕ, suc, ◌+◌, ◌≤◌, ◌<◌, ◌≡◌, refl, sym, ap, ◌∙◌, Bool, true, false, Option, none, some, List, [],
  ◌∷◌, ◌++◌, arith, if◌then◌else◌, length, Bytes, codes, str_eq, str_eq→eq, str_eq_refl,
}
use excelize.Common.Dict.{Dict, lookup, insert, lookup-insert}
use excelize.Common.Int.{max_int, pos}
use excelize.Parts.{
  sheet_rels_path, rels_reader, work_sheet_rels_reader, rels_or, appended_rel,
  add_sheet_relationships, target_of, get_sheet_relationships_target_by_id,
}
use excelize.Ref.Decimal.{atoi_value}
use excelize.Workbook.Create.{rel_name}
use excelize.Workbook.Data.{Parser, File}
use excelize.Workbook.Lookup.{find_rel}
use excelize.Workbook.Names.{trim_prefix}
use excelize.Workbook.RelIds.{find_rel-append, find_rel-last}
use excelize.Workbook.Targets.{rel_number}

-- The relationships of a sheet as the next call finds them.
abbrev pub sheet_rels_of : Parser → Bytes → File → List Relationship
sheet_rels_of p sheet f = rels_or (work_sheet_rels_reader p (sheet_rels_path sheet f) f).1

-- The ids count the relationships from k on.
abbrev pub IsNumbered : ℕ → List Relationship → Type 0
IsNumbered k [] = Unit
IsNumbered k (r ∷ rs) = (r.id ≡ rel_name (pos k)) × IsNumbered (suc k) rs

rel_name-ne : (j k : ℕ) → j ≤ max_int → k < j → str_eq (rel_name (pos j)) (rel_name (pos k)) ≡ false
rel_name-ne j k lj lt = by_test (str_eq (rel_name (pos j)) (rel_name (pos k))) refl
  where
    by_test : (t : Bool) → str_eq (rel_name (pos j)) (rel_name (pos k)) ≡ t → t ≡ false
    by_test false e = refl
    by_test true e =
        let same : pos j ≡ pos k =
          sym (rel_number j lj)
          ∙ ap (λ s. atoi_value (trim_prefix s (codes "rId"))) (str_eq→eq _ _ e)
          ∙ rel_number k (omega arith) in
        absurd (ground (arith, same))

find_rel-numbered :
    (rs : List Relationship) (k j : ℕ)
    → IsNumbered k rs
    → k + length rs ≤ j
    → j ≤ max_int
    → find_rel (rel_name (pos j)) rs ≡ none
unfolding find_rel
find_rel-numbered [] k j h le lj = refl
find_rel-numbered (r ∷ rs) k j (h, hs) le lj =
    let other : str_eq (rel_name (pos j)) r.id ≡ false =
      ap (str_eq (rel_name (pos j))) h ∙ rel_name-ne j k lj (omega arith) in
    rw other (find_rel-numbered rs (suc k) j hs (omega arith) lj)

IsNumbered-append :
    (rs : List Relationship) (k : ℕ) (r : Relationship)
    → IsNumbered k rs
    → r.id ≡ rel_name (pos (k + length rs))
    → IsNumbered k (rs ++ r ∷ [])
IsNumbered-append [] k r h e = (e ∙ ap (λ n. rel_name (pos n)) (omega arith), tt)
IsNumbered-append (x ∷ rs) k r (h, hs) e =
    (h, IsNumbered-append rs (suc k) r hs (e ∙ ap (λ n. rel_name (pos n)) (omega arith)))

rels_path_same :
    (sheet : Bytes) (rels : Dict (List Relationship)) (f : File)
    → sheet_rels_path sheet (record f { sheet_rels = rels }) ≡ sheet_rels_path sheet f
unfolding sheet_rels_path
rels_path_same sheet rels f = refl

reader-insert :
    (p : Parser) (path : Bytes) (r : List Relationship) (rels : Dict (List Relationship)) (f : File)
    → rels_reader p path (insert path r rels) f ≡ (insert path r rels, some r)
unfolding rels_reader
reader-insert p path r rels f =
    rw
      (
        lookup-insert path path r rels
            ∙ ap (λ t. if t then some r else lookup path rels) (str_eq_refl path),
        rels_reader,
      )
      refl

stored_rels :
    (p : Parser) (sheet t target mode : Bytes) (f : File)
    → sheet_rels_of p sheet (add_sheet_relationships p sheet t target mode f).0
      ≡ appended_rel t target mode (sheet_rels_of p sheet f)
unfolding add_sheet_relationships work_sheet_rels_reader
stored_rels p sheet t target mode f =
    let path = sheet_rels_path sheet f in
    let found = rels_reader p path f.sheet_rels f in
    let rels = insert path (appended_rel t target mode (rels_or found.1)) found.0 in
    ap (λ q. rels_or (rels_reader p q rels (record f { sheet_rels = rels })).1)
      (rels_path_same sheet rels f)
    ∙ ap (λ q. rels_or q.1)
        (reader-insert p path (appended_rel t target mode (rels_or found.1)) found.0
          (record f { sheet_rels = rels }))

added_number :
    (p : Parser) (sheet t target mode : Bytes) (f : File)
    → (add_sheet_relationships p sheet t target mode f).1
      ≡ pos (suc (length (sheet_rels_of p sheet f)))
unfolding add_sheet_relationships
added_number p sheet t target mode f = refl

target-rels_of :
    (p : Parser) (sheet rid : Bytes) (f : File)
    → (get_sheet_relationships_target_by_id p sheet rid f).1
      ≡ target_of rid (sheet_rels_of p sheet f)
unfolding get_sheet_relationships_target_by_id
target-rels_of p sheet rid f = refl

-- The target of an id behind a relationship that takes it: an earlier one of the id comes first.
target-appended :
    (t target mode : Bytes) (rels : List Relationship)
    → let rid = rel_name (pos (suc (length rels))) in
      target_of rid (appended_rel t target mode rels)
      ≡ (elim (find_rel rid rels) [ none ↦ target | some r ↦ r.target ])
unfolding target_of appended_rel
target-appended t target mode rels =
    let rid = rel_name (pos (suc (length rels))) in by_rel rid (find_rel rid rels) refl
  where
    new : Bytes → Relationship
    new rid = record { id = rid; target = target; t = t; target_mode = mode }

    by_rel :
        (rid : Bytes) (q : Option Relationship)
        → find_rel rid rels ≡ q
        → (elim (find_rel rid (rels ++ new rid ∷ [])) [ none ↦ [] | some r ↦ r.target ])
          ≡ (elim q [ none ↦ target | some r ↦ r.target ])
    by_rel rid none e = rw (find_rel-last rid rels (new rid) e refl) refl
    by_rel rid (some r) e = rw (find_rel-append rid rels (new rid) r e) refl

-- AddSheetRelationships returns a number under which the new target is found, unless a relationship
-- of the sheet has the id already: then that one's target is found.
pub get-add_sheet_relationships :
    (p : Parser) (sheet t target mode : Bytes) (f : File)
    → (get_sheet_relationships_target_by_id p sheet
        (rel_name (add_sheet_relationships p sheet t target mode f).1)
        (add_sheet_relationships p sheet t target mode f).0).1
      ≡ (elim (find_rel
          (rel_name (pos (suc (length (sheet_rels_of p sheet f)))))
          (sheet_rels_of p sheet f)) [ none ↦ target | some r ↦ r.target ])
get-add_sheet_relationships p sheet t target mode f =
    target-rels_of p sheet (rel_name (add_sheet_relationships p sheet t target mode f).1)
      (add_sheet_relationships p sheet t target mode f).0
    ∙ ap (target_of (rel_name (add_sheet_relationships p sheet t target mode f).1))
        (stored_rels p sheet t target mode f)
    ∙ ap (λ z. target_of (rel_name z) (appended_rel t target mode (sheet_rels_of p sheet f)))
        (added_number p sheet t target mode f)
    ∙ target-appended t target mode (sheet_rels_of p sheet f)

-- Relationships that are numbered in order from 1 stay so, and the target of the new one is found.
pub add_sheet_relationships-IsNumbered :
    (p : Parser) (sheet t target mode : Bytes) (f : File)
    → IsNumbered 1 (sheet_rels_of p sheet f)
    → length (sheet_rels_of p sheet f) < max_int
    → IsNumbered 1 (sheet_rels_of p sheet (add_sheet_relationships p sheet t target mode f).0)
      × ((get_sheet_relationships_target_by_id p sheet
            (rel_name (add_sheet_relationships p sheet t target mode f).1)
            (add_sheet_relationships p sheet t target mode f).0).1
          ≡ target)
unfolding appended_rel
add_sheet_relationships-IsNumbered p sheet t target mode f h le =
    let rels = sheet_rels_of p sheet f in
    let rid = rel_name (pos (suc (length rels))) in
    let next : suc (length rels) ≡ 1 + length rels = omega arith in
    (
      subst (IsNumbered 1) (sym (stored_rels p sheet t target mode f)) (
          IsNumbered-append rels 1 (record { id = rid; target = target; t = t; target_mode = mode })
            h (ap (λ n. rel_name (pos n)) next)),
      get-add_sheet_relationships p sheet t target mode f
          ∙ ap (λ (q : Option Relationship). elim q [ none ↦ target | some r ↦ r.target ])
              (find_rel-numbered rels 1 (suc (length rels)) h (omega arith) (omega arith)),
    )
