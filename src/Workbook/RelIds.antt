-- ===== src/Workbook/RelIds.antt =====
-- The ids of the relationships of a workbook (addXlsxWorkbookRels, sheet.go).
-- The id of the next relationship is new.
use excelize.Adjust.Links.{Relationship}
use excelize.Common.{
  ℕ, ◌≤◌, ◌<◌, ◌≡◌, refl, sym, ap, ◌∙◌, inl, inr, Bool, true, false, none, some, List, [], ◌∷◌,
  ◌++◌, arith, if◌then◌else◌, Bool-cases, Bytes, codes, str_eq, str_eq→eq, str_eq_refl,
}
use excelize.Common.Int.{ℤ, max_int, ◌≤ℤ◌, ltb_ℤ, pos}
use excelize.Ref.Decimal.{atoi_value}
use excelize.Workbook.Create.{max_rel_id, rel_name}
use excelize.Workbook.Lookup.{find_rel}
use excelize.Workbook.Names.{trim_prefix}
use excelize.Workbook.Targets.{rel_number}

max_rel_id-ge : (vs : List Relationship) (rid : ℤ) → rid ≤ℤ max_rel_id vs rid
unfolding max_rel_id
max_rel_id-ge [] rid = omega arith
max_rel_id-ge (v ∷ vs) rid =
    ground
      (arith, max_rel_id-ge vs rid, max_rel_id-ge vs (atoi_value (trim_prefix v.id (codes "rId"))))

head_rel-le :
    (v : Relationship) (vs : List Relationship) (rid : ℤ)
    → atoi_value (trim_prefix v.id (codes "rId")) ≤ℤ max_rel_id (v ∷ vs) rid
unfolding max_rel_id
head_rel-le v vs rid = by_number (atoi_value (trim_prefix v.id (codes "rId")))
  where
    within : (t rid m : ℤ) → ltb_ℤ rid t ≡ false → rid ≤ℤ m → t ≤ℤ m
    within t rid m h le = ground arith

    by_number : (t : ℤ) → t ≤ℤ max_rel_id vs (if ltb_ℤ rid t then t else rid)
    by_number t = elim (Bool-cases (ltb_ℤ rid t)) [
      | inl e ↦ rw e (max_rel_id-ge vs t)
      | inr e ↦ rw e (within t rid (max_rel_id vs rid) e (max_rel_id-ge vs rid))
    ]

max_step :
    (v : Relationship) (vs : List Relationship) (rid : ℤ)
    → max_rel_id (v ∷ vs) rid ≡ (
        let t = atoi_value (trim_prefix v.id (codes "rId")) in
        max_rel_id vs (if ltb_ℤ rid t then t else rid))
unfolding max_rel_id
max_step v vs rid = refl

pub find_rel-fresh :
    (vs : List Relationship) (rid : ℤ) (k j : ℕ)
    → max_rel_id vs rid ≡ pos k
    → k < j
    → j ≤ max_int
    → find_rel (rel_name (pos j)) vs ≡ none
unfolding find_rel
find_rel-fresh [] rid k j e lt le = refl
find_rel-fresh (v ∷ vs) rid k j e lt le = elim (Bool-cases (str_eq (rel_name (pos j)) v.id)) [
  | inl same ↦
      let number : atoi_value (trim_prefix v.id (codes "rId")) ≡ pos j =
        ap (λ s. atoi_value (trim_prefix s (codes "rId"))) (sym (str_eq→eq _ _ same))
        ∙ rel_number j le in
      let bound = head_rel-le v vs rid in
      absurd (
        too_large (atoi_value (trim_prefix v.id (codes "rId"))) (max_rel_id (v ∷ vs) rid) number
          bound e)
  | inr other ↦
      let t = atoi_value (trim_prefix v.id (codes "rId")) in
      rw other
        (find_rel-fresh vs (if ltb_ℤ rid t then t else rid) k j (sym (max_step v vs rid) ∙ e) lt le)
]
  where
    too_large : (t m : ℤ) → t ≡ pos j → t ≤ℤ m → m ≡ pos k → ⊥
    too_large t m a b c = ground arith

pub find_rel-append :
    (id : Bytes) (vs : List Relationship) (new r : Relationship)
    → find_rel id vs ≡ some r
    → find_rel id (vs ++ new ∷ []) ≡ some r
unfolding find_rel
find_rel-append id [] new r h = cc
find_rel-append id (v ∷ vs) new r h = by_test (str_eq id v.id) (find_rel-append id vs new r) h
  where
    by_test :
        (t : Bool)
        → (find_rel id vs ≡ some r → find_rel id (vs ++ new ∷ []) ≡ some r)
        → (if t then some v else find_rel id vs) ≡ some r
        → (if t then some v else find_rel id (vs ++ new ∷ [])) ≡ some r
    by_test true later h = h
    by_test false later h = later h

pub find_rel-last :
    (id : Bytes) (vs : List Relationship) (new : Relationship)
    → find_rel id vs ≡ none
    → new.id ≡ id
    → find_rel id (vs ++ new ∷ []) ≡ some new
unfolding find_rel
find_rel-last id [] new h e = rw (e, str_eq_refl id) refl
find_rel-last id (v ∷ vs) new h e = by_test (str_eq id v.id) (λ h'. find_rel-last id vs new h' e) h
  where
    by_test :
        (t : Bool)
        → (find_rel id vs ≡ none → find_rel id (vs ++ new ∷ []) ≡ some new)
        → (if t then some v else find_rel id vs) ≡ none
        → (if t then some v else find_rel id (vs ++ new ∷ [])) ≡ some new
    by_test true later h = cc
    by_test false later h = later h
