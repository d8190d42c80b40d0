-- ===== src/Parts.antt =====
-- The relationships, media and content types of a file (picture.go, and workSheetRelsReader of
-- sheet.go). A range over a Go map is one over the association list that models it.
pub mod Laws
use excelize.Adjust.Links.{Relationship}
use excelize.Common.{
  ℕ, suc, ◌+◌, Bool, false, ◌&&◌, ◌||◌, Option, none, some, List, [], ◌∷◌, ◌++◌, map, ltb,
  if◌then◌else◌, length, Bytes, codes, str_eq, is_upper, Result, ◌>>=◌, ok,
}
use excelize.Common.Dict.{Dict, lookup, insert}
use excelize.Common.Int.{ℤ, pos}
use excelize.Options.Laws.{kind}
use excelize.Ref.Decimal.{itoa}
use excelize.Workbook.Active.{or_panic}
use excelize.Workbook.Create.{rel_name}
use excelize.Workbook.Data.{SheetPart, Override, Parser, File}
use excelize.Workbook.Lookup.{find_rel}
use excelize.Workbook.Names.{trim_sheet_name, has_prefix, trim_prefix}
use excelize.Workbook.Reader.{read_xml, work_sheet_reader, store_part}

-- `strings.ToLower` on ASCII.
abbrev pub lower : ℕ → ℕ
lower c = if is_upper c then c + 32 else c

abbrev pub to_lower : Bytes → Bytes
to_lower = map lower

-- The path of the relationships of a sheet.
unfoldable pub sheet_rels_path : Bytes → File → Bytes
unfolding lookup trim_sheet_name trim_prefix
sheet_rels_path sheet f =
    let name = elim (lookup (trim_sheet_name sheet) f.sheet_map) as (λ x. Bytes) [
      | some path ↦ path
      | none ↦ to_lower sheet ++ codes ".xml"
    ] in
    codes "xl/worksheets/_rels/" ++ trim_prefix name (codes "xl/worksheets/") ++ codes ".rels"

-- A part of relationships, read from the archive the first time.
unfoldable pub rels_reader :
    Parser
    → Bytes
    → Dict (List Relationship)
    → File
    → Dict (List Relationship) × Option (List Relationship)
unfolding lookup insert read_xml
rels_reader p path rels f = elim (lookup path rels) [
  | some r ↦ (rels, some r)
  | none ↦ elim (lookup path f.parts) [
    | none ↦ (rels, none)
    | some content ↦ let r = p.relationships (read_xml path f) in (insert path r rels, some r)
  ]
]

unfoldable pub work_sheet_rels_reader : Parser → Bytes → File → File × Option (List Relationship)
unfolding rels_reader
work_sheet_rels_reader p path f =
    let (rels, r) = rels_reader p path f.sheet_rels f in (record f { sheet_rels = rels }, r)

unfoldable pub drawing_rels_reader : Parser → Bytes → File → File × Option (List Relationship)
unfolding rels_reader
drawing_rels_reader p path f =
    let (rels, r) = rels_reader p path f.drawing_rels f in (record f { drawing_rels = rels }, r)

abbrev pub rels_or : Option (List Relationship) → List Relationship
rels_or none = []
rels_or (some r) = r

-- The number of a new relationship is that of the relationships before it and one more.
unfoldable pub appended_rel : Bytes → Bytes → Bytes → List Relationship → List Relationship
unfolding rel_name
appended_rel t target target_mode rels =
    rels
    ++ record {
      id = rel_name (pos (suc (length rels)));
      target = target;
      t = t;
      target_mode = target_mode;
    }
      ∷ []

unfoldable pub add_sheet_relationships : Parser → Bytes → Bytes → Bytes → Bytes → File → File × ℤ
unfolding sheet_rels_path work_sheet_rels_reader appended_rel insert
add_sheet_relationships p sheet t target target_mode f =
    let path = sheet_rels_path sheet f in
    let (f', r) = work_sheet_rels_reader p path f in
    (
      record f' {
        sheet_rels = insert path (appended_rel t target target_mode (rels_or r)) f'.sheet_rels;
      },
      pos (suc (length (rels_or r))),
    )

abbrev pub drawing_rels_path : ℤ → Bytes
drawing_rels_path index = codes "xl/drawings/_rels/drawing" ++ itoa index ++ codes ".xml.rels"

unfoldable pub add_drawing_relationships : Parser → ℤ → Bytes → Bytes → Bytes → File → File × ℤ
unfolding drawing_rels_reader appended_rel insert
add_drawing_relationships p index t target target_mode f =
    let path = drawing_rels_path index in
    let (f', r) = drawing_rels_reader p path f in
    (
      record f' {
        drawing_rels = insert path (appended_rel t target target_mode (rels_or r)) f'.drawing_rels;
      },
      pos (suc (length (rels_or r))),
    )

-- A text without a relationship of the id.
unfoldable pub target_of : Bytes → List Relationship → Bytes
unfolding find_rel
target_of rid rels = elim (find_rel rid rels) [ none ↦ [] | some r ↦ r.target ]

unfoldable pub get_sheet_relationships_target_by_id : Parser → Bytes → Bytes → File → File × Bytes
unfolding sheet_rels_path work_sheet_rels_reader target_of
get_sheet_relationships_target_by_id p sheet rid f =
    let (f', r) = work_sheet_rels_reader p (sheet_rels_path sheet f) f in
    (f', target_of rid (rels_or r))

unfoldable pub get_drawing_relationships :
    Parser → Bytes → Bytes → File → File × Option Relationship
unfolding drawing_rels_reader find_rel
get_drawing_relationships p path rid f =
    let (f', r) = drawing_rels_reader p path f in (f', find_rel rid (rels_or r))

-- The pointer of a sheet that can not be read is nil, and the code panics.
unfoldable pub modify_sheet : Parser → Bytes → (SheetPart → SheetPart) → File → Result File
unfolding work_sheet_reader or_panic store_part
modify_sheet p sheet g f =
    or_panic (work_sheet_reader p sheet f) >>= λ o. ok (store_part o.path (g o.part) o.file)

unfoldable pub add_sheet_legacy_drawing : Parser → Bytes → ℤ → File → Result File
unfolding modify_sheet rel_name
add_sheet_legacy_drawing p sheet rid f =
    modify_sheet p sheet (λ x. record x { legacy_drawing = some (rel_name rid) }) f

unfoldable pub add_sheet_drawing : Parser → Bytes → ℤ → File → Result File
unfolding modify_sheet rel_name
add_sheet_drawing p sheet rid f =
    modify_sheet p sheet (λ x. record x { drawing = some (rel_name rid) }) f

unfoldable pub add_sheet_picture : Parser → Bytes → ℤ → File → Result File
unfolding modify_sheet rel_name
add_sheet_picture p sheet rid f =
    modify_sheet p sheet (λ x. record x { picture = some (rel_name rid) }) f

unfoldable pub contains : Bytes → Bytes → Bool
unfolding has_prefix
contains [] sub = has_prefix [] sub
contains (c ∷ s) sub = has_prefix (c ∷ s) sub || contains s sub

unfoldable pub count_paths : Bytes → List Bytes → ℕ
unfolding contains
count_paths sub [] = 0
count_paths sub (k ∷ ks) = (if contains k sub then 1 else 0) + count_paths sub ks

abbrev pub keys {ℓ} : {V : Type ℓ} → Dict V → List Bytes
keys [] = []
keys ((k, v) ∷ d) = k ∷ keys d

unfoldable pub count_drawings : File → ℕ
unfolding count_paths
count_drawings f =
    let c1 = count_paths (codes "xl/drawings/drawing") (keys f.parts) in
    let c2 = count_paths (codes "xl/drawings/drawing") f.drawings in if ltb c1 c2 then c2 else c1

unfoldable pub count_media : File → ℕ
unfolding count_paths
count_media f = count_paths (codes "xl/media/image") (keys f.parts)

-- The name of an image with the same bytes.
unfoldable pub same_media : Bytes → Dict Bytes → Option Bytes
unfolding has_prefix str_eq
same_media file [] = none
same_media file ((name, existing) ∷ d) =
    if has_prefix name (codes "xl/media/image") && str_eq file existing
    then some name
    else same_media file d

unfoldable pub add_media : Bytes → Bytes → File → File × Bytes
unfolding count_media same_media insert
add_media file ext f =
    let count = count_media f in
    elim (same_media file f.parts) [
      | some name ↦ (f, name)
      | none ↦
          let media = codes "xl/media/image" ++ itoa (pos (suc count)) ++ ext in
          (record f { parts = insert media file f.parts }, media)
    ]

unfoldable pub has_extension : Bytes → List (Bytes × Bytes) → Bool
unfolding str_eq
has_extension ext [] = false
has_extension ext ((e, t) ∷ ds) = str_eq e ext || has_extension ext ds

abbrev pub with_extension : Bytes → Bytes → List (Bytes × Bytes) → List (Bytes × Bytes)
with_extension ext content_type ds =
    if has_extension ext ds then ds else ds ++ (ext, content_type) ∷ []

-- Go ranges over the three types in any order; here it is the order of the source.
unfoldable pub set_content_type_part_image_extensions : File → File
unfolding has_extension
set_content_type_part_image_extensions f = record f {
  defaults = with_extension (codes "gif") (codes "image/gif") (
      with_extension (codes "png") (codes "image/png")
        (with_extension (codes "jpeg") (codes "image/jpeg") f.defaults));
}

unfoldable pub set_content_type_part_vml_extensions : File → File
unfolding has_extension
set_content_type_part_vml_extensions f = record f {
  defaults =
      with_extension (codes "vml")
        (codes "application/vnd.openxmlformats-officedocument.vmlDrawing") f.defaults;
}

pub data PartKind : Type 0 where
  chart_part : PartKind
  comments_part : PartKind
  drawings_part : PartKind
  table_part : PartKind

unfoldable pub part_name_of : PartKind → ℤ → Bytes
part_name_of chart_part index = codes "/xl/charts/chart" ++ itoa index ++ codes ".xml"
part_name_of comments_part index = codes "/xl/comments" ++ itoa index ++ codes ".xml"
part_name_of drawings_part index = codes "/xl/drawings/drawing" ++ itoa index ++ codes ".xml"
part_name_of table_part index = codes "/xl/tables/table" ++ itoa index ++ codes ".xml"

unfoldable pub content_type_of : PartKind → Bytes
content_type_of chart_part =
    codes "application/vnd.openxmlformats-officedocument.drawingml.chart+xml"
content_type_of comments_part =
    codes "application/vnd.openxmlformats-officedocument.spreadsheetml.comments+xml"
content_type_of drawings_part = codes "application/vnd.openxmlformats-officedocument.drawing+xml"
content_type_of table_part =
    codes "application/vnd.openxmlformats-officedocument.spreadsheetml.table+xml"

unfoldable pub has_override : Bytes → List Override → Bool
unfolding str_eq
has_override name [] = false
has_override name (v ∷ vs) = str_eq v.part_name name || has_override name vs

unfoldable pub with_extensions : PartKind → File → File
unfolding set_content_type_part_vml_extensions set_content_type_part_image_extensions
with_extensions chart_part f = f
with_extensions comments_part f = set_content_type_part_vml_extensions f
with_extensions drawings_part f = set_content_type_part_image_extensions f
with_extensions table_part f = f

unfoldable pub add_content_type_part : ℤ → PartKind → File → File
unfolding with_extensions part_name_of content_type_of has_override
add_content_type_part index kind f =
    let f' = with_extensions kind f in
    if has_override (part_name_of kind index) f'.overrides then f' else record f' {
      overrides =
          f'.overrides
          ++ record { part_name = part_name_of kind index; content_type = content_type_of kind }
            ∷ [];
    }
