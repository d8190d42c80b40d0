-- ===== src/Cols/Laws.antt =====
-- The loops keep the attribute of the last column that matches: the others are passed over.
use excelize.Cols.{holds_col, visible_loop, level_loop, width_loop, copy_loop}
use excelize.Common.{ℕ, ◌≡◌, refl, ap, ◌∙◌, Bool, not, List, [], ◌∷◌, ◌++◌, arith, if◌then◌else◌}
use excelize.Common.Int.{ℤ}
use excelize.Sheet.Data.{Col}

pub visible_loop-append :
    (cs : List Col) (c : Col) (n : ℤ) (v : Bool)
    → visible_loop (cs ++ c ∷ []) n v
      ≡ (if holds_col c n then not c.hidden else visible_loop cs n v)
unfolding visible_loop
visible_loop-append [] c n v = refl
visible_loop-append (x ∷ xs) c n v = visible_loop-append xs c n _

pub level_loop-append :
    (cs : List Col) (c : Col) (n : ℤ) (v : ℕ)
    → level_loop (cs ++ c ∷ []) n v ≡ (if holds_col c n then c.outline_level else level_loop cs n v)
unfolding level_loop
level_loop-append [] c n v = refl
level_loop-append (x ∷ xs) c n v = level_loop-append xs c n _

pub width_loop-append :
    (cs : List Col) (c : Col) (n : ℤ) (v : ℕ)
    → width_loop (cs ++ c ∷ []) n v ≡ (if holds_col c n then c.width else width_loop cs n v)
unfolding width_loop
width_loop-append [] c n v = refl
width_loop-append (x ∷ xs) c n v = width_loop-append xs c n _

-- The copy has the attributes that the getters read.
pub copy_loop-visible :
    (cs : List Col) (n : ℤ) (c : Col)
    → not (copy_loop cs n c).hidden ≡ visible_loop cs n (not c.hidden)
unfolding visible_loop copy_loop
copy_loop-visible [] n c = refl
copy_loop-visible (x ∷ xs) n c =
    copy_loop-visible xs n (if holds_col x n then x else c) ∙ ap (visible_loop xs n) (ground arith)

pub copy_loop-level :
    (cs : List Col) (n : ℤ) (c : Col)
    → (copy_loop cs n c).outline_level ≡ level_loop cs n c.outline_level
unfolding level_loop copy_loop
copy_loop-level [] n c = refl
copy_loop-level (x ∷ xs) n c =
    copy_loop-level xs n (if holds_col x n then x else c) ∙ ap (level_loop xs n) (ground arith)

pub copy_loop-width :
    (cs : List Col) (n : ℤ) (c : Col) → (copy_loop cs n c).width ≡ width_loop cs n c.width
unfolding width_loop copy_loop
copy_loop-width [] n c = refl
copy_loop-width (x ∷ xs) n c =
    copy_loop-width xs n (if holds_col x n then x else c) ∙ ap (width_loop xs n) (ground arith)
