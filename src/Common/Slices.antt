-- ===== src/Common/Slices.antt =====
-- A Go slice over its backing array, which is what `range` reads while the loop body cuts elements
-- out of the slice in place.
use Prim.Native.Nat.{ℕ, zero, suc, ◌-◌}
use mathlib.Core.Bool.{Bool}
use mathlib.Core.Option.{none, some}
use mathlib.Core.List.{List, ◌++◌}
use excelize.Common.Tests.{ltb, if◌then◌else◌}
use excelize.Common.Lists.{length, get_elem?, take, drop}
use excelize.Common.Outcome.{Result, ◌>>=◌, ok, fault}

pub record Slice {ℓ} (A : Type ℓ) : Type ℓ where
  pub backing : List A
  pub len : ℕ

abbrev pub slice_of {ℓ} : {A : Type ℓ} → List A → Slice A
slice_of xs = record { backing = xs; len = length xs }

abbrev pub elements {ℓ} : {A : Type ℓ} → Slice A → List A
elements s = take s.len s.backing

-- `s = append(s[:i], s[i+1:]...)`: the elements behind i move down, the last slot keeps its value.
-- The bounds of `s[i+1:]` panic when i is not an index of the slice.
abbrev pub cut {ℓ} : {A : Type ℓ} → ℕ → Slice A → Result (Slice A)
cut i s =
    if ltb i s.len
    then ok (record {
      backing =
          take i s.backing ++ drop (suc i) (take s.len s.backing) ++ drop (s.len - 1) s.backing;
      len = s.len - 1;
    })
    else fault

-- `for i, v := range s { if test(v) { s = append(s[:i], s[i+1:]...) } }`: the range goes over the
-- slots that the slice had at first.
unfoldable pub cut_where {ℓ} : {A : Type ℓ} → (A → Bool) → ℕ → ℕ → Slice A → Result (Slice A)
cut_where test zero i s = ok s
cut_where test (suc rounds) i s = elim (get_elem? s.backing i) [
  | none ↦ fault
  | some v ↦ (if test v then cut i s else ok s) >>= cut_where test rounds (suc i)
]

unfoldable pub cut_all {ℓ} : {A : Type ℓ} → (A → Bool) → List A → Result (List A)
unfolding cut_where
cut_all test xs = cut_where test (length xs) 0 (slice_of xs) >>= λ s. ok (elements s)
