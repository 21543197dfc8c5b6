-- ===== src/MdRange/Tests.antt =====
-- getMDRange at concrete inputs, and the theorem there. A metadata is its revision.
use angelkey_kbfsbeta.Prelude.{
  ℕ, ◌+◌, ◌-◌, ◌≡◌, refl, ◌⊎◌, ◌&&◌, ◌||◌, Option, none, some, List, [], ◌∷◌, arith, leb, ◌==◌,
  if◌then◌else◌, length,
}
use angelkey_kbfsbeta.Prelude.Result.{ok, err}
use angelkey_kbfsbeta.MdRange.{get_md_range, hole}
use angelkey_kbfsbeta.MdRange.Whole.{get_md_range_whole}
use angelkey_kbfsbeta.MdRange.Filled.{IsRun}
use angelkey_kbfsbeta.MdRange.Run.{IsRunWithin, get_md_range-IsRun}

abbrev revision : ℕ → ℕ
revision n = n

-- The cache has revision 2, and the server has 3.
abbrev cached : ℕ → Option ℕ
cached j = if j == 2 then some j else none

abbrev fetch : ℕ → ℕ → Option (List ℕ)
fetch start stop = if leb start 3 && leb 3 stop then some (3 ∷ []) else some []

abbrev both : List ℕ
both = 2 ∷ 3 ∷ []

found : get_md_range revision cached fetch 1 5 ≡ ok both
unfolding get_md_range
found = refl

-- With revisions 2 and 4 in the cache, and nothing on the server, there is a hole.
with_hole :
    get_md_range revision (λ j. if j == 2 || j == 4 then some j else none) (λ a b. some []) 1 5
    ≡ err (hole 3)
unfolding get_md_range
with_hole = refl

get_md_range-IsRun_example : (both ≡ []) ⊎ IsRunWithin revision 1 5 both
get_md_range-IsRun_example =
    get_md_range-IsRun revision cached fetch 1 5 (λ j a e. ground arith) found

get_md_range_whole_example :
    (rs : List ℕ) × (get_md_range revision (λ j. some j) fetch 3 5 ≡ ok rs)
    × (length rs ≡ 5 + 1 - 3)
    × IsRun revision 3 rs
get_md_range_whole_example =
    get_md_range_whole revision (λ j. some j) fetch 3 5 (omega arith) (omega arith)
      (λ j a e. ground arith) (λ j g l. (j, refl))
