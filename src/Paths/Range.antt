-- ===== src/Paths/Range.antt =====
-- `range_under` (src/path.rs) holds exactly the names under a name.
use tidings.Base.Tests.{◌≡◌, refl, [], ◌∷◌, ◌++◌, arith}
use tidings.Base.Text.{Text, slash, cmp, starts_with}
use tidings.Paths.{range_under, in_range}

-- A text is in the range under a name exactly when it starts with the name and a `/`.
pub in_range-range_under :
    (name text : Text) → in_range (range_under name) text ≡ starts_with (name ++ (slash ∷ [])) text
unfolding in_range range_under starts_with cmp
in_range-range_under [] [] = refl
in_range-range_under [] (t ∷ []) = ground arith
in_range-range_under [] (t ∷ u ∷ ts) = ground arith
in_range-range_under (n ∷ ns) [] = refl
in_range-range_under (n ∷ ns) (t ∷ ts) = ground (arith, in_range-range_under ns ts)
