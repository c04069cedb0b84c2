-- ===== src/Util/Md2Text/Tests.antt =====
-- Small texts.
use kubedock.Base.{
  any_of, ◌≡◌, refl, true, false, [], ◌∷◌, ◌++◌, none, some, all_of, leb, ◌||◌, length,
}
use kubedock.Base.Text.{codes, has_prefix, split}
use kubedock.Base.Text.Split.{lacks}
use kubedock.Util.Md2Text.{convert_each, convert_header, wrap_string, render_table, to_text}
use kubedock.Util.Md2Text.Wrapped.{words}
use kubedock.Util.Md2Text.Bounded.{wrap_string_lem}
use kubedock.Util.Md2Text.Lost.{convert_each-table_lost}

wrapped : wrap_string (codes "one two three four") 10 ≡ codes "one two\nthree\nfour"
unfolding codes wrap_string split
wrapped = refl

title : convert_header (codes "## Usage") ≡ codes "Usage\n-----"
unfolding codes convert_header has_prefix
title = refl

link : convert_header (codes "see [docs](http://x.y/z) here") ≡ codes "see [docs] here"
unfolding codes convert_header has_prefix any_of
link = refl

table :
    render_table (codes "|a|bb|" ∷ codes "|-|-|" ∷ codes "|ccc|d|" ∷ [])
    ≡ some (codes "+-----+----+\n| a   | bb |\n+-----+----+\n| ccc | d  |\n+-----+----+\n")
unfolding render_table split codes
table = refl

-- a row with a cell less
panics : render_table (codes "|a|bb|" ∷ codes "|-|-|" ∷ codes "|c|" ∷ []) ≡ none
unfolding render_table split codes
panics = refl

whole : to_text (codes "# T\ntext\n") 80 ≡ some (codes "T\n=\ntext\n")
unfolding to_text split codes has_prefix
whole = refl

wrap_string_lem_example :
    (words (wrap_string (codes "a container of some pod") 8)
      ≡ words (codes "a container of some pod"))
    × (all_of
          (λ l. leb (length l) 8 || lacks b' ' l)
          (split b'\n' (wrap_string (codes "a container of some pod") 8))
        ≡ true)
unfolding all_of codes
wrap_string_lem_example = wrap_string_lem (codes "a container of some pod") 8 refl

convert_each-table_lost_example :
    convert_each 80 false true []
      ((codes "text" ∷ []) ++ codes "|a|" ∷ codes "|-|" ∷ codes "|b|" ∷ [])
    ≡ convert_each 80 false true [] (codes "text" ∷ [])
unfolding all_of has_prefix codes
convert_each-table_lost_example =
    convert_each-table_lost 80 false true [] (codes "text" ∷ [])
      (codes "|a|" ∷ codes "|-|" ∷ codes "|b|" ∷ []) refl
