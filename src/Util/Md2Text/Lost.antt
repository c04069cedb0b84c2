-- ===== src/Util/Md2Text/Lost.antt =====
-- A table at the end of a text.
use kubedock.Base.{
  ℕ, ◌≡◌, refl, Bool, true, false, List, [], ◌∷◌, ◌++◌, some, all_of, not, arith, Str,
}
use kubedock.Base.Text.{codes, has_prefix}
use kubedock.Util.Md2Text.{convert_each}

-- A row of a table begins with a bar, and so with no other mark.
row_only :
    (line : Str)
    → has_prefix line (codes "|") ≡ true
    → (has_prefix line (codes "```") ≡ false)
      × (has_prefix line (codes "[skip_render_start]") ≡ false)
      × (has_prefix line (codes "[skip_render_end]") ≡ false)
unfolding has_prefix codes
row_only [] h = absurd (ground arith)
row_only (c ∷ s) h = ground arith

rows_lost :
    (cols : ℕ) (raw render : Bool) (table rows : List Str)
    → all_of (λ r. has_prefix r (codes "|")) rows ≡ true
    → convert_each cols raw render table rows ≡ some []
unfolding convert_each all_of
rows_lost cols raw render table [] h = refl
rows_lost cols raw false table (r ∷ rows) h =
    ground (arith, row_only r, rows_lost cols raw false table rows)
rows_lost cols raw true table (r ∷ rows) h =
    ground (arith, row_only r, rows_lost cols raw true (table ++ r ∷ []) rows)

-- A table at the end of a text is not printed: the rows behind the other lines add nothing to what
-- the loop returns, whatever its state is, not even a panic.
pub convert_each-table_lost :
    (cols : ℕ) (raw render : Bool) (table lines rows : List Str)
    → all_of (λ r. has_prefix r (codes "|")) rows ≡ true
    → convert_each cols raw render table (lines ++ rows) ≡ convert_each cols raw render table lines
unfolding convert_each
convert_each-table_lost cols raw render table [] rows h = rows_lost cols raw render table rows h
convert_each-table_lost cols raw render table (l ∷ lines) rows h =
    rw
      (
        convert_each-table_lost cols (not raw) render table lines rows h,
        convert_each-table_lost cols raw false table lines rows h,
        convert_each-table_lost cols raw true table lines rows h,
        convert_each-table_lost cols raw render table lines rows h,
        convert_each-table_lost cols raw render (table ++ l ∷ []) lines rows h,
        convert_each-table_lost cols raw render [] lines rows h,
      )
      refl
