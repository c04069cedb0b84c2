-- ===== src/Util/Md2Text.antt =====
-- internal/util/md2text/md2text.go: markdown as text, which the readme command prints. Texts are of
-- ASCII bytes, with lines below the 64 KB of a bufio.Scanner.
pub mod Wrapped
pub mod Bounded
pub mod Lost
pub mod Tests
use kubedock.Base.{
  ℕ, zero, suc, ◌+◌, ◌-◌, Bool, true, false, ◌&&◌, not, List, [], ◌∷◌, ◌++◌, Option, none, some,
  is_nil, length, replicate, any_of, map, ltb, ◌==◌, if◌then◌else◌, Str,
}
use kubedock.Base.Text.{codes, has_prefix, split}

-- The loop of wrapString over the words.
unfoldable pub wrap_each : ℕ → List Str → Str → Str → Str
wrap_each cols [] res line = res ++ line
wrap_each cols (w ∷ ws) res line =
    let longer = wrap_each cols ws res ((if is_nil line then line else line ++ b' ' ∷ []) ++ w) in
    let broken = wrap_each cols ws (res ++ line) (b'\n' ∷ w) in
    if ltb (length w + length line) cols then longer else broken

-- wrapString
unfoldable pub wrap_string : Str → ℕ → Str
unfolding wrap_each
wrap_string text cols = wrap_each cols (split b' ' text) [] []

-- A run of a byte at the start: how long it is, and what is behind it.
unfoldable pub run : ℕ → Str → ℕ × Str
run b [] = (0, [])
run b (c ∷ s) = let (n, rest) = run b s in if c == b then (suc n, rest) else (0, c ∷ s)

-- (?m)\(http[^\)]*\), removed; the flag says that the text is inside of a match
unfoldable pub without_links : Bool → Str → Str
without_links inside [] = []
without_links true (c ∷ s) =
    let more = without_links true s in
    let out = without_links false s in if c == b')' then out else more
without_links false (c ∷ s) =
    let more = without_links true s in
    let out = without_links false s in
    if has_prefix (c ∷ s) (codes "(http") && any_of (λ d. d == b')') s then more else c ∷ out

-- convertHeader of one line
unfoldable pub convert_header : Str → Str
unfolding run without_links
convert_header line =
    let (level, rest) = run b'#' line in
    let (spaces, title) = run b' ' rest in
    let under = λ (b : ℕ). b'\n' ∷ replicate (length title) b in
    let text =
      if level == 0
      then line
      else if spaces == 0
      then line
      else if level == 1
      then title ++ under b'='
      else if level == 2
      then title ++ under b'-'
      else title in
    without_links false text

-- strings.Trim(row, "|")
unfoldable pub trim_end : Str → Str
trim_end [] = []
trim_end (c ∷ s) = elim (trim_end s) [
  | [] ↦ if c == b'|' then [] else c ∷ []
  | d ∷ rest ↦ c ∷ d ∷ rest
]

unfoldable pub cells : Str → List Str
unfolding run trim_end
cells row = split b'|' (trim_end ((run b'|' row).1))

-- The first cells of the rows and the others; none for the panic where a row has no cell.
unfoldable pub column : List (List Str) → Option (List Str × List (List Str))
column [] = some ([], [])
column ([] ∷ rows) = none
column ((c ∷ cs) ∷ rows) = elim (column rows) [
  | none ↦ none
  | some (firsts, others) ↦ some (c ∷ firsts, cs ∷ others)
]

unfoldable pub widest : ℕ → List Str → ℕ
widest n [] = n
widest n (c ∷ cs) = widest (if ltb n (length c) then length c else n) cs

-- colWidths of renderTable
unfoldable pub col_widths : List Str → List (List Str) → Option (List ℕ)
unfolding column widest
col_widths [] data_rows = some []
col_widths (h ∷ hs) data_rows = elim (column data_rows) [
  | none ↦ none
  | some (firsts, others) ↦ elim (col_widths hs others) [
    | none ↦ none
    | some ws ↦ some (widest (length h) firsts ∷ ws)
  ]
]

-- renderRow; none for the panic where a row has more cells than there are widths
unfoldable pub render_row : List Str → List ℕ → Option Str
render_row [] ws = some (codes "|\n")
render_row (cell ∷ row) [] = none
render_row (cell ∷ row) (w ∷ ws) = elim (render_row row ws) [
  | none ↦ none
  | some rest ↦ some (codes "| " ++ cell ++ replicate (w - length cell) b' ' ++ b' ' ∷ rest)
]

-- renderLine
unfoldable pub render_line : List ℕ → Str
render_line [] = codes "+\n"
render_line (w ∷ ws) = b'+' ∷ replicate (w + 2) b'-' ++ render_line ws

unfoldable pub render_rows : List (List Str) → List ℕ → Option Str
unfolding render_row
render_rows [] ws = some []
render_rows (row ∷ rows) ws = elim (render_row row ws) [
  | none ↦ none
  | some out ↦ elim (render_rows rows ws) [ none ↦ none | some rest ↦ some (out ++ rest) ]
]

-- renderTable; none for a panic, as where there are fewer than two rows
unfoldable pub render_table : List Str → Option Str
unfolding cells col_widths render_line render_rows
render_table [] = none
render_table (header ∷ []) = none
render_table (header ∷ rule ∷ rows) =
    let data_rows = map cells rows in
    elim (col_widths (cells header) data_rows) [
      | none ↦ none
      | some ws ↦ elim (render_row (cells header) ws) [
        | none ↦ none
        | some head_row ↦ elim (render_rows data_rows ws) [
          | none ↦ none
          | some body ↦
              some (render_line ws ++ head_row ++ render_line ws ++ body ++ render_line ws)
        ]
      ]
    ]

-- The table that was collected, in front of what follows it.
unfoldable pub flush_table : List Str → Option Str → Option Str
unfolding render_table
flush_table [] rest = rest
flush_table (row ∷ rows) rest = elim (render_table (row ∷ rows)) [
  | none ↦ none
  | some out ↦ elim rest [ none ↦ none | some text ↦ some (out ++ text) ]
]

abbrev pub in_front : Str → Option Str → Option Str
in_front out none = none
in_front out (some text) = some (out ++ text)

-- The loop of ToText over the lines, with `raw`, `render` and `table`; none for a panic.
unfoldable pub convert_each : ℕ → Bool → Bool → List Str → List Str → Option Str
unfolding convert_header wrap_string flush_table
convert_each cols raw render table [] = some []
convert_each cols raw render table (line ∷ lines) =
    let fenced = convert_each cols (not raw) render table lines in
    let hidden = convert_each cols raw false table lines in
    let shown = convert_each cols raw true table lines in
    let skipped = convert_each cols raw render table lines in
    let collected = convert_each cols raw render (table ++ line ∷ []) lines in
    let rest = convert_each cols raw render [] lines in
    let out = if raw then codes "  " ++ line else wrap_string (convert_header line) cols in
    if has_prefix line (codes "```")
    then fenced
    else if has_prefix line (codes "[skip_render_start]")
    then hidden
    else if has_prefix line (codes "[skip_render_end]")
    then shown
    else if not render
    then skipped
    else if has_prefix line (codes "|")
    then collected
    else flush_table table (in_front (out ++ b'\n' ∷ []) rest)

-- The lines of a bufio.Scanner: without a '\r' at the end, and none for what is empty at the end.
unfoldable pub chomp : Str → Str
chomp [] = []
chomp (c ∷ []) = if c == 13 then [] else c ∷ []
chomp (c ∷ d ∷ s) = c ∷ chomp (d ∷ s)

unfoldable pub scan_lines : List Str → List Str
unfolding chomp
scan_lines [] = []
scan_lines (l ∷ []) = if is_nil l then [] else chomp l ∷ []
scan_lines (l ∷ m ∷ ls) = chomp l ∷ scan_lines (m ∷ ls)

-- ToText
unfoldable pub to_text : Str → ℕ → Option Str
unfolding convert_each scan_lines
to_text text cols = convert_each cols false true [] (scan_lines (split b'\n' text))
