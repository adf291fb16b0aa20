-- ===== src/Emitted/Db/Rows.antt =====
-- The text that `db_query` of the emitted C makes of the rows of an answer.
use demonic_c.Base.{
  ℕ, ◌+◌, ◌≤◌, ◌<◌, ◌≡◌, refl, map, get_elem?, ◌^◌, ◌∙◌, ap, sym, true, false, ◌||◌, ◌==◌, List, [],
  ◌∷◌, ◌++◌, some, ltb, leb, length, length-append, append-nil, append_assoc, arith,
}
use demonic_c.Text.{Bytes}
use demonic_c.Emitted.Handles.{returns}
use demonic_c.Emitted.Db.{
  Row, Sqlite, Databases, buffer_size, append_in, text_of, columns, line_break, all_rows, db_query,
  with_connection,
}

-- Each of the texts with a byte in front.
unfoldable pub behind : ℕ → List Bytes → Bytes
behind separator [] = []
behind separator (x ∷ xs) = separator ∷ (x ++ behind separator xs)

-- The texts with a byte between them.
abbrev pub joined : ℕ → List Bytes → Bytes
joined separator [] = []
joined separator (x ∷ xs) = x ++ behind separator xs

-- A line for each row, and a tab between its columns.
abbrev pub line_of : Row → Bytes
line_of row = joined 9 (map text_of row)

abbrev pub table_text : List Row → Bytes
table_text rows = joined 10 (map line_of rows)

append_in-fits :
    (out bytes : Bytes)
    → length out + length bytes ≤ buffer_size
    → append_in out bytes ≡ some (out ++ bytes)
unfolding append_in
append_in-fits out bytes h =
    let room : ltb buffer_size (length out + length bytes) ≡ false = ground (arith, h) in
    rw room refl

columns-behind :
    (row : Row) (out : Bytes)
    → length out + length (behind 9 (map text_of row)) + 2 < buffer_size
    → columns true row (some out) ≡ some (out ++ behind 9 (map text_of row))
unfolding columns behind
columns-behind [] out h = ap some (sym (append-nil out))
columns-behind (value ∷ row) out h =
    let text = text_of value in
    let others = behind 9 (map text_of row) in
    let all : length (text ++ others) ≡ length text + length others = length-append text others in
    let one : length (out ++ (9 ∷ [])) ≡ length out + 1 = length-append out (9 ∷ []) in
    let two : length ((out ++ (9 ∷ [])) ++ text) ≡ length (out ++ (9 ∷ [])) + length text =
      length-append (out ++ (9 ∷ [])) text in
    let goes : leb buffer_size (length out + length text + 2) ≡ false = ground (arith, h, all) in
    let tab : ltb buffer_size (length out + 1) ≡ false = ground (arith, h, all) in
    let room : ltb buffer_size (length (out ++ (9 ∷ [])) + length text) ≡ false =
      ground (arith, h, all, one) in
    let rest : columns true row (some ((out ++ (9 ∷ [])) ++ text))
        ≡ some (((out ++ (9 ∷ [])) ++ text) ++ others) =
      columns-behind row ((out ++ (9 ∷ [])) ++ text) (omega (arith, h, all, one, two)) in
    rw (goes, tab, room, rest)
      (ap some
        (append_assoc (out ++ (9 ∷ [])) text others ∙ append_assoc out (9 ∷ []) (text ++ others)))

columns-line_of :
    (row : Row) (out : Bytes)
    → length out + length (line_of row) + 2 < buffer_size
    → columns false row (some out) ≡ some (out ++ line_of row)
unfolding columns
columns-line_of [] out h = ap some (sym (append-nil out))
columns-line_of (value ∷ row) out h =
    let text = text_of value in
    let others = behind 9 (map text_of row) in
    let all : length (text ++ others) ≡ length text + length others = length-append text others in
    let both : length (out ++ text) ≡ length out + length text = length-append out text in
    let goes : leb buffer_size (length out + length text + 2) ≡ false = ground (arith, h, all) in
    let room : ltb buffer_size (length out + length text) ≡ false = ground (arith, h, all) in
    let rest : columns true row (some (out ++ text)) ≡ some ((out ++ text) ++ others) =
      columns-behind row (out ++ text) (omega (arith, h, all, both)) in
    rw (goes, room, rest) (ap some (append_assoc out text others))

line_break-fits :
    (out : Bytes) → length out + 1 < buffer_size → line_break false out ≡ some (out ++ (10 ∷ []))
line_break-fits out h =
    let room : ltb (length out + 1) buffer_size ≡ true = ground (arith, h) in
    rw room (append_in-fits out (10 ∷ []) (omega (arith, h)))

all_rows-behind :
    (rows : List Row) (out : Bytes)
    → length out + length (behind 10 (map line_of rows)) + 2 < buffer_size
    → all_rows false rows (some out) ≡ some (out ++ behind 10 (map line_of rows))
unfolding all_rows behind
all_rows-behind [] out h =
    let room : ltb (length out) buffer_size ≡ true = ground (arith, h) in
    rw room (ap some (sym (append-nil out)))
all_rows-behind (row ∷ rows) out h =
    let line = line_of row in
    let others = behind 10 (map line_of rows) in
    let all : length (line ++ others) ≡ length line + length others = length-append line others in
    let one : length (out ++ (10 ∷ [])) ≡ length out + 1 = length-append out (10 ∷ []) in
    let two : length ((out ++ (10 ∷ [])) ++ line) ≡ length (out ++ (10 ∷ [])) + length line =
      length-append (out ++ (10 ∷ [])) line in
    let newline : line_break false out ≡ some (out ++ (10 ∷ [])) =
      line_break-fits out (omega (arith, h, all)) in
    let read : columns false row (some (out ++ (10 ∷ []))) ≡ some ((out ++ (10 ∷ [])) ++ line) =
      columns-line_of row (out ++ (10 ∷ [])) (omega (arith, h, all, one)) in
    let rest : all_rows false rows (some ((out ++ (10 ∷ [])) ++ line))
        ≡ some (((out ++ (10 ∷ [])) ++ line) ++ others) =
      all_rows-behind rows ((out ++ (10 ∷ [])) ++ line) (omega (arith, h, all, one, two)) in
    let end : ((out ++ (10 ∷ [])) ++ line) ++ others ≡ out ++ (10 ∷ (line ++ others)) =
      append_assoc (out ++ (10 ∷ [])) line others ∙ append_assoc out (10 ∷ []) (line ++ others) in
    ap (λ o. all_rows false rows (columns false row o)) newline
    ∙ (ap (all_rows false rows) read ∙ (rest ∙ ap some end))

all_rows-table_text :
    (rows : List Row)
    → length (table_text rows) + 2 < buffer_size
    → all_rows true rows (some []) ≡ some (table_text rows)
unfolding all_rows
all_rows-table_text [] h = refl
all_rows-table_text (row ∷ rows) h =
    let line = line_of row in
    let others = behind 10 (map line_of rows) in
    let all : length (line ++ others) ≡ length line + length others = length-append line others in
    let read : columns false row (some []) ≡ some line =
      columns-line_of row [] (omega (arith, h, all)) in
    rw read (all_rows-behind rows line (omega (arith, h, all)))

module _ {C W : Type 0} (sqlite : Sqlite C W) where
  -- On a connection, and an answer whose text leaves three bytes of the buffer, `db_query` returns a line for
  -- each row, with tabs between its columns.
  pub db_query-table_text :
      (connection : ℕ) (sql : Bytes) (c : C) (rows : List Row) (w : W) (t : Databases C W)
      → 0 < connection
      → connection < 1024
      → get_elem? t.connections connection ≡ some (some c)
      → sqlite.query c sql t.world ≡ (some rows, w)
      → length (table_text rows) + 2 < buffer_size
      → db_query sqlite connection (some sql) t ≡ returns (table_text rows) (record t { world = w })
  unfolding db_query with_connection
  db_query-table_text connection sql c rows w t positive low there answer fits =
      let inside : (connection == 0 || leb (2 ^ 63) connection || leb 1024 connection) ≡ false =
        ground (arith, positive, low) in
      rw (inside, there, answer, all_rows-table_text rows fits) refl
