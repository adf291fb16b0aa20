-- ===== src/Emitted/Db/Bounds.antt =====
-- `db_query` of the emitted C against the size of its buffer.
use demonic_c.Base.{
  ℕ, ◌+◌, ◌<◌, ◌≡◌, refl, get_elem?, get_elem?-inside, Option-cases, ◌^◌, Bool, true, false, not,
  ◌&&◌, ◌||◌, ◌==◌, List, [], ◌∷◌, ◌++◌, Option, none, some, if◌then◌else◌, ltb, leb, length,
  length-append, if_intro, inl, inr, arith,
}
use demonic_c.Text.{Bytes}
use demonic_c.Emitted.Handles.{Effect, returns}
use demonic_c.Emitted.Db.{
  Row, Sqlite, Databases, buffer_size, append_in, text_of, then_append, columns, line_break,
  all_rows, db_query, query_on, answered, or_undefined, with_connection,
}

-- Bytes that leave room for the null byte behind them.
data IsShort : Option Bytes → Type 0 where
  short : {out : Bytes} → length out < buffer_size → IsShort (some out)

append_in-IsShort :
    (out bytes : Bytes) → length out + length bytes < buffer_size → IsShort (append_in out bytes)
unfolding append_in
append_in-IsShort out bytes h =
    let room : ltb buffer_size (length out + length bytes) ≡ false = ground (arith, h) in
    rw room (short (omega (arith, h, length-append out bytes)))

columns-IsShort :
    (later : Bool) (row : Row) {out : Option Bytes} → IsShort out → IsShort (columns later row out)
unfolding columns append_in
columns-IsShort later [] (short h) = short h
columns-IsShort later (value ∷ row) (short {out} h) =
    if_intro IsShort (leb buffer_size (length out + length (text_of value) + 2)) (λ _. short h)
      λ e. columns-IsShort true row (column later e)
  where
    column :
        (later : Bool)
        → leb buffer_size (length out + length (text_of value) + 2) ≡ false
        → IsShort (then_append (text_of value) (if later then append_in out (9 ∷ []) else some out))
    column true e =
        let one : length (out ++ (9 ∷ [])) ≡ length out + 1 = length-append out (9 ∷ []) in
        let room : ltb buffer_size (length out + 1) ≡ false = ground (arith, e) in
        rw room (append_in-IsShort (out ++ (9 ∷ [])) (text_of value) (ground (arith, e, one)))
    column false e = append_in-IsShort out (text_of value) (ground (arith, e))

line_break-IsShort :
    (first : Bool) (out : Bytes) → length out < buffer_size → IsShort (line_break first out)
line_break-IsShort first out h =
    if_intro IsShort (not first && ltb (length out + 1) buffer_size)
      (λ e. append_in-IsShort out (10 ∷ []) (ground (arith, e))) (λ _. short h)

all_rows-IsShort :
    (first : Bool) (rows : List Row) {out : Option Bytes}
    → IsShort out
    → IsShort (all_rows first rows out)
unfolding all_rows
all_rows-IsShort first [] (short {out} h) =
    let room : ltb (length out) buffer_size ≡ true = ground (arith, h) in rw room (short h)
all_rows-IsShort first (row ∷ rows) (short {out} h) =
    all_rows-IsShort false rows (columns-IsShort false row (line_break-IsShort first out h))

module _ {C W : Type 0} (sqlite : Sqlite C W) where
  -- A call that returns a string that fits the buffer with its null byte.
  record Fits (r : Effect (Databases C W) Bytes) : Type 0 where
    fits : (text : Bytes) × (t : Databases C W) × (r ≡ returns text t) × (length text < buffer_size)

  or_undefined-Fits :
      (t : Databases C W) {out : Option Bytes} → IsShort out → Fits (or_undefined sqlite t out)
  or_undefined-Fits t (short {out} h) = record { fits = (out, t, refl, h) }

  returned : (t : Databases C W) → Fits (returns [] t)
  returned t = record { fits = ([], t, refl, omega arith) }

  query_on-Fits : (sql : Option Bytes) (c : C) (t : Databases C W) → Fits (query_on sqlite sql c t)
  query_on-Fits none c t = returned t
  query_on-Fits (some sql) c t = answered-Fits (sqlite.query c sql t.world)
    where
      answered-Fits : (r : Option (List Row) × W) → Fits (answered sqlite t r)
      answered-Fits (none, w) = returned (record t { world = w })
      answered-Fits (some rows, w) =
          or_undefined-Fits (record t { world = w })
            (all_rows-IsShort true rows (short {out = []} (omega arith)))

  -- With the 1024 places, `db_query` writes nothing behind its buffer, whatever the connection, the text and
  -- the rows: it returns a string that leaves room for the null byte.
  pub db_query-Fits :
      (connection : ℕ) (sql : Option Bytes) (t : Databases C W)
      → length t.connections ≡ 1024
      → (text : Bytes) × (t' : Databases C W) × (db_query sqlite connection sql t ≡ returns text t')
        × (length text < buffer_size)
  unfolding db_query with_connection
  db_query-Fits connection sql t places =
      (if_intro Fits (connection == 0 || leb (2 ^ 63) connection || leb 1024 connection)
        (λ _. returned t)
        λ e. elim (Option-cases (get_elem? t.connections connection)) [
          | inl missing ↦
              absurd (get_elem?-inside t.connections connection (ground (arith, e, places)) missing)
          | inr (none, there) ↦ rw there (returned t)
          | inr (some c, there) ↦ rw there (query_on-Fits sql c t)
        ]).fits
