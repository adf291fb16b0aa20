-- ===== src/Emitted/Db.antt =====
-- The databases of the emitted C, `db_connect` to `db_close` in `emit_runtime` of compiler/dmc.cpp, where it
-- is compiled with sqlite. What sqlite does is a parameter.
pub mod Rows
pub mod Bounds
use demonic_c.Base.{
  ℕ, ◌+◌, ◌^◌, Bool, true, false, not, ◌||◌, ◌&&◌, List, [], ◌∷◌, ◌++◌, Option, none, some,
  if◌then◌else◌, ltb, leb, ◌==◌, length, get_elem?, set_elem, drop,
}
use demonic_c.Text.{Bytes, codes, starts_with}
use demonic_c.Emitted.Handles.{Effect, returns, undefined, minus_one}

-- A row of an answer: the text of each column, where `none` is a null pointer.
abbrev pub Row : Type 0
Row = List (Option Bytes)

-- What is called of sqlite. `query` is `sqlite3_prepare_v2` with the rows that `sqlite3_step` goes through;
-- `none` is a text that is not prepared. `C` is the type of connections, and `W` what they are on.
pub record Sqlite (C W : Type 0) : Type 0 where
  pub connect : Bytes → W → Option C × W
  pub query : C → Bytes → W → Option (List Row) × W
  pub close : C → W → W

-- `_dmc_db` with its 1024 places, and `_dmc_next`, which counts the handles of buffers and files too.
pub record Databases (C W : Type 0) : Type 0 where
  pub connections : List (Option C)
  pub next : ℕ
  pub world : W

-- `sizeof(_dmc_db_buffer)`.
abbrev pub buffer_size : ℕ
buffer_size = 1048576

-- Bytes behind the `used` ones of `_dmc_db_buffer`, which are `out`. Bytes behind the buffer are undefined.
unfoldable pub append_in : Bytes → Bytes → Option Bytes
append_in out bytes =
    if ltb buffer_size (length out + length bytes) then none else some (out ++ bytes)

-- `value ? (const char *)value : ""`.
abbrev pub text_of : Option Bytes → Bytes
text_of none = []
text_of (some text) = text

abbrev pub then_append : Bytes → Option Bytes → Option Bytes
then_append bytes none = none
then_append bytes (some out) = append_in out bytes

-- The loop over the columns. `later` is `i`.
unfoldable pub columns : Bool → Row → Option Bytes → Option Bytes
unfolding append_in
columns later row none = none
columns later [] (some out) = some out
columns later (value ∷ row) (some out) =
    let rest =
      columns true row
        (then_append (text_of value) (if later then append_in out (9 ∷ []) else some out)) in
    if leb buffer_size (length out + length (text_of value) + 2) then some out else rest

-- The newline in front of a row, where there is room.
abbrev pub line_break : Bool → Bytes → Option Bytes
line_break first out =
    if not first && ltb (length out + 1) buffer_size then append_in out (10 ∷ []) else some out

-- The loop over the rows, and the null byte behind them.
unfoldable pub all_rows : Bool → List Row → Option Bytes → Option Bytes
unfolding columns append_in
all_rows first rows none = none
all_rows first [] (some out) = if ltb (length out) buffer_size then some out else none
all_rows first (row ∷ rows) (some out) =
    all_rows false rows (columns false row (line_break first out))

module _ {C W : Type 0} (sqlite : Sqlite C W) where
  abbrev pub connected : ℕ → List (Option C) → Option C × W → Effect (Databases C W) ℕ
  connected next connections (none, w) =
      returns minus_one (record { connections = connections; next = next; world = w })
  connected next connections (some c, w) =
      if leb 2147483647 next || leb (length connections) next
      then undefined
      else returns next
          (record { connections = set_elem connections next (some c); next = next + 1; world = w })

  -- A null pointer is `none`.
  unfoldable pub db_connect : Option Bytes → Databases C W → Effect (Databases C W) ℕ
  unfolding starts_with set_elem
  db_connect none t = returns minus_one t
  db_connect (some url) t =
      if starts_with (codes "sqlite://") url
      then connected t.next t.connections (sqlite.connect (drop 9 url) t.world)
      else returns minus_one t

  -- `connection <= 0 || connection >= 1024 || !_dmc_db[connection]`.
  abbrev pub on_connection :
      {A : Type 0}
      → A
      → (C → Databases C W → Effect (Databases C W) A)
      → Option (Option C)
      → Databases C W
      → Effect (Databases C W) A
  on_connection otherwise k none t = undefined
  on_connection otherwise k (some none) t = returns otherwise t
  on_connection otherwise k (some (some c)) t = k c t

  unfoldable pub with_connection :
      {A : Type 0}
      → ℕ
      → A
      → (C → Databases C W → Effect (Databases C W) A)
      → Databases C W
      → Effect (Databases C W) A
  with_connection connection otherwise k t =
      if connection == 0 || leb (2 ^ 63) connection || leb 1024 connection
      then returns otherwise t
      else on_connection otherwise k (get_elem? t.connections connection) t

  abbrev pub or_undefined : Databases C W → Option Bytes → Effect (Databases C W) Bytes
  or_undefined t none = undefined
  or_undefined t (some text) = returns text t

  abbrev pub answered : Databases C W → Option (List Row) × W → Effect (Databases C W) Bytes
  answered t (none, w) = returns [] (record t { world = w })
  answered t (some rows, w) = or_undefined (record t { world = w }) (all_rows true rows (some []))

  abbrev pub query_on : Option Bytes → C → Databases C W → Effect (Databases C W) Bytes
  query_on none c t = returns [] t
  query_on (some sql) c t = answered t (sqlite.query c sql t.world)

  -- The result is the string that is in `_dmc_db_buffer` then.
  unfoldable pub db_query : ℕ → Option Bytes → Databases C W → Effect (Databases C W) Bytes
  unfolding with_connection all_rows
  db_query connection sql = with_connection connection [] (query_on sql)

  unfoldable pub db_close : ℕ → Databases C W → Effect (Databases C W) ℕ
  unfolding with_connection set_elem
  db_close connection = with_connection connection minus_one λ c t. returns 0 (record t {
    connections = set_elem t.connections connection none;
    world = sqlite.close c t.world;
  })
