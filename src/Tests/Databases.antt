-- ===== src/Tests/Databases.antt =====
-- The theorems on numerals and databases of the emitted C at -42 and at a table of users.
use demonic_c.Text.{Bytes, codes}
use demonic_c.Base.{
  ℕ, ◌+◌, ◌≡◌, refl, List, [], ◌∷◌, none, some, arith, replicate, length-replicate, length, ◌<◌,
  Option,
}
use demonic_c.Emitted.Handles.{returns}
use demonic_c.Emitted.Numerals.{text_from_int, text_to_int}
use demonic_c.Emitted.Numerals.{text_to_int-text_from_int}
use demonic_c.Emitted.Db.{Row, Sqlite, Databases, buffer_size, db_query}
use demonic_c.Emitted.Db.Bounds.{db_query-Fits}
use demonic_c.Emitted.Db.Rows.{table_text, db_query-table_text, behind as each_behind}

-- The number -42.
text_to_int-text_from_int_example :
    text_to_int (text_from_int 18446744073709551574) ≡ some 18446744073709551574
text_to_int-text_from_int_example = text_to_int-text_from_int 18446744073709551574 (omega arith)

abbrev users : List Row
users = (some (codes "1") ∷ some (codes "ada") ∷ []) ∷ (some (codes "2") ∷ none ∷ []) ∷ []

-- A database whose answers are the users.
abbrev user_base : Sqlite Bytes ℕ
user_base = record {
  connect = λ url w. (some url, w);
  query = λ c sql w. (some users, w + 1);
  close = λ c w. w;
}

abbrev open_base : Databases Bytes ℕ
open_base = record { connections = none ∷ some (codes "users.db") ∷ []; next = 2; world = 0 }

table_text-users : table_text users ≡ codes "1\tada\n2\t"
unfolding each_behind
table_text-users = refl

db_query-table_text_example :
    db_query user_base 1 (some (codes "SELECT * FROM users")) open_base
    ≡ returns (table_text users) (record open_base { world = 1 })
unfolding each_behind
db_query-table_text_example =
    db_query-table_text user_base 1 (codes "SELECT * FROM users") (codes "users.db") users 1
      open_base (omega arith) (omega arith) refl refl (omega arith)

abbrev all_open : Databases Bytes ℕ
all_open = record { connections = replicate 1024 (some (codes "users.db")); next = 1024; world = 0 }

db_query-Fits_example :
    (text : Bytes) × (t' : Databases Bytes ℕ) × (db_query user_base 1023
        (some (codes "SELECT * FROM users"))
        all_open
      ≡ returns text t')
    × (length text < buffer_size)
db_query-Fits_example =
    db_query-Fits user_base 1023 (some (codes "SELECT * FROM users")) all_open
      (length-replicate {A = Option Bytes} 1024 (some (codes "users.db")))
