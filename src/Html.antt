-- ===== src/Html.antt =====
-- `html_escape` of compiler/dmc.cpp, which `cmd_doc` puts every path and line through.
pub mod Decode
use demonic_c.Base.{ℕ, Bool, List, [], ◌∷◌, ◌++◌, ◌==◌, if◌then◌else◌}
use demonic_c.Text.{Bytes, codes}

unfoldable pub escape_byte : ℕ → Bytes
escape_byte c =
    if c == b'&'
    then codes "&amp;"
    else if c == b'<'
    then codes "&lt;"
    else if c == b'>'
    then codes "&gt;"
    else if c == b'"'
    then codes "&quot;"
    else c ∷ []

unfoldable pub html_escape : Bytes → Bytes
unfolding escape_byte
html_escape [] = []
html_escape (c ∷ cs) = escape_byte c ++ html_escape cs
