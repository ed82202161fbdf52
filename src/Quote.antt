-- ===== src/Quote.antt =====
-- src_py/connection.py, `_quote_identifier` and `_json_string_literal`: names and texts of JSON as parts
-- of a query.
pub mod Readers
mod Tests
use ladybug_python.Base.{ℕ, List, [], ◌∷◌, ◌++◌, nat_eq, ◌==◌, if◌then◌else◌}
use ladybug_python.Text.{Text, codes}

-- `str.replace` of one character
unfoldable pub replace : ℕ → Text → Text → Text
replace c by [] = []
replace c by (d ∷ t) = (if d == c then by else d ∷ []) ++ replace c by t

unfoldable pub quote_identifier : Text → Text
unfolding replace
quote_identifier name = b'`' ∷ replace b'`' (codes "``") name ++ b'`' ∷ []

unfoldable pub json_string_literal : Text → Text
unfolding replace
json_string_literal value =
    b'\'' ∷ replace b'\'' (codes "\\u0027") (replace b'\\' (codes "\\\\") value) ++ b'\'' ∷ []
