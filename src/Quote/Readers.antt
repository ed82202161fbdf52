-- ===== src/Quote/Readers.antt =====
-- What a reader of the query language finds in the texts that are quoted. The reader is the engine's, and
-- a parameter.
use ladybug_python.Base.{
  ℕ, ◌≡◌, ap, ◌∙◌, arith, Bool, true, false, Option, none, some, [], ◌∷◌, ◌++◌, nat_eq, ◌==◌,
  Bool-cases, inl, inr, if◌then◌else◌,
}
use ladybug_python.Text.{Text, codes}
use ladybug_python.Quote.{replace, quote_identifier, json_string_literal}

-- What is read, and what is left of the query.
abbrev pub Read : Type 0
Read = Option (Text × Text)

abbrev pub prepend : ℕ → Read → Read
prepend c none = none
prepend c (some (name, rest)) = some (c ∷ name, rest)

-- No backtick follows.
abbrev pub starts_otherwise : Text → Bool
starts_otherwise [] = true
starts_otherwise (c ∷ t) = if c == b'`' then false else true

-- A reader of names in backticks, from after the first backtick on: one backtick ends the name, two
-- are one of its characters, and every other character is itself.
pub record NameReader : Type 0 where
  pub read : Text → Read
  pub ends : (t : Text) → starts_otherwise t ≡ true → read (b'`' ∷ t) ≡ some ([], t)
  pub doubled : (t : Text) → read (b'`' ∷ b'`' ∷ t) ≡ prepend b'`' (read t)
  pub plain : (c : ℕ) (t : Text) → (c == b'`') ≡ false → read (c ∷ t) ≡ prepend c (read t)

-- A reader of literals in quotes, from after the first quote on: a quote ends the literal, two
-- backslashes are one, `\u0027` is a quote, and every character but a backslash is itself.
pub record LiteralReader : Type 0 where
  pub read : Text → Read
  pub ends : (t : Text) → read (b'\'' ∷ t) ≡ some ([], t)
  pub backslash : (t : Text) → read (b'\\' ∷ b'\\' ∷ t) ≡ prepend b'\\' (read t)
  pub quote : (t : Text) → read (codes "\\u0027" ++ t) ≡ prepend b'\'' (read t)
  pub plain :
      (c : ℕ) (t : Text)
      → (c == b'\'') ≡ false
      → (c == b'\\') ≡ false
      → read (c ∷ t) ≡ prepend c (read t)

-- What follows the first character, where that is the expected one.
abbrev pub read_after : ℕ → (Text → Read) → Text → Read
read_after first read [] = none
read_after first read (c ∷ t) = if c == first then read t else none

module _ (reader : NameReader) where
  read-replace :
      (name rest : Text)
      → starts_otherwise rest ≡ true
      → reader.read ((replace b'`' (codes "``") name ++ b'`' ∷ []) ++ rest) ≡ some (name, rest)
  unfolding replace
  read-replace [] rest h = reader.ends rest h
  read-replace (c ∷ name) rest h =
      let t = (replace b'`' (codes "``") name ++ b'`' ∷ []) ++ rest in
      elim (Bool-cases (c == b'`')) [
        | inl e ↦ ground (arith, e, reader.doubled t, read-replace name rest h)
        | inr ne ↦ ground (arith, ne, reader.plain c t ne, read-replace name rest h)
      ]

-- With every reader by which one backtick ends a name and two are one: a quoted name is read back as the
-- name, whatever its characters are, and what follows it is left, unless that starts with another
-- backtick.
pub identifier_reads_back :
    (reader : NameReader) (name rest : Text)
    → starts_otherwise rest ≡ true
    → read_after b'`' reader.read (quote_identifier name ++ rest) ≡ some (name, rest)
unfolding quote_identifier
identifier_reads_back reader name rest h = read-replace reader name rest h

module _ (reader : LiteralReader) where
  read-char :
      (c : ℕ) (t rest : Text)
      → reader.read (
          (replace b'\'' (codes "\\u0027") ((if c == b'\\' then codes "\\\\" else c ∷ []) ++ t)
            ++ b'\'' ∷ [])
          ++ rest)
        ≡ prepend c (reader.read ((replace b'\'' (codes "\\u0027") t ++ b'\'' ∷ []) ++ rest))
  unfolding replace
  read-char c t rest =
      let u = (replace b'\'' (codes "\\u0027") t ++ b'\'' ∷ []) ++ rest in
      elim (Bool-cases (c == b'\\')) [
        | inl e ↦ ground (arith, e, reader.backslash u)
        | inr other ↦ elim (Bool-cases (c == b'\'')) [
          | inl e ↦ ground (arith, e, other, reader.quote u)
          | inr ne ↦ ground (arith, ne, other, reader.plain c u ne other)
        ]
      ]

  read-literal :
      (value rest : Text)
      → reader.read (
          (replace b'\'' (codes "\\u0027") (replace b'\\' (codes "\\\\") value) ++ b'\'' ∷ [])
          ++ rest)
        ≡ some (value, rest)
  unfolding replace
  read-literal [] rest = reader.ends rest
  read-literal (c ∷ value) rest =
      read-char c (replace b'\\' (codes "\\\\") value) rest
      ∙ ap (prepend c) (read-literal value rest)

-- With every reader by which a quote ends a literal, two backslashes are one and `\u0027` is a quote: a
-- literal is read back as its text, whatever its characters are, and what follows it is left.
pub literal_reads_back :
    (reader : LiteralReader) (value rest : Text)
    → read_after b'\'' reader.read (json_string_literal value ++ rest) ≡ some (value, rest)
unfolding json_string_literal
literal_reads_back reader value rest = read-literal reader value rest
