-- ===== src/Quote/Tests.antt =====
-- A name with a backtick, and a text with quotes and backslashes, with readers of the kind that is asked
-- for.
use ladybug_python.Base.{
  ℕ, ◌+◌, ◌*◌, ◌-◌, ◌≡◌, refl, arith, Bool, true, false, ◌&&◌, none, some, [], ◌∷◌, ◌++◌, nat_eq,
  ◌==◌, leb, if◌then◌else◌,
}
use ladybug_python.Text.{Text, codes}
use ladybug_python.Quote.{quote_identifier, json_string_literal}
use ladybug_python.Quote.Readers.{
  Read, prepend, starts_otherwise, NameReader, LiteralReader, read_after, identifier_reads_back,
  literal_reads_back,
}

unfoldable in_backticks : Bool → Text → Read
in_backticks false [] = none
in_backticks true [] = some ([], [])
in_backticks false (c ∷ t) = elim (c == b'`') [
  | true ↦ in_backticks true t
  | false ↦ prepend c (in_backticks false t)
]
in_backticks true (c ∷ t) = elim (c == b'`') [
  | true ↦ prepend b'`' (in_backticks false t)
  | false ↦ some ([], c ∷ t)
]

-- The value of a hexadecimal digit.
abbrev pub digit : ℕ → ℕ
digit c = if leb b'0' c && leb c b'9' then c - 48 else if leb b'a' c then c - 87 else c - 55

-- The rest of a text in quotes, with the escapes of a backslash and of a code point.
unfoldable mutual
  in_quotes : Text → Read
  in_quotes [] = none
  in_quotes (c ∷ t) = elim (c == b'\'') [
    | true ↦ some ([], t)
    | false ↦ elim (c == b'\\') [ true ↦ escape t | false ↦ prepend c (in_quotes t) ]
  ]

  escape : Text → Read
  escape [] = none
  escape (c ∷ t) = elim (c == b'\\') [
    | true ↦ prepend c (in_quotes t)
    | false ↦ elim (c == b'u') [ true ↦ code_point t | false ↦ none ]
  ]

  code_point : Text → Read
  code_point (a ∷ b ∷ d ∷ e ∷ t) =
      prepend (((digit a * 16 + digit b) * 16 + digit d) * 16 + digit e) (in_quotes t)
  code_point _ = none

in_backticks-end :
    (t : Text) → starts_otherwise t ≡ true → in_backticks false (b'`' ∷ t) ≡ some ([], t)
unfolding in_backticks
in_backticks-end [] h = refl
in_backticks-end (c ∷ t) h = ground (arith, h)

in_backticks-plain :
    (c : ℕ) (t : Text)
    → (c == b'`') ≡ false
    → in_backticks false (c ∷ t) ≡ prepend c (in_backticks false t)
unfolding in_backticks
in_backticks-plain c t h = ground (arith, h)

in_quotes-plain :
    (c : ℕ) (t : Text)
    → (c == b'\'') ≡ false
    → (c == b'\\') ≡ false
    → in_quotes (c ∷ t) ≡ prepend c (in_quotes t)
unfolding in_quotes
in_quotes-plain c t h k = ground (arith, h, k)

doubled : (t : Text) → in_backticks false (b'`' ∷ b'`' ∷ t) ≡ prepend b'`' (in_backticks false t)
unfolding in_backticks
doubled t = refl

two_backslashes : (t : Text) → in_quotes (b'\\' ∷ b'\\' ∷ t) ≡ prepend b'\\' (in_quotes t)
unfolding in_quotes
two_backslashes t = refl

code_of_quote : (t : Text) → in_quotes (codes "\\u0027" ++ t) ≡ prepend b'\'' (in_quotes t)
unfolding in_quotes
code_of_quote t = refl

end_of_quotes : (t : Text) → in_quotes (b'\'' ∷ t) ≡ some ([], t)
unfolding in_quotes
end_of_quotes t = refl

abbrev names : NameReader
names = record {
  read = in_backticks false;
  ends = in_backticks-end;
  doubled = doubled;
  plain = in_backticks-plain;
}

abbrev literals : LiteralReader
literals = record {
  read = in_quotes;
  ends = end_of_quotes;
  backslash = two_backslashes;
  quote = code_of_quote;
  plain = in_quotes-plain;
}

identifier_reads_back_example :
    read_after b'`'
      (in_backticks false)
      (quote_identifier (codes "a`) DETACH DELETE (n") ++ codes " RETURN")
    ≡ some (codes "a`) DETACH DELETE (n", codes " RETURN")
identifier_reads_back_example =
    identifier_reads_back names (codes "a`) DETACH DELETE (n") (codes " RETURN") refl

literal_reads_back_example :
    read_after b'\'' in_quotes (json_string_literal (codes "it's \\ ") ++ codes "' AS")
    ≡ some (codes "it's \\ ", codes "' AS")
literal_reads_back_example = literal_reads_back literals (codes "it's \\ ") (codes "' AS")

quoted_twice : quote_identifier (codes "a`b") ≡ codes "`a``b`"
unfolding quote_identifier
quoted_twice = refl

escaped_quote : json_string_literal (codes "'\\") ≡ codes "'\\u0027\\\\'"
unfolding json_string_literal
escaped_quote = refl
