-- ===== src/Package/Format.antt =====
-- src/package.rs: the escapes and the pieces of Markdown that the documents are made of.
use Prim.Native.String.{◌++◌}
use canonical_company_audito.Prelude.{
  ℕ, ◌/◌, ◌%◌, ltb, String, Bool, true, false, Option, none, some, List, [], ◌∷◌, map,
  if◌then◌else◌,
}
use canonical_company_audito.Text.{decimal, concat, join, replace}

unfoldable pub inline : String → String
unfolding replace
inline value = replace b'|' "\\|" (replace b'`' "\\`" value)

unfoldable pub escape : String → String
unfolding replace
escape value = replace 10 " " (
    replace b'>' "&gt;" (
      replace b'<' "&lt;" (
        replace b']' "\\]" (
          replace b'[' "\\[" (
            replace b'_' "\\_"
              (replace b'*' "\\*" (replace b'|' "\\|" (replace b'\\' "\\\\" value))))))))

-- `writeln!(output, "**{}:** `{}`  ", escape(name), inline(value))`
unfoldable pub field : String → String → String
unfolding escape inline
field name value = concat ("**" ∷ escape name ∷ ":** `" ∷ inline value ∷ "`  \n" ∷ [])

-- ``format!("`{}`", inline(value))``
unfoldable pub code : String → String
unfolding inline
code value = concat ("`" ∷ inline value ∷ "`" ∷ [])

unfoldable pub optional_code : Option String → String
unfolding code
optional_code none = "—"
optional_code (some item) = code item

-- `{:02}` of a number below 100
abbrev pub two_digits : ℕ → String
two_digits n = if ltb n 10 then "0" ++ decimal n else decimal n

unfoldable pub percent : ℕ → String
percent basis_points =
    concat (decimal (basis_points / 100) ∷ "." ∷ two_digits (basis_points % 100) ∷ "%" ∷ [])

-- `writeln!(output, "| {} | .. | {} |", ..)`
abbrev pub row : List String → String
row cells = concat ("| " ∷ join " | " cells ∷ " |\n" ∷ [])

-- `collect::<Vec<_>>().join("<br>")` of the codes
abbrev pub codes : List String → String
codes values = join "<br>" (map code values)

abbrev pub bool_text : Bool → String
bool_text true = "true"
bool_text false = "false"
