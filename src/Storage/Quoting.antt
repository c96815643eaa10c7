-- ===== src/Storage/Quoting.antt =====
-- examples/storage/repl.go: `splitQuoted`, which takes a line apart into arguments.
use gorums_ata.Base.{
  ℕ, ◌≡◌, refl, sym, ap, ◌∙◌, ◌⊎◌, inl, inr, Bool, true, false, ◌||◌, Option, none, some, List, [],
  ◌∷◌, ◌++◌, arith, ◌==◌, if◌then◌else◌, Bool-cases, is_some,
}
use gorums_ata.Storage.Text.{Text, is_space}
use mathlib.Core.List.{append-nil, append_assoc}

pub data QuoteError : Type 0 where
  unfinished_escape unterminated_quote : QuoteError

-- The variables of `splitQuoted`. `quote` is `none` where the code has 0.
pub record Splitter : Type 0 where
  args : List Text
  current : Text
  quote : Option ℕ
  escaped : Bool
  in_arg : Bool

abbrev empty_splitter : Splitter
empty_splitter = record { args = []; current = []; quote = none; escaped = false; in_arg = false }

-- `currentArg.WriteRune(r); inArg = true`
unfoldable write_rune : ℕ → Splitter → Splitter
write_rune r s = record s { current = s.current ++ (r ∷ []); in_arg = true }

-- `flush`
unfoldable flush : Splitter → Splitter
flush s =
    if s.in_arg
    then record s { args = s.args ++ (s.current ∷ []); current = []; in_arg = false }
    else s

-- One turn of the loop over the line.
unfoldable pub split_rune : ℕ → Splitter → Splitter
unfolding write_rune flush
split_rune r s = if s.escaped then record (write_rune r s) { escaped = false } else elim s.quote [
  | some q ↦
      if r == 92
      then record s { escaped = true; in_arg = true }
      else if r == q
      then record s { quote = none; in_arg = true }
      else write_rune r s
  | none ↦
      if r == 39 || r == 34
      then record s { quote = some r; in_arg = true }
      else if is_space r
      then flush s
      else if r == 92
      then record s { escaped = true; in_arg = true }
      else write_rune r s
]

unfoldable pub split_runes : Text → Splitter → Splitter
split_runes [] s = s
split_runes (r ∷ rs) s = split_runes rs (split_rune r s)

unfoldable split_end : Splitter → List Text ⊎ QuoteError
unfolding flush
split_end s =
    if s.escaped
    then inr unfinished_escape
    else if is_some s.quote
    then inr unterminated_quote
    else inl ((flush s).args)

-- `splitQuoted`
unfoldable pub split_quoted : Text → List Text ⊎ QuoteError
unfolding split_runes split_rune split_end
split_quoted line = split_end (split_runes line empty_splitter)

-- An argument in double quotes, with `\` before each `"` and `\`.
unfoldable pub escape : Text → Text
escape [] = []
escape (r ∷ rs) = let rest = escape rs in if r == 34 || r == 92 then 92 ∷ r ∷ rest else r ∷ rest

unfoldable pub quoted : Text → Text
quoted t = 34 ∷ (escape t ++ (34 ∷ []))

-- The arguments quoted, with a space behind each.
unfoldable pub quoted_line : List Text → Text
quoted_line [] = []
quoted_line (t ∷ ts) = quoted t ++ (32 ∷ quoted_line ts)

split_runes-append :
    (xs ys : Text) (s : Splitter) → split_runes (xs ++ ys) s ≡ split_runes ys (split_runes xs s)
unfolding split_runes
split_runes-append [] ys s = refl
split_runes-append (x ∷ xs) ys s = split_runes-append xs ys (split_rune x s)

abbrev in_quotes : List Text → Text → Splitter
in_quotes args current = record {
  args = args;
  current = current;
  quote = some 34;
  escaped = false;
  in_arg = true;
}

split_rune_ordinary :
    (args : List Text) (current : Text) (r : ℕ)
    → (r == 34 || r == 92) ≡ false
    → split_rune r (in_quotes args current) ≡ in_quotes args (current ++ (r ∷ []))
unfolding split_rune write_rune
split_rune_ordinary args current r h = ground arith

split_rune_escaped :
    (args : List Text) (current : Text) (r : ℕ)
    → split_rune r (split_rune 92 (in_quotes args current)) ≡ in_quotes args (current ++ (r ∷ []))
unfolding split_rune write_rune
split_rune_escaped args current r = refl

-- Inside the quotes the loop appends exactly what was escaped.
split_runes-escape :
    (args : List Text) (current t : Text)
    → split_runes (escape t) (in_quotes args current) ≡ in_quotes args (current ++ t)
unfolding split_runes escape
split_runes-escape args current [] = ap (in_quotes args) (sym (append-nil current))
split_runes-escape args current (r ∷ rs) =
    let later = split_runes-escape args (current ++ (r ∷ [])) rs in
    let joined = append_assoc current (r ∷ []) rs in
    elim (Bool-cases (r == 34 || r == 92)) [
      | inl special ↦ rw special (
          ap (split_runes (escape rs)) (split_rune_escaped args current r)
          ∙ later
          ∙ ap (in_quotes args) joined)
      | inr ordinary ↦ rw ordinary (
          ap (split_runes (escape rs)) (split_rune_ordinary args current r ordinary)
          ∙ later
          ∙ ap (in_quotes args) joined)
    ]

abbrev between : List Text → Splitter
between args = record { args = args; current = []; quote = none; escaped = false; in_arg = false }

split_rune_open : (args : List Text) → split_rune 34 (between args) ≡ in_quotes args []
unfolding split_rune
split_rune_open args = refl

split_rune_close :
    (args : List Text) (t : Text)
    → split_rune 32 (split_rune 34 (in_quotes args t)) ≡ between (args ++ (t ∷ []))
unfolding split_rune flush is_space
split_rune_close args t = refl

split_runes-quoted :
    (args : List Text) (t : Text)
    → split_rune 32 (split_runes (quoted t) (between args)) ≡ between (args ++ (t ∷ []))
unfolding quoted split_runes
split_runes-quoted args t =
    ap (λ s. split_rune 32 (split_runes (escape t ++ (34 ∷ [])) s)) (split_rune_open args)
    ∙ ap (split_rune 32) (split_runes-append (escape t) (34 ∷ []) (in_quotes args []))
    ∙ ap (λ s. split_rune 32 (split_rune 34 s)) (split_runes-escape args [] t)
    ∙ split_rune_close args t

split_runes-quoted_line :
    (args ts : List Text) → split_runes (quoted_line ts) (between args) ≡ between (args ++ ts)
unfolding split_runes quoted_line
split_runes-quoted_line args [] = ap between (sym (append-nil args))
split_runes-quoted_line args (t ∷ ts) =
    split_runes-append (quoted t) (32 ∷ quoted_line ts) (between args)
    ∙ ap (split_runes (quoted_line ts)) (split_runes-quoted args t)
    ∙ split_runes-quoted_line (args ++ (t ∷ [])) ts
    ∙ ap between (append_assoc args (t ∷ []) ts)

-- `splitQuoted` gives back any arguments, empty ones and ones with spaces, quotes and backslashes
-- included, from the line that quotes each of them.
pub split_quoted-quoted_line : (ts : List Text) → split_quoted (quoted_line ts) ≡ inl ts
unfolding split_quoted split_end flush
split_quoted-quoted_line ts = rw (split_runes-quoted_line [] ts) refl
