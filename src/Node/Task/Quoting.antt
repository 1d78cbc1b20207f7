-- ===== src/Node/Task/Quoting.antt =====
-- Quoting for a POSIX shell.
use uprava.Prelude.{
  ℕ, ◌≡◌, refl, sym, ap, inl, inr, Bool, ◌&&◌, ◌||◌, Option, none, some, [], ◌∷◌, ◌++◌, Text, leb,
  ◌==◌, if◌then◌else◌, Bool-cases, and_then, option_map, ==_iff,
}
use uprava.Node.Task.{escape_quotes, shell_quote}

-- How a shell reads one word: outside quotes, behind a backslash, and inside single quotes. Outside
-- quotes only letters and digits are taken to stand for themselves.
pub data Reading : Type 0 where
  outside : Reading
  escaped : Reading
  quoted : Reading

is_alphanumeric : ℕ → Bool
is_alphanumeric c = leb 48 c && leb c 57 || leb 65 c && leb c 90 || leb 97 c && leb c 122

-- What one character does: the next state and what it adds to the word, unless it ends the word.
next : Reading → ℕ → Option (Reading × Text)
unfolding is_alphanumeric
next escaped c = some (outside, c ∷ [])
next quoted c = if c == 39 then some (outside, []) else some (quoted, c ∷ [])
next outside c =
    if c == 39
    then some (quoted, [])
    else if c == 92
    then some (escaped, [])
    else if is_alphanumeric c
    then some (outside, c ∷ [])
    else none

ends : Reading → Option Text
ends outside = some []
ends _ = none

-- The word that a text stands for, if it is one word.
unfoldable pub read_word : Reading → Text → Option Text
unfolding next ends
read_word r [] = ends r
read_word r (c ∷ s) = and_then (next r c) (λ p. option_map (λ w. p.1 ++ w) (read_word p.0 s))

read_word-escape_quotes :
    (value : Text) → read_word Reading.quoted (escape_quotes value ++ 39 ∷ []) ≡ some value
unfolding read_word escape_quotes next ends
read_word-escape_quotes [] = refl
read_word-escape_quotes (c ∷ s) = elim (Bool-cases (c == 39)) [
  | inl e ↦ rw (e, read_word-escape_quotes s) (ap (λ d. some (d ∷ s)) (sym ((==_iff c 39).0 e)))
  | inr e ↦ rw (e, e, read_word-escape_quotes s) refl
]

-- A shell that is given the quoted text reads it as one word, the text itself, whatever it contains.
pub shell_quote_lem : (value : Text) → read_word Reading.outside (shell_quote value) ≡ some value
unfolding shell_quote read_word next
shell_quote_lem value = rw (read_word-escape_quotes value) refl
