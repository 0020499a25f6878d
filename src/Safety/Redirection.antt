-- ===== src/Safety/Redirection.antt =====
-- The guard against output redirection: `_contains_unsafe_redirection` of
-- minicodex/agent/safety/safety.py with its two helpers. A round of the loop is `step`; an index into the
-- command is the text from there on.
pub mod Rounds
pub mod Writes
use mini_codex.Common.{
  ℕ, zero, suc, ◌+◌, ◌-◌, Bool, true, false, not, ◌&&◌, ◌||◌, Option, none, some, List, [], ◌∷◌,
  reverse, Text, codes, same, lstrip, is_empty, is_space, length, drop, ◌==◌, if◌then◌else◌,
}
use mini_codex.Validation.Regression.{starts_with}

abbrev pub double_quote : ℕ
double_quote = 34

abbrev pub single_quote : ℕ
single_quote = 39

abbrev pub backslash : ℕ
backslash = 92

abbrev pub is_quote : ℕ → Bool
is_quote c = c == single_quote || c == double_quote

-- `command.startswith("$(", index)`, at `c ∷ s`
abbrev pub opens : ℕ → Text → Bool
opens c s = starts_with (codes "$(") (c ∷ s)

-- What one round of `_extract_command_substitution` does at a character.
pub data Lexeme : Type 0 where
  pair opening closing : Lexeme
  single : Option ℕ → Lexeme

unfoldable pub lexeme : Option ℕ → ℕ → Text → Lexeme
lexeme (some q) c s =
    if q == double_quote && c == backslash
    then pair
    else if c == q
    then single none
    else single (some q)
lexeme none c s =
    if is_quote c
    then single (some c)
    else if c == backslash
    then pair
    else if opens c s
    then opening
    else if c == b')'
    then closing
    else single none

abbrev pub prepend : ℕ → Option (Text × Text) → Option (Text × Text)
prepend c none = none
prepend c (some (body, rest)) = some (c ∷ body, rest)

-- The body of `$(...)` and what stands after it.
unfoldable pub extract_command_substitution : ℕ → Option ℕ → Text → Option (Text × Text)
extract_command_substitution depth q [] = none
extract_command_substitution depth q (c ∷ []) = elim (lexeme q c []) [
  | closing ↦ if depth == 1 then some ([], []) else none
  | _ ↦ none
]
extract_command_substitution depth q (c ∷ d ∷ s) = elim (lexeme q c (d ∷ s)) [
  | pair ↦ prepend c (prepend d (extract_command_substitution depth q s))
  | opening ↦ prepend c (prepend d (extract_command_substitution (depth + 1) q s))
  | closing ↦
      let rest = prepend c (extract_command_substitution (depth - 1) q (d ∷ s)) in
      if depth == 1 then some ([], d ∷ s) else rest
  | single q' ↦ prepend c (extract_command_substitution depth q' (d ∷ s))
]

unfoldable pub extract_backtick_command : Text → Option (Text × Text)
extract_backtick_command [] = none
extract_backtick_command (c ∷ []) = if c == b'`' then some ([], []) else none
extract_backtick_command (c ∷ d ∷ s) =
    let escaped = prepend c (prepend d (extract_backtick_command s)) in
    let further = prepend c (extract_backtick_command (d ∷ s)) in
    if c == backslash then escaped else if c == b'`' then some ([], d ∷ s) else further

-- What one round of the loop leads to: a verdict, the next round, or a command inside that is looked at first.
pub data Move : Type 0 where
  stop : Bool → Move
  go : Option ℕ → Text → Move
  nested : Text → Option ℕ → Text → Move

abbrev pub inside : Option ℕ → Option (Text × Text) → Move
inside q none = stop true
inside q (some (body, rest)) = nested body q rest

abbrev pub ends_target : ℕ → Bool
ends_target c = is_space c || c == b';' || c == b'|' || c == b'&'

unfoldable pub target_of : Text → Text
target_of [] = []
target_of (c ∷ s) = if ends_target c then [] else c ∷ target_of s

unfoldable pub after_target : Text → Text
after_target [] = []
after_target (c ∷ s) = if ends_target c then c ∷ s else after_target s

unfoldable pub lstrip_quotes : Text → Text
lstrip_quotes [] = []
lstrip_quotes (c ∷ s) = if is_quote c then lstrip_quotes s else c ∷ s

unfoldable pub strip_quotes : Text → Text
unfolding lstrip_quotes
strip_quotes s = reverse (lstrip_quotes (reverse (lstrip_quotes s)))

unfoldable pub is_safe_target : Text → Bool
unfolding strip_quotes
is_safe_target t = not (is_empty (strip_quotes t)) && same (strip_quotes t) (codes "/dev/null")

-- From behind `>`, `>>` and white space.
unfoldable pub redirect : Text → Move
redirect [] = stop true
redirect (c ∷ s) =
    if c == b'&'
    then go none s
    else if is_safe_target (target_of (c ∷ s))
    then go none (after_target (c ∷ s))
    else stop true

abbrev pub skip_second : Text → Text
skip_second [] = []
skip_second (c ∷ s) = if c == b'>' then s else c ∷ s

unfoldable pub step : Option ℕ → Text → Move
step q [] = stop false
step (some q) (c ∷ s) =
    if q == double_quote && c == backslash
    then go (some q) (drop 1 s)
    else if c == q
    then go none s
    else if q == double_quote && opens c s
    then inside (some q) (extract_command_substitution 1 none (drop 1 s))
    else if q == double_quote && c == b'`'
    then inside (some q) (extract_backtick_command s)
    else go (some q) s
step none (c ∷ s) =
    if is_quote c
    then go (some c) s
    else if c == backslash
    then go none (drop 1 s)
    else if opens c s
    then inside none (extract_command_substitution 1 none (drop 1 s))
    else if c == b'`'
    then inside none (extract_backtick_command s)
    else if c == b'>'
    then redirect (lstrip (skip_second s))
    else go none s

-- The loop, with fuel for its rounds and those of the commands inside.
unfoldable pub scan : ℕ → Option ℕ → Text → Bool
scan zero q s = true
scan (suc fuel) q s = elim (step q s) [
  | stop b ↦ b
  | go q' rest ↦ scan fuel q' rest
  | nested body q' rest ↦ elim (scan fuel none body) [ true ↦ true | false ↦ scan fuel q' rest ]
]

unfoldable pub scan_from : Option ℕ → Text → Bool
unfolding scan
scan_from q s = scan (suc (length s)) q s

unfoldable pub contains_unsafe_redirection : Text → Bool
unfolding scan_from
contains_unsafe_redirection command = scan_from none command
