-- ===== src/Recovery/Tokens.antt =====
-- The C library's strtok and fgets, as get_args of recovery.c calls them.
use cot_bootable_recovery_to.Base.{
  ℕ, zero, suc, ◌-◌, Bool, ◌||◌, List, [], ◌∷◌, ◌++◌, Option, none, some, Bytes, ◌==◌,
  if◌then◌else◌,
}

-- An empty run between delimiters is no token.
unfoldable pub flush : Bytes → List Bytes → List Bytes
flush [] rest = rest
flush (c ∷ cs) rest = (c ∷ cs) ∷ rest

-- The tokens that repeated calls of strtok give, with the part of the current one that is read.
unfoldable pub tokens_from : (ℕ → Bool) → Bytes → Bytes → List Bytes
tokens_from is_delim current [] = flush current []
tokens_from is_delim current (c ∷ cs) =
    let stop = flush current (tokens_from is_delim [] cs) in
    let more = tokens_from is_delim (current ++ (c ∷ [])) cs in if is_delim c then stop else more

unfoldable pub tokens : (ℕ → Bool) → Bytes → List Bytes
tokens is_delim text = tokens_from is_delim [] text

-- The delimiters "\n" and "\r\n".
abbrev pub is_newline : ℕ → Bool
is_newline c = c == 10

abbrev pub is_line_end : ℕ → Bool
is_line_end c = c == 13 || c == 10

-- The string in front of the first NUL of a buffer.
unfoldable pub c_string : Bytes → Bytes
c_string [] = []
c_string (c ∷ cs) = let rest = c ∷ c_string cs in if c == 0 then [] else rest

-- The bytes that fgets stores, at most `room`, up to a newline, and the rest of the file.
unfoldable pub take_line : ℕ → Bytes → Bytes × Bytes
take_line zero file = ([], file)
take_line (suc room) [] = ([], [])
take_line (suc room) (c ∷ cs) =
    let rest = take_line room cs in if c == 10 then (c ∷ [], cs) else (c ∷ rest.0, rest.1)

-- fgets(buf, size, fp): NULL at the end of the file.
unfoldable pub fgets : ℕ → Bytes → Option (Bytes × Bytes)
fgets size [] = none
fgets size (c ∷ cs) = some (take_line (size - 1) (c ∷ cs))
