-- ===== src/Names.antt =====
-- The names of schemas, queues and keys: src/attorney.ts (quotedNameProblem,
-- assertPostgresObjectName, assertObjectName, assertQueueName, assertKey) and src/tools.ts (isQuoted,
-- resolveSchemaName, normalizeSchemaName). A name is the list of its code points, since the rules read
-- its characters and its UTF-8 bytes. The remedy that a message ends with is left out of it.
pub mod Quoting
use bun_boss.Base.{
  ℕ, zero, suc, ◌+◌, ◌-◌, ◌≤◌, ◌≡◌, refl, String, Bool, true, false, not, ◌&&◌, ◌||◌, if◌then◌else◌,
  List, [], ◌∷◌, map, Option, none, some, ltb, leb, ◌==◌, any, length, take, drop,
}
use bun_boss.Attorney.{Checked, accepted, refused, ◌>>=◌, ◌>>◌, check}

abbrev pub double_quote : ℕ
double_quote = 34

-- name.endsWith('"')
abbrev pub ends_quoted : List ℕ → Bool
ends_quoted [] = false
ends_quoted (c ∷ []) = c == double_quote
ends_quoted (c ∷ d ∷ cs) = ends_quoted (d ∷ cs)

-- A leading and a trailing double quote that are two characters.
unfoldable pub is_quoted : List ℕ → Bool
is_quoted [] = false
is_quoted (c ∷ []) = false
is_quoted (c ∷ d ∷ cs) = c == double_quote && ends_quoted (d ∷ cs)

abbrev pub drop_last : List ℕ → List ℕ
drop_last [] = []
drop_last (c ∷ []) = []
drop_last (c ∷ d ∷ cs) = c ∷ drop_last (d ∷ cs)

-- slice(1, -1)
unfoldable pub unquote : List ℕ → List ℕ
unquote cs = drop_last (drop 1 cs)

abbrev pub has : ℕ → List ℕ → Bool
has c cs = any (λ d. d == c) cs

-- [\x00-\x1f\x7f]
abbrev pub is_control : ℕ → Bool
is_control c = leb c 31 || c == 127

unfoldable pub quoted_name_problem : List ℕ → Option String
quoted_name_problem cs =
    if has double_quote cs
    then some "cannot contain double quotes"
    else if has 39 cs
    then some "cannot contain single quotes"
    else if has 37 cs
    then some "cannot contain percent signs"
    else if has 36 cs
    then some "cannot contain dollar signs"
    else if has 46 cs
    then some "cannot contain periods"
    else if has 92 cs
    then some "cannot contain backslashes"
    else if any is_control cs
    then some "cannot contain control characters"
    else none

abbrev pub is_digit : ℕ → Bool
is_digit c = leb 48 c && leb c 57

abbrev pub is_upper : ℕ → Bool
is_upper c = leb 65 c && leb c 90

abbrev pub is_lower : ℕ → Bool
is_lower c = leb 97 c && leb c 122

-- \w
abbrev pub is_word : ℕ → Bool
is_word c = is_digit c || (is_upper c || (is_lower c || c == 95))

-- Buffer.byteLength of one code point in UTF-8
abbrev pub bytes_of : ℕ → ℕ
bytes_of c = if leb c 127 then 1 else if leb c 2047 then 2 else if leb c 65535 then 3 else 4

unfoldable pub byte_length : List ℕ → ℕ
byte_length [] = 0
byte_length (c ∷ cs) = bytes_of c + byte_length cs

abbrev pub check_quoted : Option String → Checked (Unit {0})
check_quoted none = accepted tt
check_quoted (some problem) = refused problem

abbrev pub starts_with_digit : List ℕ → Bool
starts_with_digit [] = false
starts_with_digit (c ∷ cs) = is_digit c

unfoldable pub assert_postgres_object_name : List ℕ → Checked (Unit {0})
unfolding is_quoted unquote byte_length quoted_name_problem
assert_postgres_object_name name = do
  let resolved = if is_quoted name then unquote name else name
  check (not (length resolved == 0)) "Name cannot be empty"
  check (leb (byte_length resolved) 50) "Name cannot exceed 50 bytes"
  if is_quoted name
      then check_quoted (quoted_name_problem resolved)
      else (check (not (any (λ c. not (is_word c)) name))
            "Schema name can only contain alphanumeric characters or underscores when unquoted."
          >> check (not (starts_with_digit name))
              "Schema name cannot start with a number when unquoted.")

-- [\w.\-/]
abbrev pub is_name_char : ℕ → Bool
is_name_char c = is_word c || (c == 46 || (c == 45 || c == 47))

unfoldable pub assert_object_name : List ℕ → Checked (Unit {0})
assert_object_name value =
    check (not (length value == 0) && not (any (λ c. not (is_name_char c)) value))
      "Name can only contain alphanumeric characters, underscores, hyphens, periods, or forward slashes"

unfoldable pub assert_queue_name : List ℕ → Checked (Unit {0})
unfolding assert_object_name
assert_queue_name name = do
  check (not (length name == 0)) "Name is required"
  assert_object_name name

unfoldable pub assert_key : List ℕ → Checked (Unit {0})
unfolding assert_object_name
assert_key key = if length key == 0 then accepted tt else assert_object_name key

-- toLowerCase on the names that an unquoted schema may have; of other letters it is not read.
abbrev pub to_lower : ℕ → ℕ
to_lower c = if is_upper c then c + 32 else c

unfoldable pub resolve_schema_name : List ℕ → List ℕ
unfolding is_quoted unquote
resolve_schema_name schema = if is_quoted schema then unquote schema else map to_lower schema

-- ^"[a-z_][a-z0-9_]*"$
abbrev pub is_lower_word : ℕ → Bool
is_lower_word c = is_lower c || (is_digit c || c == 95)

abbrev pub is_plain : List ℕ → Bool
is_plain [] = false
is_plain (c ∷ cs) = not (is_digit c) && not (any (λ d. not (is_lower_word d)) (c ∷ cs))

unfoldable pub normalize_schema_name : List ℕ → List ℕ
unfolding is_quoted unquote
normalize_schema_name schema =
    if is_quoted schema && is_plain (unquote schema) then unquote schema else schema
