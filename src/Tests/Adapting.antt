-- ===== src/Tests/Adapting.antt =====
-- The results on statements, arrays and attempts.
use bun_boss.Base.{ℕ, ◌+◌, ◌≡◌, refl, true, false, List, [], ◌∷◌, none, some, arith}
use bun_boss.Adapters.Sqlite.{
  opaque, quoted, line, block, pieces, split_statements, trim_start, trim_end, unbound, parse_index,
  value_at, rewrite_from, rewrite_placeholders,
}
use bun_boss.Adapters.Sqlite.Pieces.{join, join-pieces}
use bun_boss.Adapters.Sqlite.Tokens.{tokens, outside, print, marked, indexes}
use bun_boss.Adapters.Sqlite.References.{bound, result, rewrite_placeholders-result}
use bun_boss.Adapters.Bun.{
  null, text, array, nil, cons, Elements, Failure, Answer, row_list, Reply, answered, failed,
  Handle, execute_sql,
}
use bun_boss.Adapters.Bun.Arrays.{to_array_literal-injective}
use bun_boss.Adapters.Bun.Attempts.{Ends, execute_sql-Ends}

-- a';';b
abbrev script : List ℕ
script = 97 ∷ 39 ∷ 59 ∷ 39 ∷ 59 ∷ 98 ∷ []

-- The semicolon in quotes does not split.
two_statements : split_statements script ≡ (97 ∷ 39 ∷ 59 ∷ 39 ∷ []) ∷ (98 ∷ []) ∷ []
unfolding split_statements opaque pieces quoted line block trim_start trim_end
two_statements = refl

join-pieces_example : join (pieces 6 [] script) ≡ script
join-pieces_example = join-pieces 6 script (omega arith)

-- '$1'$2
abbrev with_reference : List ℕ
with_reference = 39 ∷ 36 ∷ 49 ∷ 39 ∷ 36 ∷ 50 ∷ []

abbrev one_value : List ℕ
one_value = 7 ∷ []

missing_value : rewrite_placeholders with_reference one_value ≡ unbound 2
unfolding rewrite_placeholders rewrite_from opaque quoted line block parse_index value_at
missing_value = refl

rewrite_placeholders-result_example :
    let ts = tokens outside with_reference in
    (print ts ≡ with_reference)
    × (rewrite_placeholders with_reference one_value
        ≡ result (marked ts) (bound one_value (indexes ts)))
rewrite_placeholders-result_example = rewrite_placeholders-result with_reference one_value

-- A text with a comma, a null and an array.
abbrev mixed : Elements
mixed = cons (text (44 ∷ [])) (cons null (cons (array nil) nil))

to_array_literal-injective_example : mixed ≡ mixed
to_array_literal-injective_example = to_array_literal-injective mixed mixed refl

-- A driver that always meets an aborted transaction and counts its calls.
abbrev aborted : Failure
aborted = record { code = some "ERR_POSTGRES_SERVER_ERROR"; errno = some "25P02"; bun_code = none }

abbrev send : List ℕ → List ℕ → ℕ → Reply (Answer ℕ) × ℕ
send query values calls = (failed aborted, calls + 1)

abbrev send_reserved : List ℕ → ℕ → Reply (Answer ℕ) × ℕ
send_reserved query calls = (answered (row_list []), calls)

abbrev pool : Handle
pool = record { has_reserve = true; has_release = false; has_savepoint = false }

execute_sql-Ends_example : Ends pool (execute_sql send send_reserved pool 4 (83 ∷ []) [] 0)
execute_sql-Ends_example = execute_sql-Ends send send_reserved pool (83 ∷ []) [] 0
