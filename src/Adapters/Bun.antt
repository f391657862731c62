-- ===== src/Adapters/Bun.antt =====
-- src/adapters/bun.ts: how an array is bound, and how a statement is run and run again. A driver is
-- its `unsafe`, on the pooled handle and on a reserved connection, with a state that it may
-- change at each call. The encoding of JSON parameters is left to the driver's argument,
-- and reserve() is taken to succeed.
pub mod Attempts
pub mod Arrays
use bun_boss.Base.{
  ℕ, zero, suc, ◌+◌, ◌-◌, String, Bool, true, false, not, ◌&&◌, ◌||◌, if◌then◌else◌, List, [], ◌∷◌,
  ◌++◌, map, Option, none, some, str_eq, leb, ltb, ◌==◌, any,
}
use bun_boss.Adapters.Sqlite.{is_space}

-- An element that toArrayLiteral reads: null or undefined, a value by its text (a Date by its ISO
-- text), or an array.
mutual
  pub data Element : Type 0 where
    null : Element
    text : List ℕ → Element
    array : Elements → Element

  pub data Elements : Type 0 where
    nil : Elements
    cons : Element → Elements → Elements

-- .replace(/\\/g, '\\\\')
abbrev pub double_backslashes : List ℕ → List ℕ
double_backslashes [] = []
double_backslashes (c ∷ cs) =
    if c == 92 then 92 ∷ 92 ∷ double_backslashes cs else c ∷ double_backslashes cs

-- .replace(/"/g, '\\"')
abbrev pub escape_quotes : List ℕ → List ℕ
escape_quotes [] = []
escape_quotes (c ∷ cs) = if c == 34 then 92 ∷ 34 ∷ escape_quotes cs else c ∷ escape_quotes cs

-- elements.join(',')
abbrev pub join_commas : List (List ℕ) → List ℕ
join_commas [] = []
join_commas (e ∷ []) = e
join_commas (e ∷ f ∷ es) = e ++ (44 ∷ join_commas (f ∷ es))

unfoldable mutual
  pub element_literal : Element → List ℕ
  element_literal null = 78 ∷ 85 ∷ 76 ∷ 76 ∷ []
  element_literal (text t) = 34 ∷ (escape_quotes (double_backslashes t) ++ (34 ∷ []))
  element_literal (array es) = 123 ∷ (join_commas (element_literals es) ++ (125 ∷ []))

  pub element_literals : Elements → List (List ℕ)
  element_literals nil = []
  element_literals (cons e es) = element_literal e ∷ element_literals es

unfoldable pub to_array_literal : Elements → List ℕ
unfolding element_literal
to_array_literal es = element_literal (array es)

-- `code` and `errno`, where they are texts; and what promoteSqlState adds.
pub record Failure : Type 0 where
  pub code : Option String
  pub errno : Option String
  pub bun_code : Option String

abbrev pub has_code : String → Failure → Bool
has_code c e = elim e.code [ none ↦ false | some d ↦ str_eq d c ]

unfoldable pub promote_sql_state : Failure → Failure
promote_sql_state e = elim e.errno [
  | none ↦ e
  | some n ↦
      if has_code "ERR_POSTGRES_SERVER_ERROR" e
      then record e { bun_code = e.code; code = some n }
      else e
]

-- What a call of the driver resolves to: no array, rows, or one array of rows for each statement.
pub data Answer (R : Type 0) : Type 0 where
  no_array : Answer R
  row_list : List R → Answer R
  row_lists : List (List R) → Answer R

pub data Reply (A : Type 0) : Type 0 where
  answered : A → Reply A
  failed : Failure → Reply A

abbrev pub flat {ℓ} : {R : Type ℓ} → List (List R) → List R
flat [] = []
flat (l ∷ ls) = l ++ flat ls

unfoldable pub normalize_result : {R : Type 0} → Answer R → List R
normalize_result no_array = []
normalize_result (row_list rows) = rows
normalize_result (row_lists lists) = flat lists

-- `reserve` is a function, `release` and `savepoint` are not there.
pub record Handle : Type 0 where
  pub has_reserve : Bool
  pub has_release : Bool
  pub has_savepoint : Bool

unfoldable pub is_pooled : Handle → Bool
is_pooled h = h.has_reserve && (not h.has_release && not h.has_savepoint)

-- \w, and a letter without its case
abbrev pub is_word : ℕ → Bool
is_word c = leb 48 c && leb c 57 || (leb 65 c && leb c 90 || (leb 97 c && leb c 122 || c == 95))

abbrev pub upper : ℕ → ℕ
upper c = if leb 97 c && leb c 122 then c - 32 else c

abbrev pub at_word_end : List ℕ → Bool
at_word_end [] = true
at_word_end (c ∷ cs) = not (is_word c)

-- What follows a word at the start.
unfoldable pub behind_word : List ℕ → List ℕ → Option (List ℕ)
behind_word [] cs = some cs
behind_word (w ∷ ws) [] = none
behind_word (w ∷ ws) (c ∷ cs) = let rest = behind_word ws cs in if upper c == w then rest else none

abbrev pub skip_spaces : List ℕ → List ℕ
skip_spaces [] = []
skip_spaces (c ∷ cs) = let rest = skip_spaces cs in if is_space c then rest else c ∷ cs

abbrev pub ends_word : Option (List ℕ) → Bool
ends_word none = false
ends_word (some rest) = at_word_end rest

abbrev pub then_transaction : Option (List ℕ) → Bool
then_transaction none = false
then_transaction (some []) = false
then_transaction (some (c ∷ cs)) =
    is_space c
    && ends_word
        (behind_word (84 ∷ 82 ∷ 65 ∷ 78 ∷ 83 ∷ 65 ∷ 67 ∷ 84 ∷ 73 ∷ 79 ∷ 78 ∷ []) (skip_spaces cs))

-- BEGIN, or START TRANSACTION
abbrev pub opens_here : List ℕ → Bool
opens_here cs =
    ends_word (behind_word (66 ∷ 69 ∷ 71 ∷ 73 ∷ 78 ∷ []) cs)
    || then_transaction (behind_word (83 ∷ 84 ∷ 65 ∷ 82 ∷ 84 ∷ []) cs)

-- TRANSACTION_REGEX.test, `inside` a word or not
unfoldable pub may_begin_from : Bool → List ℕ → Bool
unfolding behind_word
may_begin_from inside [] = false
may_begin_from inside (c ∷ cs) = not inside && opens_here (c ∷ cs) || may_begin_from (is_word c) cs

abbrev pub may_begin : List ℕ → Bool
may_begin query = may_begin_from false query

module _ {R V S : Type 0} (send : List ℕ → List V → S → Reply (Answer R) × S)
    (send_reserved : List ℕ → S → Reply (Answer R) × S) (handle : Handle) where
  -- "ROLLBACK"
  abbrev pub rollback : List ℕ
  rollback = 82 ∷ 79 ∷ 76 ∷ 76 ∷ 66 ∷ 65 ∷ 67 ∷ 75 ∷ []

  abbrev pub normalized : Reply (Answer R) × S → Reply (List R) × S
  normalized (answered a, s) = (answered (normalize_result a), s)
  normalized (failed e, s) = (failed e, s)

  -- executeReserved: a failure rolls back on the same connection.
  abbrev pub after_reserved : Reply (Answer R) × S → Reply (Answer R) × S
  after_reserved (answered a, s) = (answered a, s)
  after_reserved (failed e, s) = (failed e, (send_reserved rollback s).1)

  unfoldable pub execute_reserved : List ℕ → S → Reply (Answer R) × S
  execute_reserved query s = after_reserved (send_reserved query s)

  -- The backstop: a statement that the driver refuses on the pool runs on a reserved connection.
  abbrev pub unless_refused : List ℕ → Reply (Answer R) × S → Reply (List R) × S
  unless_refused query (answered a, s) = (answered (normalize_result a), s)
  unless_refused query (failed e, s) =
      if has_code "ERR_POSTGRES_UNSAFE_TRANSACTION" e
      then normalized (execute_reserved query s)
      else (failed e, s)

  abbrev pub is_empty : List V → Bool
  is_empty [] = true
  is_empty (v ∷ vs) = false

  unfoldable pub run : List ℕ → List V → S → Reply (List R) × S
  unfolding execute_reserved normalize_result is_pooled
  run query values s =
      if not (is_empty values)
      then normalized (send query values s)
      else if not (is_pooled handle)
      then normalized (send query [] s)
      else if not (may_begin query)
      then unless_refused query (send query [] s)
      else normalized (execute_reserved query s)

  -- "ROLLBACK; " before the statement
  abbrev pub healed : List ℕ → List ℕ
  healed query = rollback ++ (59 ∷ 32 ∷ query)

  abbrev pub attempt_text : ℕ → List ℕ → List V → List ℕ
  attempt_text attempt query values =
      if ltb 0 attempt && is_empty values then healed query else query

  -- The error that ends the loop, after `attempt` retries.
  unfoldable pub gives_up : ℕ → Failure → Bool
  unfolding is_pooled
  gives_up attempt e = not (has_code "25P02" e) || (leb 3 attempt || not (is_pooled handle))

  abbrev pub cleared : List V → S → S
  cleared values s = if is_empty values then s else (send rollback [] s).1

  abbrev pub after_run :
      ℕ
      → (S → Option (Reply (List R) × ℕ × S))
      → Reply (List R) × S
      → Option (Reply (List R) × ℕ × S)
  after_run attempt again (answered rows, s) = some (answered rows, attempt, s)
  after_run attempt again (failed e, s) =
      if gives_up attempt (promote_sql_state e)
      then some (failed (promote_sql_state e), attempt, s)
      else again s

  -- The loop of executeSql from one attempt on, with the number of its last attempt; none is a loop
  -- that has not ended after `fuel` attempts.
  unfoldable pub attempts : ℕ → ℕ → List ℕ → List V → S → Option (Reply (List R) × ℕ × S)
  attempts zero attempt query values s = none
  attempts (suc fuel) attempt query values s =
      after_run attempt (λ u. attempts fuel (suc attempt) query values (cleared values u))
        (run (attempt_text attempt query values) values s)

  unfoldable pub execute_sql : ℕ → List ℕ → List V → S → Option (Reply (List R) × ℕ × S)
  unfolding attempts
  execute_sql fuel query values s = attempts fuel 0 query values s
