-- ===== src/Adapters/Sqlite.antt =====
-- src/adapters/sqlite.ts: splitStatements and rewritePlaceholders. The loops step over the text; each
-- pass takes at least one unit, so the length of the text is enough fuel.
pub mod Lengths
pub mod Pieces
pub mod Tokens
pub mod Skipped
pub mod References
use bun_boss.Base.{
  ℕ, zero, suc, ◌+◌, ◌-◌, ◌*◌, Bool, true, false, not, ◌&&◌, ◌||◌, if◌then◌else◌, List, [], ◌∷◌,
  ◌++◌, map, Option, none, some, ltb, leb, ◌==◌, any, length, select,
}

abbrev pub is_quote : ℕ → Bool
is_quote c = c == 39 || c == 34

-- From behind an opening quote: up to the closing one, doubled quotes passed over, and what is left.
unfoldable pub quoted : ℕ → List ℕ → List ℕ × List ℕ
quoted q [] = ([], [])
quoted q (c ∷ []) = (c ∷ [], [])
quoted q (c ∷ d ∷ cs) =
    let (doubled, after) = quoted q cs in
    let (inside, rest) = quoted q (d ∷ cs) in
    if c == q
    then if d == q then (c ∷ d ∷ doubled, after) else (c ∷ [], d ∷ cs)
    else (c ∷ inside, rest)

-- indexOf('\n', i)
unfoldable pub line : List ℕ → List ℕ × List ℕ
line [] = ([], [])
line (c ∷ cs) = let (taken, rest) = line cs in if c == 10 then ([], c ∷ cs) else (c ∷ taken, rest)

-- indexOf('*/', i + 2) + 2
unfoldable pub block : List ℕ → List ℕ × List ℕ
block [] = ([], [])
block (c ∷ []) = (c ∷ [], [])
block (c ∷ d ∷ cs) =
    let (taken, rest) = block (d ∷ cs) in
    if c == 42 && d == 47 then (c ∷ d ∷ [], cs) else (c ∷ taken, rest)

abbrev pub starts_with : ℕ → List ℕ → Bool
starts_with x [] = false
starts_with x (c ∷ cs) = c == x

abbrev pub block_from : List ℕ → List ℕ × List ℕ
block_from [] = ([], [])
block_from (star ∷ cs) = let (taken, rest) = block cs in (star ∷ taken, rest)

-- A text, a quoted name or a comment that begins with `c`: what it takes of `cs`, and the rest.
unfoldable pub opaque : ℕ → List ℕ → Option (List ℕ × List ℕ)
unfolding quoted line block
opaque c cs =
    if is_quote c
    then some (quoted c cs)
    else if c == 45 && starts_with 45 cs
    then some (line cs)
    else if c == 47 && starts_with 42 cs
    then some (block_from cs)
    else none

-- Where the text begins with one of these, what it takes decides; else, the single unit.
abbrev pub after_scan {ℓ} : {A : Type ℓ} → Option (List ℕ × List ℕ) → (List ℕ → List ℕ → A) → A → A
after_scan none opaque_case unit_case = unit_case
after_scan (some (taken, rest)) opaque_case unit_case = opaque_case taken rest

-- The pieces between the semicolons, `current` being read before; not yet trimmed.
unfoldable pub pieces : ℕ → List ℕ → List ℕ → List (List ℕ)
pieces fuel current [] = current ∷ []
pieces zero current (c ∷ cs) = current ∷ []
pieces (suc fuel) current (c ∷ cs) =
    let split = current ∷ pieces fuel [] cs in
    let more = pieces fuel (current ++ (c ∷ [])) cs in
    after_scan (opaque c cs) (λ taken rest. pieces fuel (current ++ (c ∷ taken)) rest)
      (if c == 59 then split else more)

-- String.prototype.trim
abbrev pub is_space : ℕ → Bool
is_space c =
    leb 9 c && leb c 13
    || (c == 32
        || (c == 160
            || (c == 5760
                || (leb 8192 c && leb c 8202
                    || (c == 8232
                        || (c == 8233
                            || (c == 8239 || (c == 8287 || (c == 12288 || c == 65279)))))))))

unfoldable pub trim_start : List ℕ → List ℕ
trim_start [] = []
trim_start (c ∷ cs) = let rest = trim_start cs in if is_space c then rest else c ∷ cs

unfoldable pub trim_end : List ℕ → List ℕ
trim_end [] = []
trim_end (c ∷ cs) = elim (trim_end cs) [
  | [] ↦ if is_space c then [] else c ∷ []
  | d ∷ ds ↦ c ∷ d ∷ ds
]

abbrev pub is_empty : List ℕ → Bool
is_empty [] = true
is_empty (c ∷ cs) = false

unfoldable pub split_statements : List ℕ → List (List ℕ)
unfolding pieces trim_start trim_end
split_statements script =
    select (λ s. not (is_empty s))
      (map (λ piece. trim_end (trim_start piece)) (pieces (length script) [] script))

abbrev pub is_digit : ℕ → Bool
is_digit c = leb 48 c && leb c 57

-- [1-9] at the start
abbrev pub starts_index : List ℕ → Bool
starts_index [] = false
starts_index (c ∷ cs) = leb 49 c && leb c 57

-- The digits at the start, read in base 10 behind `n`, and the rest.
unfoldable pub parse_index : ℕ → List ℕ → ℕ × List ℕ
parse_index n [] = (n, [])
parse_index n (c ∷ cs) =
    let read = parse_index (n * 10 + (c - 48)) cs in if is_digit c then read else (n, c ∷ cs)

-- The rewritten text with the values that it binds, or the error of an index without a value.
pub data Rewritten {ℓ} (V : Type ℓ) : Type ℓ where
  rewritten : List ℕ → List V → Rewritten V
  unbound : ℕ → Rewritten V

module _ {ℓ} {V : Type ℓ} where
  -- values[index - 1]
  unfoldable pub value_at : ℕ → List V → Option V
  value_at n [] = none
  value_at zero (v ∷ vs) = none
  value_at (suc zero) (v ∷ vs) = some v
  value_at (suc (suc n)) (v ∷ vs) = value_at (suc n) vs

  abbrev pub keep : List ℕ → Rewritten V → Rewritten V
  keep text (rewritten query params) = rewritten (text ++ query) params
  keep text (unbound i) = unbound i

  -- `none`: index > values.length
  abbrev pub bind : ℕ → Option V → Rewritten V → Rewritten V
  bind index none r = unbound index
  bind index (some v) (rewritten query params) = rewritten (63 ∷ query) (v ∷ params)
  bind index (some v) (unbound i) = unbound i

  unfoldable pub rewrite_from : ℕ → List V → List ℕ → Rewritten V
  rewrite_from fuel values [] = rewritten [] []
  rewrite_from zero values (c ∷ cs) = rewritten [] []
  rewrite_from (suc fuel) values (c ∷ cs) =
      let (index, after) = parse_index 0 cs in
      let bound = bind index (value_at index values) (rewrite_from fuel values after) in
      let more = keep (c ∷ []) (rewrite_from fuel values cs) in
      after_scan (opaque c cs) (λ taken rest. keep (c ∷ taken) (rewrite_from fuel values rest))
        (if c == 36 && starts_index cs then bound else more)

  unfoldable pub rewrite_placeholders : List ℕ → List V → Rewritten V
  unfolding rewrite_from
  rewrite_placeholders text values = rewrite_from (length text) values text
