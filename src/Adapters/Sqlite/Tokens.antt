-- ===== src/Adapters/Sqlite/Tokens.antt =====
-- A text of src/adapters/sqlite.ts read a unit at a time, apart from the code of rewritePlaceholders:
-- where each unit stands, and the references `$n` that stand outside of quotes and comments.
use bun_boss.Base.{
  ℕ, ◌+◌, ◌*◌, ◌-◌, ◌≤◌, ◌≡◌, refl, ap, ◌∙◌, sym, inl, inr, Bool, true, false, ◌&&◌, ◌||◌,
  if◌then◌else◌, List, [], ◌∷◌, ◌++◌, ◌==◌, arith, length, Bool-cases,
}
use bun_boss.Adapters.Sqlite.{is_digit, starts_index, starts_with, parse_index}
use bun_boss.Adapters.Sqlite.Lengths.{length-append}

-- A stretch of text, or a reference with the digits of its index.
pub data Token : Type 0 where
  raw : List ℕ → Token
  reference : List ℕ → Token

unfoldable pub digits : List ℕ → List ℕ × List ℕ
digits [] = ([], [])
digits (c ∷ cs) =
    let (taken, rest) = digits cs in if is_digit c then (c ∷ taken, rest) else ([], c ∷ cs)

-- parseInt(digits, 10) behind `n`
abbrev pub number_from : ℕ → List ℕ → ℕ
number_from n [] = n
number_from n (c ∷ cs) = number_from (n * 10 + (c - 48)) cs

-- Where a unit stands: outside, within a text or quoted name, in a comment up to the end of its line, at
-- the star that opens a block, within a block, at the slash that closes it, among the digits of a
-- reference. A doubled quote closes its text and opens it again.
pub data Mode : Type 0 where
  outside comment opening block closing numbering : Mode
  within : ℕ → Mode

-- The first unit behind the digits is outside.
abbrev pub settled : Mode → ℕ → Mode
settled numbering c = if is_digit c then numbering else outside
settled m c = m

abbrev pub is_reference : Mode → ℕ → List ℕ → Bool
is_reference outside c cs = c == 36 && starts_index cs
is_reference m c cs = false

-- Where the next unit stands.
unfoldable pub behind : Mode → ℕ → List ℕ → Mode
behind outside c cs =
    if c == 39 || c == 34
    then within c
    else if c == 45 && starts_with 45 cs
    then comment
    else if c == 47 && starts_with 42 cs
    then opening
    else if c == 36 && starts_index cs
    then numbering
    else outside
behind (within q) c cs = if c == q then outside else within q
behind comment c cs = if c == 10 then outside else comment
behind opening c cs = block
behind block c cs = if c == 42 && starts_with 47 cs then closing else block
behind closing c cs = outside
behind numbering c cs = numbering

abbrev pub is_index : Mode → Bool
is_index numbering = true
is_index m = false

-- A unit at a time: only a `$` that stands outside begins a reference.
abbrev pub emitted : Mode → ℕ → List ℕ → List Token → List Token
emitted now c cs rest =
    if is_reference now c cs
    then reference (digits cs).0 ∷ rest
    else if is_index now
    then rest
    else raw (c ∷ []) ∷ rest

unfoldable pub tokens : Mode → List ℕ → List Token
tokens m [] = []
tokens m (c ∷ cs) = emitted (settled m c) c cs (tokens (behind (settled m c) c cs) cs)

-- The tokens as they stood.
abbrev pub print : List Token → List ℕ
print [] = []
print (raw text ∷ ts) = text ++ print ts
print (reference index ∷ ts) = 36 ∷ (index ++ print ts)

-- The text with the anonymous mark for each reference, and the indexes in order.
abbrev pub marked : List Token → List ℕ
marked [] = []
marked (raw text ∷ ts) = text ++ marked ts
marked (reference index ∷ ts) = 63 ∷ marked ts

abbrev pub indexes : List Token → List ℕ
indexes [] = []
indexes (raw text ∷ ts) = indexes ts
indexes (reference index ∷ ts) = number_from 0 index ∷ indexes ts

pub digits-whole : (cs : List ℕ) → (digits cs).0 ++ (digits cs).1 ≡ cs
unfolding digits
digits-whole [] = refl
digits-whole (c ∷ cs) = elim (Bool-cases (is_digit c)) [
  | inl e ↦ rw e (ap (λ l. c ∷ l) (digits-whole cs))
  | inr e ↦ rw e refl
]

pub digits-shorter : (cs : List ℕ) → length (digits cs).1 ≤ length cs
digits-shorter cs =
    omega (arith, length-append (digits cs).0 (digits cs).1, ap length (digits-whole cs))

pub parse_index-digits :
    (n : ℕ) (cs : List ℕ) → parse_index n cs ≡ (number_from n (digits cs).0, (digits cs).1)
unfolding parse_index digits
parse_index-digits n [] = refl
parse_index-digits n (c ∷ cs) = elim (Bool-cases (is_digit c)) [
  | inl e ↦ rw e (parse_index-digits (n * 10 + (c - 48)) cs)
  | inr e ↦ rw e refl
]

-- The digits behind which a mode begins.
abbrev held : Mode → List ℕ → List ℕ
held numbering cs = (digits cs).0
held m cs = []

pub behind-reference :
    (c : ℕ) (cs : List ℕ)
    → (c == 36 && starts_index cs) ≡ true
    → (c ≡ 36) × (behind outside c cs ≡ numbering)
unfolding behind
behind-reference c cs h = (ground arith, ground arith)

-- Behind a unit that begins no reference, and is no digit of one, no digits are left out.
held-behind :
    (m : Mode) (c : ℕ) (cs : List ℕ)
    → is_reference m c cs ≡ false
    → is_index m ≡ false
    → held (behind m c cs) cs ≡ []
unfolding behind
held-behind outside c cs h k = ground arith
held-behind (within q) c cs h k = ground arith
held-behind comment c cs h k = ground arith
held-behind opening c cs h k = refl
held-behind block c cs h k = ground arith
held-behind closing c cs h k = refl
held-behind numbering c cs h k = cc

pub numbering-behind : (c : ℕ) (cs : List ℕ) → behind numbering c cs ≡ numbering
unfolding behind
numbering-behind c cs = refl

-- From outside, given the text behind.
print-outside :
    (c : ℕ) (cs : List ℕ)
    → held (behind outside c cs) cs ++ print (tokens (behind outside c cs) cs) ≡ cs
    → print (emitted outside c cs (tokens (behind outside c cs) cs)) ≡ c ∷ cs
print-outside c cs h = elim (Bool-cases (c == 36 && starts_index cs)) [
  | inl e ↦
      let (dollar, mode) = behind-reference c cs e in
      let rest : held numbering cs ++ print (tokens numbering cs) ≡ cs = rw mode at h in
      rw (e, mode) (ap (λ l. 36 ∷ l) rest ∙ ap (λ x. x ∷ cs) (sym dollar))
  | inr e ↦
      let rest : print (tokens (behind outside c cs) cs) ≡ cs =
        rw (held-behind outside c cs e refl) at h in
      rw e (ap (λ l. c ∷ l) rest)
]

print-inside :
    (m : Mode) (c : ℕ) (cs : List ℕ)
    → is_reference m c cs ≡ false
    → is_index m ≡ false
    → held (behind m c cs) cs ++ print (tokens (behind m c cs) cs) ≡ cs
    → c ∷ print (tokens (behind m c cs) cs) ≡ c ∷ cs
print-inside m c cs h k e = ap (λ l. c ∷ l) (rw (held-behind m c cs h k) at e)

digits-nil : (digits []).0 ≡ []
unfolding digits
digits-nil = refl

digits-digit : (c : ℕ) (cs : List ℕ) → is_digit c ≡ true → (digits (c ∷ cs)).0 ≡ c ∷ (digits cs).0
unfolding digits
digits-digit c cs e = rw e refl

digits-other : (c : ℕ) (cs : List ℕ) → is_digit c ≡ false → (digits (c ∷ cs)).0 ≡ []
unfolding digits
digits-other c cs e = rw e refl

pub print-tokens : (m : Mode) (cs : List ℕ) → held m cs ++ print (tokens m cs) ≡ cs
unfolding tokens
print-tokens outside [] = refl
print-tokens (within q) [] = refl
print-tokens comment [] = refl
print-tokens opening [] = refl
print-tokens block [] = refl
print-tokens closing [] = refl
print-tokens numbering [] = rw digits-nil refl
print-tokens outside (c ∷ cs) = print-outside c cs (print-tokens (behind outside c cs) cs)
print-tokens (within q) (c ∷ cs) =
    print-inside (within q) c cs refl refl (print-tokens (behind (within q) c cs) cs)
print-tokens comment (c ∷ cs) =
    print-inside comment c cs refl refl (print-tokens (behind comment c cs) cs)
print-tokens opening (c ∷ cs) =
    print-inside opening c cs refl refl (print-tokens (behind opening c cs) cs)
print-tokens block (c ∷ cs) =
    print-inside block c cs refl refl (print-tokens (behind block c cs) cs)
print-tokens closing (c ∷ cs) =
    print-inside closing c cs refl refl (print-tokens (behind closing c cs) cs)
print-tokens numbering (c ∷ cs) = elim (Bool-cases (is_digit c)) [
  | inl e ↦
      rw (digits-digit c cs e, e, numbering-behind c cs)
        (ap (λ l. c ∷ l) (print-tokens numbering cs))
  | inr e ↦ rw (digits-other c cs e, e) (print-outside c cs (print-tokens (behind outside c cs) cs))
]
