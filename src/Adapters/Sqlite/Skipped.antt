-- ===== src/Adapters/Sqlite/Skipped.antt =====
-- What the scanner of src/adapters/sqlite.ts passes over, unit by unit.
use bun_boss.Base.{
  ℕ, ◌≡◌, refl, ap, ◌∙◌, inl, inr, true, false, ◌&&◌, ◌||◌, if◌then◌else◌, List, [], ◌∷◌, ◌++◌,
  Option, none, some, ◌==◌, arith, Bool-cases,
}
use bun_boss.Adapters.Sqlite.{
  is_quote, opaque, quoted, line, block as block_text, block_from, is_digit, starts_index,
  starts_with,
}
use bun_boss.Adapters.Sqlite.Tokens.{
  Token, raw, reference, digits, outside, comment, opening, block, closing, numbering, within,
  behind, tokens, marked, indexes, behind-reference, numbering-behind,
}

abbrev pub raws : List ℕ → List Token
raws [] = []
raws (c ∷ cs) = raw (c ∷ []) ∷ raws cs

pub marked-raws : (cs : List ℕ) (ts : List Token) → marked (raws cs ++ ts) ≡ cs ++ marked ts
marked-raws [] ts = refl
marked-raws (c ∷ cs) ts = ap (λ l. c ∷ l) (marked-raws cs ts)

pub indexes-raws : (cs : List ℕ) (ts : List Token) → indexes (raws cs ++ ts) ≡ indexes ts
indexes-raws [] ts = refl
indexes-raws (c ∷ cs) ts = indexes-raws cs ts

behind-quote :
    (q d : ℕ) (cs : List ℕ)
    → (q == 39 || q == 34) ≡ true
    → (d == q) ≡ true
    → ((d == 36 && starts_index cs) ≡ false) × (behind outside d cs ≡ within q)
unfolding behind
behind-quote q d cs h e = (ground arith, ground arith)

-- A quote that stands outside opens its text.
opening_quote :
    (q d : ℕ) (cs : List ℕ)
    → (q == 39 || q == 34) ≡ true
    → (d == q) ≡ true
    → tokens outside (d ∷ cs) ≡ raw (d ∷ []) ∷ tokens (within q) cs
unfolding tokens
opening_quote q d cs h e = let (plain, same) = behind-quote q d cs h e in rw (plain, same) refl

behind-within :
    (q c : ℕ) (cs : List ℕ) → behind (within q) c cs ≡ (if c == q then outside else within q)
unfolding behind
behind-within q c cs = refl

quoted-tokens :
    (q : ℕ) (cs : List ℕ)
    → (q == 39 || q == 34) ≡ true
    → tokens (within q) cs ≡ raws (quoted q cs).0 ++ tokens outside (quoted q cs).1
unfolding tokens quoted
quoted-tokens q [] h = refl
quoted-tokens q (c ∷ []) h = refl
quoted-tokens q (c ∷ d ∷ cs) h = elim (Bool-cases (c == q)) [
  | inl e ↦ elim (Bool-cases (d == q)) [
    | inl f ↦
        rw (behind-within q c (d ∷ cs), e, f)
          (ap (λ l. raw (c ∷ []) ∷ l)
            (opening_quote q d cs h f ∙ ap (λ l. raw (d ∷ []) ∷ l) (quoted-tokens q cs h)))
    | inr f ↦ rw (behind-within q c (d ∷ cs), e, f) refl
  ]
  | inr e ↦
      rw (behind-within q c (d ∷ cs), e) (ap (λ l. raw (c ∷ []) ∷ l) (quoted-tokens q (d ∷ cs) h))
]

behind-newline :
    (c : ℕ) (cs : List ℕ)
    → (c == 10) ≡ true
    → ((c == 36 && starts_index cs) ≡ false)
      × (behind comment c cs ≡ outside)
      × (behind outside c cs ≡ outside)
unfolding behind
behind-newline c cs e = (ground arith, rw e refl, ground arith)

behind-comment : (c : ℕ) (cs : List ℕ) → (c == 10) ≡ false → behind comment c cs ≡ comment
unfolding behind
behind-comment c cs e = rw e refl

line-tokens : (cs : List ℕ) → tokens comment cs ≡ raws (line cs).0 ++ tokens outside (line cs).1
unfolding tokens line
line-tokens [] = refl
line-tokens (c ∷ cs) = elim (Bool-cases (c == 10)) [
  | inl e ↦ let (plain, ended, next) = behind-newline c cs e in rw (ended, e, plain, next) refl
  | inr e ↦ rw (behind-comment c cs e, e) (ap (λ l. raw (c ∷ []) ∷ l) (line-tokens cs))
]

behind-block :
    (c : ℕ) (cs : List ℕ)
    → behind block c cs ≡ (if c == 42 && starts_with 47 cs then closing else block)
unfolding behind
behind-block c cs = refl

behind-closing : (c : ℕ) (cs : List ℕ) → behind closing c cs ≡ outside
unfolding behind
behind-closing c cs = refl

block-tokens :
    (cs : List ℕ) → tokens block cs ≡ raws (block_text cs).0 ++ tokens outside (block_text cs).1
unfolding tokens block_text
block-tokens [] = refl
block-tokens (c ∷ []) = refl
block-tokens (c ∷ d ∷ cs) = elim (Bool-cases (c == 42 && d == 47)) [
  | inl e ↦ rw (behind-block c (d ∷ cs), e, behind-closing d cs) refl
  | inr e ↦ rw (behind-block c (d ∷ cs), e) (ap (λ l. raw (c ∷ []) ∷ l) (block-tokens (d ∷ cs)))
]

digits-tokens : (cs : List ℕ) → tokens numbering cs ≡ tokens outside (digits cs).1
unfolding tokens digits
digits-tokens [] = refl
digits-tokens (c ∷ cs) = elim (Bool-cases (is_digit c)) [
  | inl e ↦ rw (e, numbering-behind c cs) (digits-tokens cs)
  | inr e ↦ rw e refl
]

-- What begins with a quote or the two units of a comment is passed over.
behind-dashes :
    (c : ℕ) (cs : List ℕ)
    → is_quote c ≡ false
    → (c == 45 && starts_with 45 cs) ≡ true
    → ((c == 36 && starts_index cs) ≡ false) × (behind outside c cs ≡ comment)
unfolding behind
behind-dashes c cs h e = (ground arith, ground arith)

behind-slash :
    (c : ℕ) (cs : List ℕ)
    → is_quote c ≡ false
    → (c == 45 && starts_with 45 cs) ≡ false
    → (c == 47 && starts_with 42 cs) ≡ true
    → ((c == 36 && starts_index cs) ≡ false) × (behind outside c cs ≡ opening)
unfolding behind
behind-slash c cs h k e = (ground arith, ground arith)

behind-opening : (c : ℕ) (cs : List ℕ) → behind opening c cs ≡ block
unfolding behind
behind-opening c cs = refl

opening-tokens :
    (cs : List ℕ) → tokens opening cs ≡ raws (block_from cs).0 ++ tokens outside (block_from cs).1
unfolding tokens
opening-tokens [] = refl
opening-tokens (c ∷ cs) = rw (behind-opening c cs) (ap (λ l. raw (c ∷ []) ∷ l) (block-tokens cs))

halves :
    (p : List ℕ × List ℕ) (x y : List ℕ)
    → ◌≡◌ {A = Option (List ℕ × List ℕ)} (some p) (some (x, y))
    → (p.0 ≡ x) × (p.1 ≡ y)
halves p x y h = let e : p ≡ (x, y) = cc in (ap (λ z. z.0) e, ap (λ z. z.1) e)

pub opaque-tokens :
    (c : ℕ) (cs taken rest : List ℕ)
    → opaque c cs ≡ some (taken, rest)
    → tokens outside (c ∷ cs) ≡ raw (c ∷ []) ∷ (raws taken ++ tokens outside rest)
unfolding tokens opaque
opaque-tokens c cs taken rest h = elim (Bool-cases (is_quote c)) [
  | inl q ↦
      let (i, r) = halves _ taken rest (rw q at h) in
      opening_quote c c cs q (ground arith)
      ∙ ap (λ l. raw (c ∷ []) ∷ l) (quoted-tokens c cs q ∙ rw (i, r) refl)
  | inr q ↦ elim (Bool-cases (c == 45 && starts_with 45 cs)) [
    | inl d ↦
        let (i, r) = halves _ taken rest (rw (q, d) at h) in
        let (plain, next) = behind-dashes c cs q d in
        rw (plain, next) (ap (λ l. raw (c ∷ []) ∷ l) (line-tokens cs ∙ rw (i, r) refl))
    | inr d ↦ elim (Bool-cases (c == 47 && starts_with 42 cs)) [
      | inl b ↦
          let (i, r) = halves _ taken rest (rw (q, d, b) at h) in
          let (plain, next) = behind-slash c cs q d b in
          rw (plain, next) (ap (λ l. raw (c ∷ []) ∷ l) (opening-tokens cs ∙ rw (i, r) refl))
      | inr b ↦
          let f : ◌≡◌ {A = Option (List ℕ × List ℕ)} none (some (taken, rest)) =
            rw (q, d, b) at h in
          cc
    ]
  ]
]

behind-plain :
    (c : ℕ) (cs : List ℕ)
    → opaque c cs ≡ none
    → (c == 36 && starts_index cs) ≡ false
    → behind outside c cs ≡ outside
unfolding behind opaque
behind-plain c cs h e = ground arith

pub plain-tokens :
    (c : ℕ) (cs : List ℕ)
    → opaque c cs ≡ none
    → tokens outside (c ∷ cs) ≡ (
        if c == 36 && starts_index cs
        then reference (digits cs).0 ∷ tokens outside (digits cs).1
        else raw (c ∷ []) ∷ tokens outside cs)
unfolding tokens
plain-tokens c cs h = elim (Bool-cases (c == 36 && starts_index cs)) [
  | inl e ↦
      let (dollar, next) = behind-reference c cs e in
      rw (e, next) (ap (λ l. reference (digits cs).0 ∷ l) (digits-tokens cs))
  | inr e ↦ rw (e, behind-plain c cs h e) refl
]

pub tokens-nil : tokens outside [] ≡ []
unfolding tokens
tokens-nil = refl
