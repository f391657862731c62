-- ===== src/Adapters/Sqlite/Lengths.antt =====
-- What a text, a quoted name or a comment takes, with what is left, is the text it was taken from.
use bun_boss.Base.{
  ℕ, ◌+◌, ◌≤◌, ◌≡◌, refl, ap, sym, ◌∙◌, inl, inr, ◌&&◌, List, [], ◌∷◌, ◌++◌, Option, none, some,
  ◌==◌, arith, length, Bool-cases,
}
use bun_boss.Adapters.Sqlite.{is_quote, quoted, line, block, block_from, starts_with, opaque}

-- The two parts of a scan, put together.
abbrev pub whole : List ℕ × List ℕ → List ℕ
whole (taken, rest) = taken ++ rest

quoted-whole : (q : ℕ) (cs : List ℕ) → whole (quoted q cs) ≡ cs
unfolding quoted
quoted-whole q [] = refl
quoted-whole q (c ∷ []) = refl
quoted-whole q (c ∷ d ∷ cs) = elim (Bool-cases (c == q)) [
  | inl e ↦ elim (Bool-cases (d == q)) [
    | inl f ↦ rw (e, f) (ap (λ l. c ∷ d ∷ l) (quoted-whole q cs))
    | inr f ↦ rw (e, f) refl
  ]
  | inr e ↦ rw e (ap (λ l. c ∷ l) (quoted-whole q (d ∷ cs)))
]

line-whole : (cs : List ℕ) → whole (line cs) ≡ cs
unfolding line
line-whole [] = refl
line-whole (c ∷ cs) = elim (Bool-cases (c == 10)) [
  | inl e ↦ rw e refl
  | inr e ↦ rw e (ap (λ l. c ∷ l) (line-whole cs))
]

block-whole : (cs : List ℕ) → whole (block cs) ≡ cs
unfolding block
block-whole [] = refl
block-whole (c ∷ []) = refl
block-whole (c ∷ d ∷ cs) = elim (Bool-cases (c == 42 && d == 47)) [
  | inl e ↦ rw e refl
  | inr e ↦ rw e (ap (λ l. c ∷ l) (block-whole (d ∷ cs)))
]

block_from-whole : (cs : List ℕ) → whole (block_from cs) ≡ cs
block_from-whole [] = refl
block_from-whole (c ∷ cs) = ap (λ l. c ∷ l) (block-whole cs)

abbrev whole_or : List ℕ → Option (List ℕ × List ℕ) → List ℕ
whole_or cs none = cs
whole_or cs (some scan) = whole scan

opaque-whole_or : (c : ℕ) (cs : List ℕ) → whole_or cs (opaque c cs) ≡ cs
unfolding opaque
opaque-whole_or c cs = elim (Bool-cases (is_quote c)) [
  | inl e ↦ rw e (quoted-whole c cs)
  | inr e ↦ elim (Bool-cases (c == 45 && starts_with 45 cs)) [
    | inl f ↦ rw (e, f) (line-whole cs)
    | inr f ↦ elim (Bool-cases (c == 47 && starts_with 42 cs)) [
      | inl g ↦ rw (e, f, g) (block_from-whole cs)
      | inr g ↦ rw (e, f, g) refl
    ]
  ]
]

pub opaque-whole :
    (c : ℕ) (cs taken rest : List ℕ) → opaque c cs ≡ some (taken, rest) → taken ++ rest ≡ cs
opaque-whole c cs taken rest e = ap (whole_or cs) (sym e) ∙ opaque-whole_or c cs

pub length-append : (xs ys : List ℕ) → length (xs ++ ys) ≡ length xs + length ys
length-append [] ys = omega arith
length-append (x ∷ xs) ys = omega (arith, length-append xs ys)

-- The rest is no longer than the text.
pub opaque-shorter :
    (c : ℕ) (cs taken rest : List ℕ) → opaque c cs ≡ some (taken, rest) → length rest ≤ length cs
opaque-shorter c cs taken rest e =
    omega (arith, length-append taken rest, ap length (opaque-whole c cs taken rest e))

pub append_assoc : (xs ys zs : List ℕ) → (xs ++ ys) ++ zs ≡ xs ++ (ys ++ zs)
append_assoc [] ys zs = refl
append_assoc (x ∷ xs) ys zs = ap (λ l. x ∷ l) (append_assoc xs ys zs)

pub append-nil : (xs : List ℕ) → xs ++ [] ≡ xs
append-nil [] = refl
append-nil (x ∷ xs) = ap (λ l. x ∷ l) (append-nil xs)
