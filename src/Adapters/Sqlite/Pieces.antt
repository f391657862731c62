-- ===== src/Adapters/Sqlite/Pieces.antt =====
-- Splitting a script loses nothing of it.
use bun_boss.Base.{
  ℕ, zero, suc, ◌≤◌, ◌≡◌, refl, ap, ◌∙◌, sym, inl, inr, true, List, [], ◌∷◌, ◌++◌, ◌==◌, arith,
  length, Bool-cases, Option-cases,
}
use bun_boss.Adapters.Sqlite.{opaque, pieces}
use bun_boss.Adapters.Sqlite.Lengths.{opaque-whole, opaque-shorter, append_assoc}

-- The pieces behind a semicolon each, and the pieces with semicolons between them.
abbrev behind : List (List ℕ) → List ℕ
behind [] = []
behind (p ∷ ps) = 59 ∷ (p ++ behind ps)

unfoldable pub join : List (List ℕ) → List ℕ
join [] = []
join (p ∷ ps) = p ++ behind ps

same_unit : (c d : ℕ) → (c == d) ≡ true → c ≡ d
same_unit c d e = ground arith

-- What one pass leaves, where the text taken and the rest make up `cs`.
passed :
    (current taken rest cs : List ℕ) (c : ℕ)
    → taken ++ rest ≡ cs
    → (current ++ (c ∷ taken)) ++ rest ≡ current ++ (c ∷ cs)
passed current taken rest cs c e =
    append_assoc current (c ∷ taken) rest ∙ ap (λ l. current ++ (c ∷ l)) e

abbrev Joins : List ℕ → List ℕ → List (List ℕ) → Type 0
Joins current cs ps = (behind ps ≡ 59 ∷ (current ++ cs)) × (join ps ≡ current ++ cs)

pieces-Joins :
    (fuel : ℕ) (current cs : List ℕ) → length cs ≤ fuel → Joins current cs (pieces fuel current cs)
unfolding pieces join
pieces-Joins fuel current [] h = (refl, refl)
pieces-Joins zero current (c ∷ cs) h = absurd (omega (arith, h))
pieces-Joins (suc fuel) current (c ∷ cs) h = elim (Option-cases (opaque c cs)) [
  | inl e ↦ elim (Bool-cases (c == 59)) [
    | inl f ↦
        rw (e, f) (at_semicolon (same_unit c 59 f) (pieces-Joins fuel [] cs (omega (arith, h))).0)
    | inr f ↦
        rw (e, f)
          (moved [] cs _ refl (pieces-Joins fuel (current ++ (c ∷ [])) cs (omega (arith, h))))
  ]
  | inr (scan, e) ↦ rw e (
      moved scan.0 scan.1 _ (opaque-whole c cs scan.0 scan.1 e) (
        pieces-Joins fuel (current ++ (c ∷ scan.0)) scan.1
          (omega (arith, h, opaque-shorter c cs scan.0 scan.1 e))))
]
  where
    at_semicolon :
        c ≡ 59
        → behind (pieces fuel [] cs) ≡ 59 ∷ cs
        → Joins current (c ∷ cs) (current ∷ pieces fuel [] cs)
    at_semicolon e g =
        let k = ap (λ l. current ++ l) (g ∙ ap (λ x. x ∷ cs) (sym e)) in (ap (λ l. 59 ∷ l) k, k)

    moved :
        (taken rest : List ℕ) (ps : List (List ℕ))
        → taken ++ rest ≡ cs
        → Joins (current ++ (c ∷ taken)) rest ps
        → Joins current (c ∷ cs) ps
    moved taken rest ps e g =
        let k = passed current taken rest cs c e in (g.0 ∙ ap (λ l. 59 ∷ l) k, g.1 ∙ k)

-- The pieces that splitStatements trims are all of the script: with a semicolon between each two of
-- them they give it back, whatever texts, names and comments it has, ended or not. As many passes
-- as the script has units are enough.
pub join-pieces :
    (fuel : ℕ) (script : List ℕ) → length script ≤ fuel → join (pieces fuel [] script) ≡ script
join-pieces fuel script h = (pieces-Joins fuel [] script h).1
