-- ===== src/Adapters/Sqlite/References.antt =====
-- What src/adapters/sqlite.ts (rewritePlaceholders) rewrites: the references outside of quotes and
-- comments.
use bun_boss.Base.{
  ℕ, zero, suc, ◌≤◌, ◌≡◌, refl, ◌⊎◌, inl, inr, ◌&&◌, List, [], ◌∷◌, ◌++◌, Option, none, some, ◌==◌,
  arith, length, Bool-cases, Option-cases,
}
use bun_boss.Adapters.Sqlite.{
  opaque, keep, bind, starts_index, Rewritten, rewritten, unbound, value_at, rewrite_from,
  rewrite_placeholders,
}
use bun_boss.Adapters.Sqlite.Lengths.{opaque-shorter}
use bun_boss.Adapters.Sqlite.Tokens.{
  digits, number_from, outside, tokens, print, marked, indexes, digits-shorter, parse_index-digits,
  print-tokens,
}
use bun_boss.Adapters.Sqlite.Skipped.{
  marked-raws, indexes-raws, opaque-tokens, plain-tokens, tokens-nil,
}

module _ {ℓ} {V : Type ℓ} where
  -- The values of the indexes, and the first index that has none.
  abbrev pub and_value : ℕ → Option V → List V ⊎ ℕ → List V ⊎ ℕ
  and_value i none b = inr i
  and_value i (some v) (inl vs) = inl (v ∷ vs)
  and_value i (some v) (inr j) = inr j

  unfoldable pub bound : List V → List ℕ → List V ⊎ ℕ
  bound values [] = inl []
  bound values (i ∷ is) = and_value i (value_at i values) (bound values is)

  abbrev pub result : List ℕ → List V ⊎ ℕ → Rewritten V
  result query (inl params) = rewritten query params
  result query (inr i) = unbound i

module _ {ℓ} {V : Type ℓ} (values : List V) where
  keep-result :
      (text query : List ℕ) (b : List V ⊎ ℕ) → keep text (result query b) ≡ result (text ++ query) b
  keep-result text query (inl params) = refl
  keep-result text query (inr i) = refl

  bind-result :
      (index : ℕ) (query : List ℕ) (o : Option V) (b : List V ⊎ ℕ)
      → bind index o (result query b) ≡ result (63 ∷ query) (and_value index o b)
  bind-result index query none b = refl
  bind-result index query (some v) (inl params) = refl
  bind-result index query (some v) (inr i) = refl

  rewrite_from-result :
      (fuel : ℕ) (cs : List ℕ)
      → length cs ≤ fuel
      → let ts = tokens outside cs in
        rewrite_from fuel values cs ≡ result (marked ts) (bound values (indexes ts))
  unfolding rewrite_from bound
  rewrite_from-result fuel [] h = rw tokens-nil refl
  rewrite_from-result zero (c ∷ cs) h = absurd (omega (arith, h))
  rewrite_from-result (suc fuel) (c ∷ cs) h = elim (Option-cases (opaque c cs)) [
    | inl e ↦ elim (Bool-cases (c == 36 && starts_index cs)) [
      | inl f ↦
          rw
            (
              plain-tokens c cs e,
              e,
              f,
              parse_index-digits 0 cs,
              rewrite_from-result fuel (digits cs).1 (omega (arith, h, digits-shorter cs)),
            )
            (bind-result (number_from 0 (digits cs).0) _ _ _)
      | inr f ↦
          rw (plain-tokens c cs e, e, f, rewrite_from-result fuel cs (omega (arith, h)))
            (keep-result (c ∷ []) _ _)
    ]
    | inr (scan, e) ↦
        rw
          (
            opaque-tokens c cs scan.0 scan.1 e,
            e,
            rewrite_from-result fuel scan.1 (omega (arith, h, opaque-shorter c cs scan.0 scan.1 e)),
            marked-raws scan.0 (tokens outside scan.1),
            indexes-raws scan.0 (tokens outside scan.1),
          )
          (keep-result (c ∷ scan.0) _ _)
  ]

-- Read unit by unit, with texts and names in quotes and both kinds of comments told apart, the text is
-- made of plain units and of references `$n`, which stand outside of these. Where each reference has a
-- value, rewritePlaceholders gives the text with a mark for each reference and all else as it was, and
-- the values in the order of the references; else it throws for the first one that has none.
pub rewrite_placeholders-result {ℓ} :
    {V : Type ℓ} (text : List ℕ) (values : List V)
    → let ts = tokens outside text in
      (print ts ≡ text)
      × (rewrite_placeholders text values ≡ result (marked ts) (bound values (indexes ts)))
unfolding rewrite_placeholders
rewrite_placeholders-result text values =
    (print-tokens outside text, rewrite_from-result values (length text) text (omega arith))
