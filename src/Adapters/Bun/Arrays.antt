-- ===== src/Adapters/Bun/Arrays.antt =====
-- An array literal stands for one array only, whatever the texts in it.
use bun_boss.Base.{
  ℕ, ◌≡◌, refl, ap, ◌∙◌, sym, inl, inr, true, false, if◌then◌else◌, List, [], ◌∷◌, ◌++◌, ◌==◌,
  arith, Option, none, some, Bool-cases,
}
use bun_boss.Adapters.Bun.{
  Element, null, text, array, Elements, nil, cons, double_backslashes, escape_quotes, join_commas,
  element_literal, element_literals, to_array_literal,
}
use bun_boss.Adapters.Sqlite.Lengths.{append_assoc, append-nil}
use mathlib.Core.List.{head-eq_of_cons-eq, tail-eq_of_cons-eq}

-- The escapes of one unit, and of a text before `r`.
abbrev escaped : List ℕ → List ℕ → List ℕ
escaped [] r = r
escaped (c ∷ cs) r =
    if c == 92
    then 92 ∷ 92 ∷ escaped cs r
    else if c == 34
    then 92 ∷ 34 ∷ escaped cs r
    else c ∷ escaped cs r

-- The literals before `r`.
unfoldable mutual
  literal : Element → List ℕ → List ℕ
  literal null r = 78 ∷ 85 ∷ 76 ∷ 76 ∷ r
  literal (text t) r = 34 ∷ escaped t (34 ∷ r)
  literal (array es) r = 123 ∷ first es (125 ∷ r)

  first : Elements → List ℕ → List ℕ
  first nil r = r
  first (cons e es) r = literal e (later es r)

  later : Elements → List ℕ → List ℕ
  later nil r = r
  later (cons e es) r = 44 ∷ literal e (later es r)

both : {d e : Element} {es fs : Elements} → d ≡ e → es ≡ fs → cons d es ≡ cons e fs
both {e} {es} p q = ap (λ x. cons x es) p ∙ ap (cons e) q

escaped-eq : (t r : List ℕ) → escape_quotes (double_backslashes t) ++ r ≡ escaped t r
escaped-eq [] r = refl
escaped-eq (c ∷ cs) r = elim (Bool-cases (c == 92)) [
  | inl e ↦ rw e (ap (λ l. 92 ∷ 92 ∷ l) (escaped-eq cs r))
  | inr e ↦ elim (Bool-cases (c == 34)) [
    | inl f ↦ rw (e, f) (ap (λ l. 92 ∷ 34 ∷ l) (escaped-eq cs r))
    | inr f ↦ rw (e, f) (ap (λ l. c ∷ l) (escaped-eq cs r))
  ]
]

mutual
  unfolding element_literal literal

  literal-eq : (e : Element) (r : List ℕ) → element_literal e ++ r ≡ literal e r
  literal-eq null r = refl
  literal-eq (text t) r = ap (λ l. 34 ∷ l) (append_assoc _ (34 ∷ []) r ∙ escaped-eq t (34 ∷ r))
  literal-eq (array es) r =
      ap (λ l. 123 ∷ l)
        (append_assoc (join_commas (element_literals es)) (125 ∷ []) r ∙ first-eq es (125 ∷ r))

  first-eq : (es : Elements) (r : List ℕ) → join_commas (element_literals es) ++ r ≡ first es r
  first-eq nil r = refl
  first-eq (cons e nil) r = literal-eq e r
  first-eq (cons e (cons f es)) r =
      append_assoc (element_literal e) _ r
      ∙ ap (λ l. element_literal e ++ (44 ∷ l)) (first-eq (cons f es) r)
      ∙ literal-eq e (44 ∷ first (cons f es) r)

-- Reading an escaped text up to its closing quote.
abbrev push : ℕ → Option (List ℕ × List ℕ) → Option (List ℕ × List ℕ)
push c none = none
push c (some (t, r)) = some (c ∷ t, r)

unfoldable mutual
  unescape : List ℕ → Option (List ℕ × List ℕ)
  unescape [] = none
  unescape (c ∷ l) =
      let unit = push c (unescape l) in
      let escape = unescape_next l in
      if c == 34 then some ([], l) else if c == 92 then escape else unit

  unescape_next : List ℕ → Option (List ℕ × List ℕ)
  unescape_next [] = none
  unescape_next (d ∷ l) = push d (unescape l)

unit_eq : (c d : ℕ) → (c == d) ≡ true → d ≡ c
unit_eq c d e = ground arith

unescape-escaped : (t r : List ℕ) → unescape (escaped t (34 ∷ r)) ≡ some (t, r)
unfolding unescape
unescape-escaped [] r = refl
unescape-escaped (c ∷ cs) r = elim (Bool-cases (c == 92)) [
  | inl e ↦ rw (e, unescape-escaped cs r) (ap (λ x. some (x ∷ cs, r)) (unit_eq c 92 e))
  | inr e ↦ elim (Bool-cases (c == 34)) [
    | inl f ↦ rw (e, f, unescape-escaped cs r) (ap (λ x. some (x ∷ cs, r)) (unit_eq c 34 f))
    | inr f ↦ rw (e, f) (rw (e, f, unescape-escaped cs r) refl)
  ]
]

text_of : Option (List ℕ × List ℕ) → List ℕ
text_of none = []
text_of (some (t, r)) = t

rest_of : Option (List ℕ × List ℕ) → List ℕ
rest_of none = []
rest_of (some (t, r)) = r

escaped-injective : (t u r s : List ℕ) → escaped t (34 ∷ r) ≡ escaped u (34 ∷ s) → (t ≡ u) × (r ≡ s)
unfolding text_of rest_of
escaped-injective t u r s e =
    let k = sym (unescape-escaped t r) ∙ ap unescape e ∙ unescape-escaped u s in
    (ap text_of k, ap rest_of k)

differ : {c d : ℕ} {l m : List ℕ} → (c == d) ≡ false → c ∷ l ≡ d ∷ m → ⊥
differ n e = ground (arith, n, head-eq_of_cons-eq e)

mutual
  unfolding literal

  literal-injective : (d e : Element) (r s : List ℕ) → literal d r ≡ literal e s → (d ≡ e) × (r ≡ s)
  literal-injective null null r s h =
      (refl, tail-eq_of_cons-eq (tail-eq_of_cons-eq (tail-eq_of_cons-eq (tail-eq_of_cons-eq h))))
  literal-injective null (text t) r s h = absurd (differ refl h)
  literal-injective null (array es) r s h = absurd (differ refl h)
  literal-injective (text t) null r s h = absurd (differ refl h)
  literal-injective (text t) (text u) r s h =
      let k = escaped-injective t u r s (tail-eq_of_cons-eq h) in (ap text k.0, k.1)
  literal-injective (text t) (array es) r s h = absurd (differ refl h)
  literal-injective (array es) null r s h = absurd (differ refl h)
  literal-injective (array es) (text t) r s h = absurd (differ refl h)
  literal-injective (array es) (array fs) r s h =
      let k = first-injective es fs r s (tail-eq_of_cons-eq h) in (ap array k.0, k.1)

  first-injective :
      (es fs : Elements) (r s : List ℕ)
      → first es (125 ∷ r) ≡ first fs (125 ∷ s)
      → (es ≡ fs) × (r ≡ s)
  first-injective nil nil r s h = (refl, tail-eq_of_cons-eq h)
  first-injective nil (cons null fs) r s h = absurd (differ refl h)
  first-injective nil (cons (text t) fs) r s h = absurd (differ refl h)
  first-injective nil (cons (array gs) fs) r s h = absurd (differ refl h)
  first-injective (cons null es) nil r s h = absurd (differ refl h)
  first-injective (cons (text t) es) nil r s h = absurd (differ refl h)
  first-injective (cons (array gs) es) nil r s h = absurd (differ refl h)
  first-injective (cons d es) (cons e fs) r s h =
      let k = literal-injective d e _ _ h in
      let l = later-injective es fs r s k.1 in (both k.0 l.0, l.1)

  later-injective :
      (es fs : Elements) (r s : List ℕ)
      → later es (125 ∷ r) ≡ later fs (125 ∷ s)
      → (es ≡ fs) × (r ≡ s)
  later-injective nil nil r s h = (refl, tail-eq_of_cons-eq h)
  later-injective nil (cons e fs) r s h = absurd (differ refl h)
  later-injective (cons d es) nil r s h = absurd (differ refl h)
  later-injective (cons d es) (cons e fs) r s h =
      let k = literal-injective d e _ _ (tail-eq_of_cons-eq h) in
      let l = later-injective es fs r s k.1 in (both k.0 l.0, l.1)

-- Two arrays of which toArrayLiteral makes one literal are the same, element by element, nested arrays
-- and nulls included: no comma, brace, quote or backslash in a text is read as syntax.
pub to_array_literal-injective :
    (es fs : Elements) → to_array_literal es ≡ to_array_literal fs → es ≡ fs
unfolding to_array_literal literal
to_array_literal-injective es fs h =
    (first-injective es fs [] []
      (tail-eq_of_cons-eq (plain (array es) ∙ h ∙ sym (plain (array fs))))).0
  where
    plain : (e : Element) → literal e [] ≡ element_literal e
    plain e = sym (literal-eq e []) ∙ append-nil (element_literal e)
