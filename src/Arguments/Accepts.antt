-- ===== src/Arguments/Accepts.antt =====
-- What the arguments that update() and upsert() accept have.
use bun_boss.Base.{
  ◌≡◌, refl, ap, sym, ◌∙◌, inl, inr, String, ℕ, Bool, true, false, not, ◌&&◌, ◌||◌, if◌then◌else◌,
  List, Option, some, none, str_eq, arith, Bool-cases,
}
use bun_boss.Job.{ℤ}
use bun_boss.Attorney.{
  Value, absent, undefined, null, nan, bool, num, str, func, obj, Config, Checked, accepted,
  refused, ◌>>=◌, ◌>>◌, check, set_key, is_in, is_integer, is_undefined, is_truthy,
}
use bun_boss.Attorney.Options.{
  optional, validate_retry_config, validate_expiration_config, validate_retention_config,
  validate_group_config, validate_heartbeat_config,
}
use bun_boss.Arguments.{
  Request, read_args, spread, is_func, xor, match_strategy, iso_or, number_text, update_start_after,
  check_update_args,
}
use mathlib.Core.Path.{subst}
use text.Mathlib.TextEquality.{eq_iff}

-- What a chain of checks that accepts has accepted on the way.
pub >>=-accepts {ℓ κ} :
    {A : Type ℓ} {B : Type κ} (m : Checked A) (f : A → Checked B) (b : B)
    → (m >>= f) ≡ accepted b
    → (a : A) × ((m ≡ accepted a) × (f a ≡ accepted b))
>>=-accepts (accepted a) f b h = (a, (refl, h))
>>=-accepts (refused s) f b h = absurd (ground arith)

pub check-passes {κ} :
    {B : Type κ} (t : Bool) (s : String) (k : Checked B) (b : B)
    → (check t s >> k) ≡ accepted b
    → (t ≡ true) × (k ≡ accepted b)
check-passes true s k b h = (refl, h)
check-passes false s k b h = absurd (ground arith)

pub accepted-eq {ℓ} : {A : Type ℓ} (a b : A) → accepted a ≡ accepted b → a ≡ b
accepted-eq a b h = ap (λ m. elim m [ accepted x ↦ x | refused s ↦ a ]) h

skip {κ} :
    {B : Type κ} (m : Checked (Unit {0})) (k : Checked B) (b : B)
    → (m >> k) ≡ accepted b
    → k ≡ accepted b
skip m k b h = (>>=-accepts m (λ u. k) b h).1.1

-- A truthy name, a payload that is no function, exactly one of id and singletonKey, match only with
-- singletonKey and one of its strategies, and a priority that is an integer if it is there.
abbrev pub IsTargeted : Request → Type 0
IsTargeted r =
    (is_truthy r.name ≡ true)
    × ((is_func r.payload ≡ false)
        × ((xor (is_truthy (r.options "id")) (is_truthy (r.options "singletonKey")) ≡ true)
            × (((is_truthy (r.options "id") && not (is_undefined (r.options "match"))) ≡ false)
                × (((is_undefined (r.options "match") || match_strategy (r.options "match")) ≡ true)
                    × (optional is_integer (r.options "priority") ≡ true)))))

not-true : {b : Bool} → not b ≡ true → b ≡ false
not-true {b = true} h = absurd (ground arith)
not-true {b = false} h = refl

module _ (number_of : String → Option ℤ) (text_of : Value → String)
    (date_text : Value → Option String) (units : String → List ℕ)
    (entries : Config → List (String × Value)) where
  abbrev moved : Value → Value
  moved = update_start_after number_of text_of date_text units entries

  moved-is_in : (v : Value) → is_in (moved v) ≡ true
  moved-is_in v = either (date_text v)
    where
      numbers : (w : Value) → is_in (number_text number_of text_of date_text units entries w) ≡ true
      numbers absent = refl
      numbers undefined = refl
      numbers null = refl
      numbers nan = refl
      numbers (bool b) = refl
      numbers (num z) = refl
      numbers (str s) = refl
      numbers func = refl
      numbers (obj f) = refl

      either :
          (o : Option String)
          → is_in (iso_or o (number_text number_of text_of date_text units entries v)) ≡ true
      either (some iso) = refl
      either none = numbers v

  -- The options that update() passes on: startAfter as a text, if it is there.
  abbrev passed : Config → Config
  passed c = if is_in (c "startAfter") then set_key "startAfter" (moved (c "startAfter")) c else c

  set_key-is_in :
      (key k : String) (v : Value) (c : Config)
      → is_in (c key) ≡ true
      → is_in v ≡ true
      → is_in (set_key key v c k) ≡ is_in (c k)
  set_key-is_in key k v c h e = elim (Bool-cases (str_eq k key)) [
    | inl f ↦ rw f (e ∙ sym h ∙ ap (λ x. is_in (c x)) (sym ((eq_iff k key).0 f)))
    | inr f ↦ rw f refl
  ]

  passed-is_in : (c : Config) (k : String) → is_in (passed c k) ≡ is_in (c k)
  passed-is_in c k = elim (Bool-cases (is_in (c "startAfter"))) [
    | inl e ↦ rw e (set_key-is_in "startAfter" k _ c e (moved-is_in (c "startAfter")))
    | inr e ↦ rw e refl
  ]

  passed-same : (c : Config) (k : String) → str_eq k "startAfter" ≡ false → passed c k ≡ c k
  passed-same c k h = elim (Bool-cases (is_in (c "startAfter"))) [
    | inl e ↦ rw (e, h) refl
    | inr e ↦ rw e refl
  ]

  targets :
      (c : Config)
      → xor (is_truthy (c "id")) (is_truthy (c "singletonKey")) ≡ true
      → (is_truthy (c "id") && not (is_undefined (c "match"))) ≡ false
      → (is_undefined (c "match") || match_strategy (c "match")) ≡ true
      → optional is_integer (c "priority") ≡ true
      → let o = passed c in
        (xor (is_truthy (o "id")) (is_truthy (o "singletonKey")) ≡ true)
        × (((is_truthy (o "id") && not (is_undefined (o "match"))) ≡ false)
            × (((is_undefined (o "match") || match_strategy (o "match")) ≡ true)
                × (optional is_integer (o "priority") ≡ true)))
  targets c a b d e =
      rw
        (
          passed-same c "id" refl,
          passed-same c "singletonKey" refl,
          passed-same c "match" refl,
          passed-same c "priority" refl,
        )
        (a, (b, (d, e)))

  -- Where update() accepts its arguments, they name exactly one target, and the options that it passes on
  -- are those given: no key is added or lost, and no value but startAfter's is another.
  pub check_update_args-IsTargeted :
      (args : List Value) (r : Request)
      → check_update_args number_of text_of date_text units entries args ≡ accepted r
      → IsTargeted r
        × ((given : Value) × ((read_args "update" args ≡ accepted (r.name, (r.payload, given)))
              × ((key : String)
                  → (is_in (r.options key) ≡ is_in (spread given key))
                    × (str_eq key "startAfter" ≡ false → r.options key ≡ spread given key))))
  unfolding check_update_args
  check_update_args-IsTargeted args r h =
      let (read, (e, h₁)) = >>=-accepts (read_args "update" args) _ r h in
      let h₂ = check-passes (is_truthy read.0) _ _ r h₁ in
      let h₃ = check-passes (not (is_func read.1.0)) _ _ r h₂.1 in
      let h₄ = check-passes _ _ _ r h₃.1 in
      let h₅ = check-passes _ _ _ r h₄.1 in
      let h₆ = check-passes _ _ _ r h₅.1 in
      let h₇ = check-passes _ _ _ r h₆.1 in
      let g = spread read.1.1 in
      let k₁ = skip (validate_retry_config (passed g)) _ r h₇.1 in
      let k₂ = skip (validate_expiration_config number_of (passed g)) _ r k₁ in
      let k₃ = skip (validate_retention_config number_of (passed g)) _ r k₂ in
      let k₄ = skip (validate_group_config (passed g)) _ r k₃ in
      let q = accepted-eq _ r (skip (validate_heartbeat_config (passed g)) _ r k₄) in
      subst Holds q (
        (h₂.0, (not-true h₃.0, targets g h₄.0 (not-true h₅.0) h₆.0 h₇.0)),
        (read.1.1, (e, λ key. (passed-is_in g key, passed-same g key))),
      )
    where
      Holds : Request → Type 0
      Holds s =
          IsTargeted s
          × ((given : Value) × ((read_args "update" args ≡ accepted (s.name, (s.payload, given)))
                × ((key : String)
                    → (is_in (s.options key) ≡ is_in (spread given key))
                      × (str_eq key "startAfter" ≡ false → s.options key ≡ spread given key))))
