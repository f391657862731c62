-- ===== src/Names/Quoting.antt =====
-- What the schema names that pass assertPostgresObjectName may hold, and what normalising keeps.
use bun_boss.Base.{
  ℕ, suc, ◌≤◌, ◌≡◌, refl, ap, String, Bool, true, false, not, ◌&&◌, ◌||◌, if◌then◌else◌, List, [],
  ◌∷◌, map, Option, none, some, leb, ◌==◌, any, length, arith, &&-elim,
}
use bun_boss.Attorney.{Checked, accepted, ◌>>◌, check}
use bun_boss.Names.{
  is_quoted, unquote, is_control, quoted_name_problem, is_digit, is_word, bytes_of, byte_length,
  assert_postgres_object_name, to_lower, resolve_schema_name, is_lower_word, is_plain,
  normalize_schema_name, starts_with_digit, check_quoted,
}

-- The characters that could leave an identifier, a literal or a format template.
abbrev pub is_dangerous : ℕ → Bool
is_dangerous c =
    c == 34 || (c == 39 || (c == 37 || (c == 36 || (c == 46 || (c == 92 || is_control c)))))

word_safe : (c : ℕ) → is_word c ≡ true → is_dangerous (to_lower c) ≡ false
word_safe c h = ground arith

lower_word-to_lower : (c : ℕ) → is_lower_word c ≡ true → to_lower c ≡ c
lower_word-to_lower c h = ground arith

word_bytes : (c : ℕ) → is_word c ≡ true → bytes_of (to_lower c) ≡ bytes_of c
word_bytes c h = ground arith

next_if :
    {b : Bool} (s : String) (r : Option String)
    → (if b then some s else r) ≡ none
    → (b ≡ false) × (r ≡ none)
next_if {b = true} s r h = ground arith
next_if {b = false} s r h = (refl, h)

any-|| :
    (p q : ℕ → Bool) (cs : List ℕ)
    → any p cs ≡ false
    → any q cs ≡ false
    → any (λ c. p c || q c) cs ≡ false
any-|| p q [] h k = refl
any-|| p q (c ∷ cs) h k = ground (arith, any-|| p q cs)

quoted_name_problem-safe :
    (cs : List ℕ) → quoted_name_problem cs ≡ none → any is_dangerous cs ≡ false
unfolding quoted_name_problem
quoted_name_problem-safe cs h =
    let h₁ = next_if _ _ h in
    let h₂ = next_if _ _ h₁.1 in
    let h₃ = next_if _ _ h₂.1 in
    let h₄ = next_if _ _ h₃.1 in
    let h₅ = next_if _ _ h₄.1 in
    let h₆ = next_if _ _ h₅.1 in
    let h₇ = next_if _ _ h₆.1 in
    any-|| _ _ cs h₁.0 (
      any-|| _ _ cs h₂.0
        (any-|| _ _ cs h₃.0 (any-|| _ _ cs h₄.0 (any-|| _ _ cs h₅.0 (any-|| _ _ cs h₆.0 h₇.0)))))

any-∷ :
    (p : ℕ → Bool) (c : ℕ) (cs : List ℕ)
    → any p (c ∷ cs) ≡ false
    → (p c ≡ false) × (any p cs ≡ false)
any-∷ p c cs h = (ground arith, ground arith)

not-false : {b : Bool} → not b ≡ false → b ≡ true
not-false {b = true} h = refl
not-false {b = false} h = ground arith

not-true : {b : Bool} → not b ≡ true → b ≡ false
not-true {b = true} h = ground arith
not-true {b = false} h = refl

map-safe :
    (cs : List ℕ)
    → any (λ c. not (is_word c)) cs ≡ false
    → any is_dangerous (map to_lower cs) ≡ false
map-safe [] h = refl
map-safe (c ∷ cs) h =
    let k = any-∷ (λ c. not (is_word c)) c cs h in
    rw (word_safe c (not-false k.0), map-safe cs k.1) refl

map-bytes :
    (cs : List ℕ)
    → any (λ c. not (is_word c)) cs ≡ false
    → byte_length (map to_lower cs) ≡ byte_length cs
unfolding byte_length
map-bytes [] h = refl
map-bytes (c ∷ cs) h =
    let k = any-∷ (λ c. not (is_word c)) c cs h in
    rw (word_bytes c (not-false k.0), map-bytes cs k.1) refl

length-map : (cs : List ℕ) → length (map to_lower cs) ≡ length cs
length-map [] = refl
length-map (c ∷ cs) = ap suc (length-map cs)

check-accepts : (b : Bool) (s : String) → check b s ≡ accepted tt → b ≡ true
check-accepts true s h = refl
check-accepts false s h = ground arith

>>-accepts :
    (b : Bool) (s : String) (k : Checked (Unit {0}))
    → (check b s >> k) ≡ accepted tt
    → (b ≡ true) × (k ≡ accepted tt)
>>-accepts true s k h = (refl, h)
>>-accepts false s k h = ground arith

check_quoted-accepts : (o : Option String) → check_quoted o ≡ accepted tt → o ≡ none
check_quoted-accepts none h = refl
check_quoted-accepts (some problem) h = ground arith

nonempty : (n : ℕ) → not (n == 0) ≡ true → 1 ≤ n
nonempty n h = ground arith

at_most_50 : (n : ℕ) → leb n 50 ≡ true → n ≤ 50
at_most_50 n h = ground arith

-- assertPostgresObjectName by whether the name is quoted, `u` being what it quotes.
abbrev pub checks : Bool → List ℕ → List ℕ → Checked (Unit {0})
checks q u name =
    let resolved = if q then u else name in
    check (not (length resolved == 0)) "Name cannot be empty"
    >> (check (leb (byte_length resolved) 50) "Name cannot exceed 50 bytes"
        >> (if q
            then check_quoted (quoted_name_problem resolved)
            else (check (not (any (λ c. not (is_word c)) name))
                  "Schema name can only contain alphanumeric characters or underscores when unquoted."
                >> check (not (starts_with_digit name))
                    "Schema name cannot start with a number when unquoted.")))

checks-safe :
    (q : Bool) (u name : List ℕ)
    → checks q u name ≡ accepted tt
    → let r = if q then u else map to_lower name in
      (any is_dangerous r ≡ false) × ((1 ≤ length r) × (byte_length r ≤ 50))
checks-safe true u name h =
    let k = >>-accepts (not (length u == 0)) _ _ h in
    let l = >>-accepts (leb (byte_length u) 50) _ _ k.1 in
    (
      quoted_name_problem-safe u (check_quoted-accepts _ l.1),
      (nonempty (length u) k.0, at_most_50 (byte_length u) l.0),
    )
checks-safe false u name h =
    let k = >>-accepts (not (length name == 0)) _ _ h in
    let l = >>-accepts (leb (byte_length name) 50) _ _ k.1 in
    let m = not-true (>>-accepts (not (any (λ c. not (is_word c)) name)) _ _ l.1).0 in
    (
      map-safe name m,
      (
        rw (length-map name) (nonempty (length name) k.0),
        rw (map-bytes name m) (at_most_50 (byte_length name) l.0),
      ),
    )

-- The name that an accepted schema is stored under has at least one character, at most 50 bytes and
-- none of the characters that end an identifier or a literal, split a name, or are read by a
-- format template.
pub assert_postgres_object_name-safe :
    (name : List ℕ)
    → assert_postgres_object_name name ≡ accepted tt
    → (any is_dangerous (resolve_schema_name name) ≡ false)
      × ((1 ≤ length (resolve_schema_name name)) × (byte_length (resolve_schema_name name) ≤ 50))
unfolding assert_postgres_object_name resolve_schema_name
assert_postgres_object_name-safe name h = checks-safe (is_quoted name) (unquote name) name h

-- Plain names are not quoted, and stored as they are.
plain-to_lower : (cs : List ℕ) → any (λ d. not (is_lower_word d)) cs ≡ false → map to_lower cs ≡ cs
plain-to_lower [] h = refl
plain-to_lower (c ∷ cs) h =
    let k = any-∷ (λ d. not (is_lower_word d)) c cs h in
    rw (lower_word-to_lower c (not-false k.0), plain-to_lower cs k.1) refl

no_quote : (c : ℕ) → is_lower_word c ≡ true → (c == 34) ≡ false
no_quote c h = ground arith

plain-is_quoted : (cs : List ℕ) → any (λ d. not (is_lower_word d)) cs ≡ false → is_quoted cs ≡ false
unfolding is_quoted
plain-is_quoted [] h = refl
plain-is_quoted (c ∷ []) h = refl
plain-is_quoted (c ∷ d ∷ cs) h =
    rw (no_quote c (not-false (any-∷ (λ d. not (is_lower_word d)) c (d ∷ cs) h).0)) refl

is_plain-any : (cs : List ℕ) → is_plain cs ≡ true → any (λ d. not (is_lower_word d)) cs ≡ false
is_plain-any [] h = refl
is_plain-any (c ∷ cs) h = not-true (&&-elim {a = not (is_digit c)} h).1

-- The form of a schema that the notification channel and the advisory lock are derived from is stored
-- under the same name as the schema itself.
pub resolve-normalize_schema_name :
    (schema : List ℕ)
    → resolve_schema_name (normalize_schema_name schema) ≡ resolve_schema_name schema
unfolding resolve_schema_name normalize_schema_name
resolve-normalize_schema_name schema =
    by_form (is_quoted schema) (is_plain (unquote schema)) refl refl
  where
    resolved : Bool → List ℕ
    resolved q = if q then unquote schema else map to_lower schema

    by_form :
        (q p : Bool)
        → is_quoted schema ≡ q
        → is_plain (unquote schema) ≡ p
        → resolve_schema_name (if q && p then unquote schema else schema) ≡ resolved q
    by_form true true e f =
        let a = is_plain-any (unquote schema) f in
        rw (plain-is_quoted (unquote schema) a) (plain-to_lower (unquote schema) a)
    by_form true false e f = rw e refl
    by_form false p e f = rw e refl
