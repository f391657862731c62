-- ===== src/Arguments/Backend/Isolation.antt =====
-- What a configuration that resolveBackend accepts is consistent in.
use bun_boss.Base.{
  ◌≡◌, refl, ap, sym, ◌∙◌, inl, inr, String, Bool, true, false, not, ◌||◌, List, [], ◌∷◌, any,
  str_eq, arith, Bool-cases,
}
use bun_boss.Attorney.{Value, bool, str, Config, accepted, ◌>>=◌, check, is_in, is_truthy}
use bun_boss.Attorney.Options.{optional}
use bun_boss.Arguments.Accepts.{>>=-accepts, check-passes, accepted-eq}
use bun_boss.Arguments.Backend.{
  Backend, postgres, pglite, sqlite, read_backend, isolation_of, is_prefix, read_isolation,
  set_isolation, resolve_table_isolation, hook, hooks, test_flags, test_hooks, check_adapter,
  with_profile, resolve_backend,
}
use mathlib.Core.Path.{subst}
use text.Mathlib.TextEquality.{eq_iff}

-- A prefix goes without partitions and without a schema; sqlite is always a prefix, on an adapter and
-- without a url, and sets every compatibility flag.
abbrev pub PrefixFits : Config → Type 0
PrefixFits c =
    is_prefix (c "tableIsolation") ≡ true
    → (c "noTablePartitioning" ≡ bool true) × (c "createSchema" ≡ bool false)

abbrev pub SqliteFits : Config → Type 0
SqliteFits c =
    c "backend" ≡ str "sqlite"
    → (is_prefix (c "tableIsolation") ≡ true)
      × ((is_truthy (c "db") ≡ true)
          × ((is_in (c "url") ≡ false)
              × ((c "noSkipLocked" ≡ bool true)
                  × ((c "noMultiMutationCte" ≡ bool true)
                      × ((c "noTablePartitioning" ≡ bool true)
                          × ((c "noDeferrableConstraints" ≡ bool true)
                              × ((c "noAdvisoryLocks" ≡ bool true)
                                  × ((c "noCoveringIndexes" ≡ bool true)
                                      × (c "noListenNotify" ≡ bool true)))))))))

hook-other :
    (test flag key : String) (c : Config) → str_eq key flag ≡ false → hook test flag c key ≡ c key
hook-other test flag key c h = elim (Bool-cases (is_truthy (c test))) [
  | inl e ↦ rw (e, h) refl
  | inr e ↦ rw e refl
]

hook-true :
    (test flag key : String) (c : Config) → c key ≡ bool true → hook test flag c key ≡ bool true
hook-true test flag key c h = elim (Bool-cases (is_truthy (c test))) [
  | inl e ↦ elim (Bool-cases (str_eq key flag)) [ inl f ↦ rw (e, f) refl | inr f ↦ rw (e, f) h ]
  | inr e ↦ rw e h
]

hooks-true :
    (fs : List (String × String)) (key : String) (c : Config)
    → c key ≡ bool true
    → hooks fs c key ≡ bool true
hooks-true [] key c h = h
hooks-true ((test, flag) ∷ fs) key c h =
    hooks-true fs key (hook test flag c) (hook-true test flag key c h)

-- Whether a key is one of the flags.
abbrev is_flag : String → List (String × String) → Bool
is_flag key fs = any (λ f. str_eq key f.1) fs

neither : (a b : Bool) → (a || b) ≡ false → (a ≡ false) × (b ≡ false)
neither true b h = absurd (ground arith)
neither false b h = (refl, h)

hooks-same :
    (fs : List (String × String)) (key : String) (c : Config)
    → is_flag key fs ≡ false
    → hooks fs c key ≡ c key
hooks-same [] key c h = refl
hooks-same ((test, flag) ∷ fs) key c h =
    let k = neither (str_eq key flag) (is_flag key fs) h in
    hooks-same fs key (hook test flag c) k.1 ∙ hook-other test flag key c k.0

hooks-other :
    (key : String) (c : Config) → is_flag key test_flags ≡ false → test_hooks c key ≡ c key
hooks-other key c h = hooks-same test_flags key c h

hooks-PrefixFits : (c : Config) → PrefixFits c → PrefixFits (test_hooks c)
hooks-PrefixFits c f h =
    let k = f (ap is_prefix (sym (hooks-other "tableIsolation" c refl)) ∙ h) in
    (hooks-true test_flags "noTablePartitioning" c k.0, hooks-other "createSchema" c refl ∙ k.1)

hooks-SqliteFits : (c : Config) → SqliteFits c → SqliteFits (test_hooks c)
hooks-SqliteFits c f h =
    let k = f (sym (hooks-other "backend" c refl) ∙ h) in
    (
      ap is_prefix (hooks-other "tableIsolation" c refl) ∙ k.0,
      (
        ap is_truthy (hooks-other "db" c refl) ∙ k.1.0,
        (
          ap is_in (hooks-other "url" c refl) ∙ k.1.1.0,
          (
            hooks-true test_flags "noSkipLocked" c k.1.1.1.0,
            (
              hooks-true test_flags "noMultiMutationCte" c k.1.1.1.1.0,
              (
                hooks-true test_flags "noTablePartitioning" c k.1.1.1.1.1.0,
                (
                  hooks-true test_flags "noDeferrableConstraints" c k.1.1.1.1.1.1.0,
                  (
                    hooks-true test_flags "noAdvisoryLocks" c k.1.1.1.1.1.1.1.0,
                    (
                      hooks-true test_flags "noCoveringIndexes" c k.1.1.1.1.1.1.1.1.0,
                      hooks-true test_flags "noListenNotify" c k.1.1.1.1.1.1.1.1.1,
                    ),
                  ),
                ),
              ),
            ),
          ),
        ),
      ),
    )

set_isolation-PrefixFits : (i : String) (c : Config) → PrefixFits (set_isolation i c)
set_isolation-PrefixFits i c = elim (Bool-cases (str_eq i "prefix")) [
  | inl e ↦ rw e (λ h. (refl, refl))
  | inr e ↦ rw e (λ h. absurd (ground (arith, e)))
]

not_in : {b : Bool} → not b ≡ true → b ≡ false
not_in {b = true} h = absurd (ground arith)
not_in {b = false} h = refl

-- What sqlite accepts, with its isolation.
sqlite-SqliteFits :
    (c : Config)
    → is_truthy (c "db") ≡ true
    → not (is_in (c "url")) ≡ true
    → SqliteFits (set_isolation "prefix" (with_profile sqlite c))
sqlite-SqliteFits c d u h =
    (refl, (d, (not_in u, (refl, (refl, (refl, (refl, (refl, (refl, refl)))))))))

check-accepts : (b : Bool) (s : String) → check b s ≡ accepted tt → b ≡ true
check-accepts true s h = refl
check-accepts false s h = ground arith

isolation-backend : (i : String) (c : Config) → set_isolation i c "backend" ≡ c "backend"
isolation-backend i c = elim (Bool-cases (str_eq i "prefix")) [
  | inl e ↦ rw e refl
  | inr e ↦ rw e refl
]

text_of : Value → String
text_of (str s) = s
text_of _ = ""

other_name : (s : String) → str_eq s "sqlite" ≡ false → str s ≡ str "sqlite" → ⊥
unfolding text_of
other_name s e h = ground (arith, e, eq_iff s "sqlite", ap text_of h)

abbrev Fits : Config → Type 0
Fits c = PrefixFits c × SqliteFits c

-- The backends that take an isolation.
schema-Fits :
    (name : String) (p d : Config) (v : Value)
    → p "backend" ≡ str name
    → str_eq name "sqlite" ≡ false
    → (isolation_of v >>= λ i. accepted (set_isolation i p)) ≡ accepted d
    → Fits d
schema-Fits name p d v n o h =
    let (i, (e, f)) = >>=-accepts (isolation_of v) (λ j. accepted (set_isolation j p)) d h in
    subst Fits (accepted-eq (set_isolation i p) d f) (
      set_isolation-PrefixFits i p,
      λ k. absurd (other_name name o (sym n ∙ sym (isolation-backend i p) ∙ k)),
    )

-- The isolation of each backend.
resolved-Fits :
    (b : Backend) (c d : Config)
    → (check_adapter b (with_profile b c) ≡ accepted tt)
    → resolve_table_isolation b (with_profile b c) ≡ accepted d
    → Fits d
unfolding resolve_table_isolation
resolved-Fits sqlite c d a h =
    let k = check-passes (is_truthy (c "db")) _ _ tt a in
    let l = check-accepts (not (is_in (c "url"))) _ k.1 in
    let (i, (e, f)) =
      >>=-accepts (read_isolation sqlite (c "tableIsolation"))
        (λ j. accepted (set_isolation j (with_profile sqlite c))) d h in
    let g = check-passes (optional is_prefix (c "tableIsolation")) _ _ i e in
    let j =
      ap (λ x. set_isolation x (with_profile sqlite c)) (accepted-eq _ i g.1) ∙ accepted-eq _ d f in
    subst Fits j
      (set_isolation-PrefixFits "prefix" (with_profile sqlite c), sqlite-SqliteFits c k.0 l)
resolved-Fits postgres c d a h =
    schema-Fits "postgres" (with_profile postgres c) d (c "tableIsolation") refl refl h
resolved-Fits pglite c d a h =
    schema-Fits "pglite" (with_profile pglite c) d (c "tableIsolation") refl refl h

-- A configuration that resolveBackend accepts, test hooks included, is consistent: with a table prefix
-- it has no partitioning and creates no schema, and with sqlite it has a prefix, an adapter, no url
-- and every compatibility flag.
pub resolve_backend-Fits :
    (c d : Config) → resolve_backend c ≡ accepted d → PrefixFits d × SqliteFits d
unfolding resolve_backend
resolve_backend-Fits c d h =
    let (b, (e, h₁)) = >>=-accepts (read_backend (c "backend")) _ d h in
    let (u, (a, h₂)) = >>=-accepts (check_adapter b (with_profile b c)) _ d h₁ in
    let (r, (f, h₃)) = >>=-accepts (resolve_table_isolation b (with_profile b c)) _ d h₂ in
    let k = resolved-Fits b c r a f in
    subst Fits (accepted-eq _ d h₃) (hooks-PrefixFits r k.0, hooks-SqliteFits r k.1)
