-- ===== src/Attorney/Bounds.antt =====
-- The ranges that the checks of src/attorney.ts on intervals guarantee.
use bun_boss.Base.{
  ℕ, ◌≤◌, ◌≡◌, refl, sym, ◌∙◌, String, Bool, true, false, Option, none, some, arith, inl, inr,
  Bool-cases, str_eq,
}
use mathlib.Core.Path.{subst}
use bun_boss.Job.{ℤ, pos, negsuc}
use bun_boss.Attorney.{
  Value, absent, Config, Checked, accepted, refused, ◌>>=◌, ◌>>◌, check, set_key, to_number,
  number_ge, number_le, is_truthy, is_bool,
}
use bun_boss.Attorney.Options.{optional, is_integer_from}
use bun_boss.Attorney.Intervals.{
  apply_polling_interval, apply_ops_interval, apply_ops_config, base_poll, notify_poll, check_burst,
  not_below_base, times_1000, number_max, ge_number, or_else,
}

accepted-injective {ℓ} : {A : Type ℓ} {a b : A} → accepted a ≡ accepted b → a ≡ b
accepted-injective p = cc

pub check-accepted {ℓ} :
    {A : Type ℓ} (b : Bool) (m : String) (k : Checked A) {a : A}
    → (check b m >> k) ≡ accepted a
    → (b ≡ true) × (k ≡ accepted a)
check-accepted true m k h = (refl, h)
check-accepted false m k h = absurd (cc)

pub >>=-accepted {ℓ κ} :
    {A : Type ℓ} {B : Type κ} (m : Checked A) (f : A → Checked B) {b : B}
    → (m >>= f) ≡ accepted b
    → (a : A) × (m ≡ accepted a) × (f a ≡ accepted b)
>>=-accepted (accepted a) f h = (a, refl, h)
>>=-accepted (refused e) f h = absurd (cc)

checked_burst : (c result : Config) {c' : Config} → check_burst c result ≡ accepted c' → result ≡ c'
checked_burst c result h =
    let (a, h₁) =
      check-accepted (optional (is_integer_from 1000) (c "burstWhenReadyExceeds")) _ _ h in
    let (b, h₂) = check-accepted (optional is_bool (c "burstWhenBatchFull")) _ _ h₁ in
    accepted-injective h₂

present :
    (test : Value → Bool) (v : Value) → is_truthy v ≡ true → optional test v ≡ true → test v ≡ true
present test absent e h = absurd (cc)
present test _ e h = h

module _ (number_of : String → Option ℤ) where
  -- An interval between one second and a day.
  abbrev pub IsInterval : Value → Type 0
  IsInterval v =
      (number_ge (to_number number_of v) 1000 ≡ true)
      × (number_le (to_number number_of v) 86400000 ≡ true)

  or_else_from :
      (v : Value) (d least : ℕ)
      → optional (λ w. number_ge (to_number number_of w) least) v ≡ true
      → least ≤ d
      → number_ge (to_number number_of (or_else v d)) least ≡ true
  or_else_from v d least h l = elim (Bool-cases (is_truthy v)) [
    | inl e ↦ rw e (present (λ w. number_ge (to_number number_of w) least) v e h)
    | inr e ↦ rw e (ground arith)
  ]

  ops-IsInterval :
      (key : String) (fallback : ℕ) (c : Config) {c' : Config}
      → 1000 ≤ fallback
      → apply_ops_interval number_of key fallback c ≡ accepted c'
      → (c' ≡ set_key key (or_else (c key) fallback) c) × IsInterval (or_else (c key) fallback)
  unfolding apply_ops_interval
  ops-IsInterval key d c l h =
      let (a, h₁) = check-accepted _ _ _ h in
      let (b, h₂) = check-accepted _ _ _ h₁ in
      (sym (accepted-injective h₂), (or_else_from (c key) d 1000 a l, b))

  -- A step sets its own key to an interval and keeps every other key.
  ops_step :
      (key : String) (fallback : ℕ) (c c' : Config)
      → 1000 ≤ fallback
      → str_eq key key ≡ true
      → apply_ops_interval number_of key fallback c ≡ accepted c'
      → IsInterval (c' key) × ((k : String) → str_eq k key ≡ false → c' k ≡ c k)
  ops_step key d c c' l r h =
      let (e, i) = ops-IsInterval key d c l h in (rw (e, r) i, λ k n. rw (e, n))

  -- A configuration that applyOpsConfig accepts has each of its four intervals between one second
  -- and a day, given by the caller or by default.
  pub ops_config :
      (c : Config) (c' : Config)
      → apply_ops_config number_of c ≡ accepted c'
      → IsInterval (c' "superviseIntervalSeconds")
        × IsInterval (c' "maintenanceIntervalSeconds")
        × IsInterval (c' "monitorIntervalSeconds")
        × IsInterval (c' "queueCacheIntervalSeconds")
  unfolding apply_ops_config
  ops_config c c' h =
      let (c₁, h₁, k₁) = >>=-accepted _ _ h in
      let (c₂, h₂, k₂) = >>=-accepted _ _ k₁ in
      let (c₃, h₃, k₃) = >>=-accepted _ _ k₂ in
      let (i₁, e₁) = ops_step "superviseIntervalSeconds" 60000 c c₁ (omega arith) refl h₁ in
      let (i₂, e₂) = ops_step "maintenanceIntervalSeconds" 86400000 c₁ c₂ (omega arith) refl h₂ in
      let (i₃, e₃) = ops_step "monitorIntervalSeconds" 60000 c₂ c₃ (omega arith) refl h₃ in
      let (i₄, e₄) = ops_step "queueCacheIntervalSeconds" 60000 c₃ c' (omega arith) refl k₃ in
      (
        subst IsInterval (sym (e₄ _ refl ∙ (e₃ _ refl ∙ e₂ _ refl))) i₁,
        subst IsInterval (sym (e₄ _ refl ∙ e₃ _ refl)) i₂,
        subst IsInterval (sym (e₄ _ refl)) i₃,
        i₄,
      )

  scaled :
      (o : Option ℤ)
      → number_ge o 500 ≡ true
      → number_ge (to_number number_of (times_1000 o)) 500000 ≡ true
  scaled none h = absurd (cc)
  scaled (some (pos n)) h = ground arith
  scaled (some (negsuc n)) h = absurd (cc)

  backstop :
      (o : Option ℤ)
      → number_ge o 500000 ≡ true
      → ge_number (to_number number_of (number_max 30000000 o)) o ≡ true
  backstop none h = absurd (cc)
  backstop (some (pos n)) h = ground arith
  backstop (some (negsuc n)) h = absurd (cc)

  base_poll_from :
      (v : Value)
      → optional (λ w. number_ge (to_number number_of w) 500) v ≡ true
      → number_ge (to_number number_of (base_poll number_of v)) 500000 ≡ true
  base_poll_from absent h = refl
  base_poll_from v h = scaled (to_number number_of v) h

  not_below :
      (i b n : Value)
      → not_below_base number_of i b ≡ accepted n
      → ge_number (to_number number_of n) (to_number number_of b) ≡ true
  not_below i b n h =
      let (a, k) =
        check-accepted (ge_number (to_number number_of i) (to_number number_of b)) _ _ h in
      subst (λ m. ge_number (to_number number_of m) (to_number number_of b) ≡ true)
        (accepted-injective k) a

  notify_poll_ge :
      (v b n : Value)
      → notify_poll number_of v b ≡ accepted n
      → number_ge (to_number number_of b) 500000 ≡ true
      → ge_number (to_number number_of n) (to_number number_of b) ≡ true
  notify_poll_ge absent b n h g =
      subst (λ m. ge_number (to_number number_of m) (to_number number_of b) ≡ true)
        (accepted-injective h) (backstop (to_number number_of b) g)
  notify_poll_ge v b n h g = not_below (times_1000 (to_number number_of v)) b n h

  -- Polling intervals that applyPollingInterval accepts: a worker polls at most every half second,
  -- and its NOTIFY backstop is never shorter than its poll, given or by default.
  pub polling_config :
      (c : Config) (c' : Config)
      → apply_polling_interval number_of c ≡ accepted c'
      → (number_ge (to_number number_of (c' "pollingInterval")) 500000 ≡ true)
        × (ge_number
              (to_number number_of (c' "notifyPollingInterval"))
              (to_number number_of (c' "pollingInterval"))
            ≡ true)
  unfolding apply_polling_interval
  polling_config c c' h =
      let (a, h₁) = check-accepted _ _ _ h in
      let (b, h₂) = check-accepted _ _ _ h₁ in
      let (n, h₃, h₄) = >>=-accepted _ _ h₂ in
      let base = base_poll_from (c "pollingIntervalSeconds") a in
      subst
        (λ k.
          (number_ge (to_number number_of (k "pollingInterval")) 500000 ≡ true)
          × (ge_number (to_number number_of (k "notifyPollingInterval"))
                (to_number number_of (k "pollingInterval"))
              ≡ true))
        (checked_burst c _ h₄) (base, notify_poll_ge (c "notifyPollingIntervalSeconds") _ n h₃ base)
