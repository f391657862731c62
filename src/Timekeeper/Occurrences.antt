-- ===== src/Timekeeper/Occurrences.antt =====
-- When a schedule is sent: src/timekeeper.ts (shouldSendIt).
use bun_boss.Base.{
  ℕ, ◌+◌, ◌*◌, ◌/◌, ◌%◌, ◌≤◌, ◌<◌, ◌≡◌, ◌↔◌, refl, String, Bool, true, ◌||◌, List, [], ◌∷◌, Option,
  none, some, ltb, any, arith, inl, inr, Bool-cases,
}
use bun_boss.Timekeeper.{should_send_it, is_recent}

-- The start of the second that a moment lies in.
abbrev pub second_of : ℕ → ℕ
second_of t = t / 1000 * 1000

-- What src/timekeeper.ts states of croner's `previousRuns`, for one expression and timezone whose
-- occurrences fall on whole seconds: the last occurrence before the second that its reference lies in.
-- That whole second is left out.
pub record IsPrevious (occurs : ℕ → Bool) (previous : ℕ → Option ℕ) : Type 0 where
  pub on_seconds : (u : ℕ) → occurs u ≡ true → u % 1000 ≡ 0
  pub found : (limit t : ℕ) → previous limit ≡ some t → (occurs t ≡ true) × (t < second_of limit)
  pub last :
      (limit t u : ℕ) → previous limit ≡ some t → occurs u ≡ true → u < second_of limit → u ≤ t
  pub never : (limit u : ℕ) → previous limit ≡ none → occurs u ≡ true → ¬ (u < second_of limit)

module _ (previous : String → String → ℕ → Option ℕ) (cron tz : String) (occurs : ℕ → Bool)
    (p : IsPrevious occurs (previous cron tz)) where
  -- With a `previousRuns` that leaves out the second of its reference, a schedule is sent exactly when it has
  -- an occurrence in the last minute, this moment included.
  pub should_send_it_iff :
      (now : ℕ)
      → (should_send_it previous cron tz now ≡ true)
        ↔ ((u : ℕ) × (occurs u ≡ true) × (u ≤ now) × (now < u + 60000))
  unfolding should_send_it
  should_send_it_iff now =
      (forth (previous cron tz anchor) refl, back (previous cron tz anchor) refl)
    where
      anchor : ℕ
      anchor = now / 1000 * 1000 + 1000

      forth :
          (o : Option ℕ)
          → previous cron tz (now / 1000 * 1000 + 1000) ≡ o
          → is_recent now o ≡ true
          → (u : ℕ) × (occurs u ≡ true) × (u ≤ now) × (now < u + 60000)
      forth none e h = cc
      forth (some t) e h =
          let (o, l) = p.found _ t e in
          let whole = p.on_seconds t o in (t, o, omega arith, ground arith)

      back :
          (o : Option ℕ)
          → previous cron tz (now / 1000 * 1000 + 1000) ≡ o
          → (u : ℕ) × (occurs u ≡ true) × (u ≤ now) × (now < u + 60000)
          → is_recent now o ≡ true
      back none e (u, o, a, b) = absurd (p.never _ u e o (omega arith))
      back (some t) e (u, o, a, b) = let later = p.last _ t u e o (omega arith) in ground arith

  -- Each pass follows the one before within a minute.
  abbrev pub IsDense : ℕ → List ℕ → Type 0
  IsDense before [] = Unit
  IsDense before (t ∷ times) = (t ≤ before + 60000) × IsDense t times

  abbrev pub last_of : ℕ → List ℕ → ℕ
  last_of before [] = before
  last_of before (t ∷ times) = last_of t times

  -- With a `previousRuns` that leaves out the second of its reference, and where each pass follows the one
  -- before within a minute, no occurrence after the first pass and up to
  -- the last is missed: some pass sends it.
  pub occurrence_sent :
      (before u : ℕ) (times : List ℕ)
      → occurs u ≡ true
      → IsDense before times
      → before < u
      → u ≤ last_of before times
      → any (should_send_it previous cron tz) times ≡ true
  occurrence_sent before u [] o d a b = absurd (omega arith)
  occurrence_sent before u (t ∷ times) o d a b = elim (Bool-cases (ltb t u)) [
    | inl e ↦
        later (should_send_it previous cron tz t) (occurrence_sent t u times o d.1 (ground arith) b)
    | inr e ↦ rw ((should_send_it_iff t).1 (u, o, ground arith, ground arith)) refl
  ]
    where
      later : (x : Bool) {y : Bool} → y ≡ true → (x || y) ≡ true
      later x h = ground arith
