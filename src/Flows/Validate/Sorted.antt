-- ===== src/Flows/Validate/Sorted.antt =====
-- The sort of src/attorney.ts (validateFlowJobs): what it visits, and that a visited ref comes after all
-- those that it depends on. A ref's dependencies are `deps`, and its children `edges`.
use bun_boss.Base.{
  ℕ, zero, suc, ◌+◌, ◌-◌, ◌≤◌, ◌<◌, ◌≡◌, refl, sym, ap, ◌∙◌, String, Bool, true, false,
  if◌then◌else◌, List, [], ◌∷◌, str_eq, length, arith, inl, inr, Bool-cases, All,
}
use bun_boss.Commands.{has_name}
use bun_boss.Flows.Validate.{relax, sort_visits}
use bun_boss.Flows.Validate.Names.{times, unseen, unseen-cons, unseen-le, Distinct, Among}
use bun_boss.Flows.Validate.Relaxed.{relax-degree, relax-Waits, Waits}
use text.Mathlib.TextEquality.{eq_iff}

All-map :
    (P Q : String → Type 0) (xs : List String) → ((x : String) → P x → Q x) → All P xs → All Q xs
All-map P Q [] f a = tt
All-map P Q (x ∷ xs) f a = (f x a.0, All-map P Q xs f a.1)

apart-cons :
    (r : String) (done queue : List String)
    → has_name queue r ≡ false
    → All (λ q. has_name done q ≡ false) queue
    → All (λ q. has_name (r ∷ done) q ≡ false) queue
apart-cons r done [] h a = tt
apart-cons r done (q ∷ queue) h a =
    (ground (arith, a.0, eq_iff r q, eq_iff q r), apart-cons r done queue (ground arith) a.1)

unseen-zero :
    (done xs : List String) (d : String)
    → unseen done xs ≡ 0
    → has_name xs d ≡ true
    → has_name done d ≡ true
unseen-zero done [] d e h = cc
unseen-zero done (x ∷ xs) d e h = elim (Bool-cases (str_eq x d)) [
  | inl s ↦
      ap (has_name done) (sym ((eq_iff x d).0 s)) ∙ listed (has_name done x) (unseen done xs) e
  | inr s ↦ unseen-zero done xs d (omega (arith, e)) (rw s at h)
]
  where
    listed : (b : Bool) (n : ℕ) → (if b then 0 else 1) + n ≡ 0 → b ≡ true
    listed true n k = refl
    listed false n k = absurd (omega arith)

apart_from :
    (r d : String) (done : List String)
    → has_name done r ≡ false
    → has_name done d ≡ true
    → str_eq r d ≡ false
apart_from r d done f t = elim (Bool-cases (str_eq r d)) [
  | inl e ↦ absurd (cc (ap (has_name done) ((eq_iff r d).0 e)))
  | inr e ↦ e
]

-- The place of a ref among the visited ones.
abbrev pub rank : List String → String → ℕ
rank [] n = 0
rank (r ∷ done) n = if str_eq r n then length done else rank done n

rank-lt : (done : List String) (n : String) → has_name done n ≡ true → rank done n < length done
rank-lt [] n h = cc
rank-lt (r ∷ done) n h = ground (arith, rank-lt done n)

module _ (edges deps : String → List String) (refs : List String)
    (dual : (r c : String) → times r (edges c) ≡ times c (deps r))
    (known : (c : String) → Among refs (edges c)) where
  -- The visited refs, the last one first.
  pub visits : ℕ → (String → ℕ) → List String → List String → List String
  visits fuel degree [] done = done
  visits zero degree (r ∷ queue) done = done
  visits (suc fuel) degree (r ∷ queue) done =
      let (lowered, waiting) = relax degree queue (edges r) in
      visits fuel lowered waiting (r ∷ done)

  pub visits-length :
      (fuel : ℕ) (degree : String → ℕ) (queue done : List String)
      → length (visits fuel degree queue done) ≡ sort_visits edges fuel degree queue + length done
  unfolding visits sort_visits
  visits-length fuel degree [] done = omega arith
  visits-length zero degree (r ∷ queue) done = omega arith
  visits-length (suc fuel) degree (r ∷ queue) done = omega (
    arith,
    visits-length fuel (relax degree queue (edges r)).0 (relax degree queue (edges r)).1 (r ∷ done),
  )

  -- Each ref is new, and all that it depends on come before it.
  abbrev pub IsOrdered : List String → Type 0
  IsOrdered [] = Unit
  IsOrdered (r ∷ done) = (unseen done (deps r) ≡ 0) × (has_name done r ≡ false) × IsOrdered done

  pub record Inv (degree : String → ℕ) (queue done : List String) : Type 0 where
    pub degrees : (r : String) → degree r ≡ unseen done (deps r)
    pub ordered : IsOrdered done
    pub listed : Among refs done
    pub waits : Waits done refs degree queue

  pub ordered-Distinct : (done : List String) → IsOrdered done → Distinct done
  ordered-Distinct [] o = tt
  ordered-Distinct (r ∷ done) o = (o.1, ordered-Distinct done o.2)

  -- What is visited has nothing left to wait for.
  ordered-zeros :
      (more done : List String)
      → ((r : String) → unseen done (deps r) ≡ 0 → unseen more (deps r) ≡ 0)
      → IsOrdered done
      → All (λ d. unseen more (deps d) ≡ 0) done
  ordered-zeros more [] f o = tt
  ordered-zeros more (r ∷ done) f o = (
    f r (omega (arith, unseen-le r done (deps r), o.0)),
    ordered-zeros more done (λ x e. f x (omega (arith, unseen-le r done (deps x), e))) o.2,
  )

  turn :
      (degree : String → ℕ) (r : String) (queue done : List String)
      → Inv degree (r ∷ queue) done
      → Inv (relax degree queue (edges r)).0 (relax degree queue (edges r)).1 (r ∷ done)
  turn degree r queue done v = record {
    degrees = λ x. relax-degree degree queue (edges r) x ∙ step x;
    ordered = ordered;
    listed = (v.waits.among.0, v.listed);
    waits = relax-Waits (r ∷ done) refs degree queue (edges r) enough zeros (known r) (record {
      zeros = v.waits.zeros.1;
      apart = apart-cons r done queue v.waits.distinct.0 v.waits.apart.1;
      distinct = v.waits.distinct.1;
      among = v.waits.among.1;
    });
  }
    where
      fresh : has_name done r ≡ false
      fresh = v.waits.apart.0

      step : (x : String) → degree x - times x (edges r) ≡ unseen (r ∷ done) (deps x)
      step x = omega (arith, v.degrees x, dual x r, unseen-cons r done (deps x) fresh)

      enough : (x : String) → times x (edges r) ≤ degree x
      enough x = omega (arith, v.degrees x, dual x r, unseen-cons r done (deps x) fresh)

      ordered : IsOrdered (r ∷ done)
      ordered = (sym (v.degrees r) ∙ v.waits.zeros.0, fresh, v.ordered)

      zeros : All (λ d. degree d ≡ 0) (r ∷ done)
      zeros = (
        v.waits.zeros.0,
        All-map _ _ done (λ d e. v.degrees d ∙ e) (ordered-zeros done done (λ x e. e) v.ordered),
      )

  pub visits-Ordered :
      (fuel : ℕ) (degree : String → ℕ) (queue done : List String)
      → Inv degree queue done
      → IsOrdered (visits fuel degree queue done) × Among refs (visits fuel degree queue done)
  unfolding visits
  visits-Ordered fuel degree [] done v = (v.ordered, v.listed)
  visits-Ordered zero degree (r ∷ queue) done v = (v.ordered, v.listed)
  visits-Ordered (suc fuel) degree (r ∷ queue) done v =
      visits-Ordered fuel (relax degree queue (edges r)).0 (relax degree queue (edges r)).1
        (r ∷ done) (turn degree r queue done v)

  -- Each dependency of a visited ref is visited.
  pub seen :
      (done : List String) (n d : String)
      → IsOrdered done
      → has_name done n ≡ true
      → has_name (deps n) d ≡ true
      → (has_name done d ≡ true) × (rank done d < rank done n)
  seen [] n d o h k = cc
  seen (r ∷ done) n d o h k = elim (Bool-cases (str_eq r n)) [
    | inl e ↦
        let same = (eq_iff r n).0 e in
        let before = unseen-zero done (deps r) d o.0 (ap (λ x. has_name (deps x) d) same ∙ k) in
        let other = apart_from r d done o.1 before in rw (e, other) (before, rank-lt done d before)
    | inr e ↦
        let (before, less) = seen done n d o.2 (rw e at h) k in
        let other = apart_from r d done o.1 before in rw (e, other) (before, less)
  ]
