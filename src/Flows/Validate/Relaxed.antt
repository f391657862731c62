-- ===== src/Flows/Validate/Relaxed.antt =====
-- One turn of the sort of src/attorney.ts (validateFlowJobs): the children of the current job.
use bun_boss.Base.{
  ℕ, ◌+◌, ◌-◌, ◌≤◌, ◌≡◌, refl, sym, ap, ◌∙◌, String, true, false, if◌then◌else◌, List, [], ◌∷◌,
  ◌++◌, str_eq, ◌==◌, arith, inl, inr, Bool-cases, All,
}
use bun_boss.Commands.{has_name}
use bun_boss.Flows.Validate.{lower, relax}
use bun_boss.Flows.Validate.Names.{times, Distinct, Among, has_name-append}
use text.Mathlib.TextEquality.{eq_iff}

lower-le : (degree : String → ℕ) (c r : String) → lower degree c r ≤ degree r
lower-le degree c r = ground (arith, eq_iff r c, ap degree)

pub relax-degree :
    (degree : String → ℕ) (queue cs : List String) (r : String)
    → (relax degree queue cs).0 r ≡ degree r - times r cs
unfolding relax
relax-degree degree queue [] r = omega arith
relax-degree degree queue (c ∷ cs) r = relax-degree (lower degree c) _ cs r ∙ one_less
  where
    one_less : lower degree c r - times r cs ≡ degree r - times r (c ∷ cs)
    one_less = elim (Bool-cases (str_eq r c)) [
      | inl e ↦
          let same = (eq_iff r c).0 e in
          let back : str_eq c r ≡ true = (eq_iff c r).1 (sym same) in
          rw (e, back) (omega (arith, ap degree same))
      | inr e ↦
          let back : str_eq c r ≡ false = ground (arith, eq_iff c r, eq_iff r c) in
          rw (e, back) (omega arith)
    ]

pub zero_in :
    (degree : String → ℕ) (xs : List String) (n : String)
    → All (λ x. degree x ≡ 0) xs
    → has_name xs n ≡ true
    → degree n ≡ 0
zero_in degree [] n a h = cc
zero_in degree (x ∷ xs) n a h = elim (Bool-cases (str_eq x n)) [
  | inl e ↦ ap degree (sym ((eq_iff x n).0 e)) ∙ a.0
  | inr e ↦ zero_in degree xs n a.1 (rw e at h)
]

lower-zeros :
    (degree : String → ℕ) (c : String) (xs : List String)
    → All (λ x. degree x ≡ 0) xs
    → All (λ x. lower degree c x ≡ 0) xs
lower-zeros degree c [] a = tt
lower-zeros degree c (x ∷ xs) a =
    (omega (arith, lower-le degree c x, a.0), lower-zeros degree c xs a.1)

All-snoc :
    (P : String → Type 0) (xs : List String) (x : String) → All P xs → P x → All P (xs ++ (x ∷ []))
All-snoc P [] x a p = (p, tt)
All-snoc P (y ∷ xs) x a p = (a.0, All-snoc P xs x a.1 p)

Distinct-snoc :
    (xs : List String) (x : String)
    → Distinct xs
    → has_name xs x ≡ false
    → Distinct (xs ++ (x ∷ []))
Distinct-snoc [] x d h = (refl, tt)
Distinct-snoc (y ∷ xs) x d h = (
  has_name-append xs (x ∷ []) y ∙ ground (arith, d.0, eq_iff x y, eq_iff y x),
  Distinct-snoc xs x d.1 (ground arith),
)

module _ (done refs : List String) where
  -- The queue: distinct refs of degree zero that are not done.
  pub record Waits (degree : String → ℕ) (queue : List String) : Type 0 where
    pub zeros : All (λ q. degree q ≡ 0) queue
    pub apart : All (λ q. has_name done q ≡ false) queue
    pub distinct : Distinct queue
    pub among : Among refs queue

  -- A ref of positive degree is not in a list of zeros.
  not_in :
      (degree : String → ℕ) (xs : List String) (n : String)
      → All (λ x. degree x ≡ 0) xs
      → 1 ≤ degree n
      → has_name xs n ≡ false
  not_in degree xs n a p = elim (Bool-cases (has_name xs n)) [
    | inl e ↦ absurd (omega (arith, zero_in degree xs n a e))
    | inr e ↦ e
  ]

  lowered-Waits :
      (degree : String → ℕ) (queue : List String) (c : String)
      → 1 ≤ degree c
      → All (λ d. degree d ≡ 0) done
      → has_name refs c ≡ true
      → Waits degree queue
      → Waits (lower degree c) (if degree c - 1 == 0 then queue ++ (c ∷ []) else queue)
  lowered-Waits degree queue c p d m w = elim (Bool-cases (degree c - 1 == 0)) [
    | inl e ↦ rw e (record {
      zeros =
          All-snoc (λ q. lower degree c q ≡ 0) queue c (lower-zeros degree c queue w.zeros)
            (ground (arith, eq_iff c c));
      apart = All-snoc _ queue c w.apart (not_in degree done c d p);
      distinct = Distinct-snoc queue c w.distinct (not_in degree queue c w.zeros p);
      among = All-snoc _ queue c w.among m;
    })
    | inr e ↦ rw e (record {
      zeros = lower-zeros degree c queue w.zeros;
      apart = w.apart;
      distinct = w.distinct;
      among = w.among;
    })
  ]

  pub relax-Waits :
      (degree : String → ℕ) (queue cs : List String)
      → ((r : String) → times r cs ≤ degree r)
      → All (λ d. degree d ≡ 0) done
      → Among refs cs
      → Waits degree queue
      → Waits (relax degree queue cs).0 (relax degree queue cs).1
  unfolding relax
  relax-Waits degree queue [] h d m w = w
  relax-Waits degree queue (c ∷ cs) h d m w =
      relax-Waits (lower degree c) _ cs (fewer degree c cs h) (lower-zeros degree c done d) m.1
        (lowered-Waits degree queue c (positive degree c cs h) d m.0 w)
    where
      positive :
          (degree : String → ℕ) (c : String) (cs : List String)
          → ((r : String) → times r (c ∷ cs) ≤ degree r)
          → 1 ≤ degree c
      positive degree c cs h =
          let same : str_eq c c ≡ true = (eq_iff c c).1 refl in
          let k : 1 + times c cs ≤ degree c = rw same at (h c) in omega arith

      fewer :
          (degree : String → ℕ) (c : String) (cs : List String)
          → ((r : String) → times r (c ∷ cs) ≤ degree r)
          → (r : String) → times r cs ≤ lower degree c r
      fewer degree c cs h r = elim (Bool-cases (str_eq r c)) [
        | inl e ↦
            let same = (eq_iff r c).0 e in
            let back : str_eq c r ≡ true = (eq_iff c r).1 (sym same) in
            let k : 1 + times r cs ≤ degree r = rw back at (h r) in
            rw e (omega (arith, ap degree same))
        | inr e ↦
            let back : str_eq c r ≡ false = ground (arith, eq_iff c r, eq_iff r c) in
            let k : 0 + times r cs ≤ degree r = rw back at (h r) in rw e (omega arith)
      ]
