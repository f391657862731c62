-- ===== src/Fetch/Claimable.antt =====
-- What a claimed job has: the conditions of src/plans.ts (fetchNextJob), one by one.
use bun_boss.Base.{
  String, ℕ, ◌≡◌, ◌≢◌, ◌≤◌, ◌<◌, refl, ◌⊎◌, inl, inr, Bool, true, false, ◌&&◌, List, [], ◌∷◌,
  Option, none, some, arith, select, any, All, str_eq, ltb, length, ap, suc, Bool-cases,
}
use bun_boss.Job.{
  State, created, retry, active, completed, cancelled, failed, state_lt, state_eq, ℤ, leb_ℤ, Job,
  coalesce,
}
use bun_boss.Fetch.{
  FetchOptions, GroupConcurrency, is_eligible, group_limit, active_in_group, group_open,
  not_ignored_group, at_least, at_most, in_group,
}
use text.Mathlib.TextEquality.{eq_iff}

-- An active job of a group on the queue.
abbrev pub is_running : String → String → Job → Bool
is_running name g j =
    str_eq j.name name
    && state_eq j.state active
    && (elim j.group_id [ none ↦ false | some h ↦ str_eq h g ])

-- What a job has that may be claimed, by the table as the fetch found it.
pub record IsClaimable (o : FetchOptions) (now : ℕ) (t : List Job) (j : Job) : Type 0 where
  pub in_queue : j.name ≡ o.name
  pub waiting : (j.state ≡ created) ⊎ (j.state ≡ retry)
  pub unblocked : j.blocked ≡ false
  pub due : o.ignore_start_after ≡ false → j.start_after ≤ now
  pub key_kept : All (λ k. coalesce k "" ≢ coalesce j.singleton_key "") o.ignore_singletons
  pub group_kept : (g : String) → j.group_id ≡ some g → All (λ i. i ≢ g) o.ignore_groups
  pub high_enough : (m : ℤ) → o.min_priority ≡ some m → leb_ℤ m j.priority ≡ true
  pub low_enough : (m : ℤ) → o.max_priority ≡ some m → leb_ℤ j.priority m ≡ true
  pub group_has_room :
      (c : GroupConcurrency) (g : String)
      → o.group_concurrency ≡ some c
      → j.group_id ≡ some g
      → length (select (is_running o.name g) t) < group_limit c j.group_tier

before_active : (s : State) → state_lt s active ≡ true → (s ≡ created) ⊎ (s ≡ retry)
before_active created h = inl refl
before_active retry h = inr refl
before_active active h = cc
before_active completed h = cc
before_active cancelled h = cc
before_active failed h = cc

none_equal :
    {A : Type 0} (f : A → String) (s : String) (l : List A)
    → any (λ k. str_eq (f k) s) l ≡ false
    → All (λ k. f k ≢ s) l
none_equal f s [] h = tt
none_equal f s (k ∷ l) h =
    ((λ e. ground (arith, h, (eq_iff (f k) s).1 e)), none_equal f s l (ground (arith, h)))

group-none :
    (ignored : List String) (o : Option String) (g : String)
    → not_ignored_group ignored o ≡ true
    → o ≡ some g
    → All (λ i. i ≢ g) ignored
group-none ignored none g h e = cc
group-none ignored (some x) g h e = none_equal (λ i. i) g ignored (ground (arith, h, e))

least : (m : Option ℤ) (p n : ℤ) → at_least m p ≡ true → m ≡ some n → leb_ℤ n p ≡ true
least none p n h e = cc
least (some m) p n h e = cc

most : (m : Option ℤ) (p n : ℤ) → at_most m p ≡ true → m ≡ some n → leb_ℤ p n ≡ true
most none p n h e = cc
most (some m) p n h e = cc

in_group-same :
    (g : String) (x : Option String)
    → in_group g x ≡ (elim x [ none ↦ false | some h ↦ str_eq h g ])
in_group-same g none = refl
in_group-same g (some x) = refl

running-same :
    (t : List Job) (name g : String)
    → active_in_group t name g ≡ length (select (is_running name g) t)
unfolding active_in_group
running-same [] name g = refl
running-same (j ∷ t) name g =
    let rest = running-same t name g in
    let same = in_group-same g j.group_id in
    elim (Bool-cases (is_running name g j)) [
      | inl e ↦ rw (same, e) (ap (λ n. suc n) rest)
      | inr e ↦ rw (same, e) rest
    ]

room :
    (t : List Job) (name : String) (o : Option GroupConcurrency) (j : Job) (x : Option String)
    (c : GroupConcurrency) (g : String)
    → group_open t name o j x ≡ true
    → o ≡ some c
    → x ≡ some g
    → length (select (is_running name g) t) < group_limit c j.group_tier
room t name none j x c g h e f = cc
room t name (some d) j none c g h e f = cc
room t name (some d) j (some y) c g h e f =
    let same : d ≡ c = cc in
    let group : y ≡ g = cc in
    let free : ltb (active_in_group t name g) (group_limit c j.group_tier) ≡ true =
      rw (← same, ← group) h in
    ground (arith, free, running-same t name g)

nine :
    (a b c d e f g h i : Bool)
    → (a && b && c && d && e && f && g && h && i) ≡ true
    → (a ≡ true)
      × (b ≡ true)
      × (c ≡ true)
      × (d ≡ true)
      × (e ≡ true)
      × (f ≡ true)
      × (g ≡ true)
      × (h ≡ true)
      × (i ≡ true)
nine a b c d e f g h i k = ground arith

pub eligible-IsClaimable :
    (o : FetchOptions) (now : ℕ) (t : List Job) (j : Job)
    → is_eligible o now t j ≡ true
    → IsClaimable o now t j
unfolding is_eligible
eligible-IsClaimable o now t j h =
    let (a, b, c, d, e, f, g, k, l) = nine _ _ _ _ _ _ _ _ _ h in
    record {
      in_queue = (eq_iff j.name o.name).0 a;
      waiting = before_active j.state b;
      unblocked = ground (arith, c);
      due = λ q. ground (arith, d, q);
      key_kept =
          none_equal (λ x. coalesce x "") (coalesce j.singleton_key "") o.ignore_singletons
            (ground (arith, e));
      group_kept = λ x q. group-none o.ignore_groups j.group_id x f q;
      high_enough = λ m q. least o.min_priority j.priority m g q;
      low_enough = λ m q. most o.max_priority j.priority m k q;
      group_has_room = λ x y p q. room t o.name o.group_concurrency j j.group_id x y l p q;
    }
