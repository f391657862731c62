-- ===== src/Fetch/Eligible.antt =====
-- Which rows a fetch claims.
use bun_boss.Base.{
  String, ℕ, zero, suc, ◌≡◌, inl, inr, Bool, true, false, ◌&&◌, not, List, [], ◌∷◌, map, Option,
  none, some, arith, take, select, Bool-cases, any, All, &&-elim, str_eq, ◌==◌,
}
use bun_boss.Job.{Job}
use bun_boss.Store.{pkey, slots, Table, occupied}
use bun_boss.Store.Unique.{IsUnique}
use bun_boss.Store.Keys.{has_key, IsUnique-tail, IsUnique-head}
use bun_boss.Commands.{has_id}
use bun_boss.Fetch.{
  FetchOptions, GroupConcurrency, is_eligible, insert_by, sort_by, before, next, first_of_key,
  group_filtered, is_singleton_fetch, claimed, is_claimed, same_key,
}
use bun_boss.Fetch.Claimable.{IsClaimable, eligible-IsClaimable}
use text.Mathlib.TextEquality.{eq_iff}
use mathlib.Core.Bool.{So-prop}
use mathlib.Core.Logic.Or
use mathlib.Core.List.{
  Mem, mem-cons_self, mem-cons_of_mem, mem-append_right, eq-or-mem_of_mem-cons, not-mem-nil,
}

mem-occupied : (k : Job) (t : Table) → Mem k t → Mem (pkey k.name k.id) (occupied t)
unfolding occupied slots
mem-occupied k [] m = absurd (not-mem-nil m)
mem-occupied k (x ∷ t) m =
    Or.elim squash₁ (eq-or-mem_of_mem-cons m) (λ e. rw e mem-cons_self)
      (λ m'. mem-append_right (slots x) (mem-occupied k t m'))

same_pkey : (j k : Job) → has_key k.name k.id j ≡ true → pkey k.name k.id ≡ pkey j.name j.id
same_pkey j k h = ground (arith, eq_iff j.name k.name)

-- What holds of the row with a key holds of any row with that key: it is the same row.
pub key_transfer :
    (f : Job → Bool) (t : Table) (j k : Job)
    → IsUnique t
    → Mem k t
    → Mem j t
    → has_key k.name k.id j ≡ true
    → f k ≡ true
    → f j ≡ true
key_transfer f [] j k u mk mj h e = absurd (not-mem-nil mk)
key_transfer f (x ∷ t) j k u mk mj h e =
    Or.elim (So-prop (f j)) (eq-or-mem_of_mem-cons mj)
      (λ ej.
        Or.elim (So-prop (f j)) (eq-or-mem_of_mem-cons mk) (λ ek. cc)
          (λ mk'.
            absurd (IsUnique-head x t u (rw (← ej, ← same_pkey j k h) (mem-occupied k t mk')))))
      (λ mj'.
        Or.elim (So-prop (f j)) (eq-or-mem_of_mem-cons mk)
          (λ ek. absurd (IsUnique-head x t u (rw (← ek, same_pkey j k h) (mem-occupied j t mj'))))
          (λ mk'. key_transfer f t j k (IsUnique-tail x t u) mk' mj' h e))

-- `P` of the rows that a query goes through.
module _ {κ} (P : Job → Type κ) where
  All-take : (n : ℕ) (l : List Job) → All P l → All P (take n l)
  All-take zero l h = tt
  All-take (suc n) [] h = tt
  All-take (suc n) (x ∷ l) h = (h.0, All-take n l h.1)

  All-insert_by :
      (lt : Job → Job → Bool) (x : Job) (l : List Job) → P x → All P l → All P (insert_by lt x l)
  unfolding insert_by
  All-insert_by lt x [] p h = (p, tt)
  All-insert_by lt x (y ∷ l) p h = elim (Bool-cases (lt y x)) [
    | inl e ↦ rw e (h.0, All-insert_by lt x l p h.1)
    | inr e ↦ rw e (p, h)
  ]

  All-sort_by : (lt : Job → Job → Bool) (l : List Job) → All P l → All P (sort_by lt l)
  unfolding sort_by
  All-sort_by lt [] h = tt
  All-sort_by lt (x ∷ l) h = All-insert_by lt x (sort_by lt l) h.0 (All-sort_by lt l h.1)

  All-select : (q : Job → Bool) (l : List Job) → All P l → All P (select q l)
  All-select q [] h = tt
  All-select q (x ∷ l) h = elim (Bool-cases (q x)) [
    | inl e ↦ rw e (h.0, All-select q l h.1)
    | inr e ↦ rw e (All-select q l h.1)
  ]

  All-select_of :
      (q : Job → Bool) (l : List Job)
      → ((k : Job) → Mem k l → q k ≡ true → P k)
      → All P (select q l)
  All-select_of q [] h = tt
  All-select_of q (x ∷ l) h =
      let rest = All-select_of q l (λ k m. h k (mem-cons_of_mem x m)) in
      elim (Bool-cases (q x)) [ inl e ↦ rw e (h x mem-cons_self e, rest) | inr e ↦ rw e rest ]

  All-first_of_key :
      (seen : List (Option String)) (l : List Job) → All P l → All P (first_of_key seen l)
  unfolding first_of_key
  All-first_of_key seen [] h = tt
  All-first_of_key seen (x ∷ l) h = elim (Bool-cases (any (λ k. same_key k x.singleton_key) seen)) [
    | inl e ↦ rw e (All-first_of_key seen l h.1)
    | inr e ↦ rw e (h.0, All-first_of_key (x.singleton_key ∷ seen) l h.1)
  ]

  All-group_filtered :
      (t : Table) (name : String) (g : Option GroupConcurrency) (l : List Job)
      → All P l
      → All P (group_filtered t name g l)
  All-group_filtered t name none l h = h
  All-group_filtered t name (some g) l h = All-select _ l h

  All-claimed :
      (o : FetchOptions) (locked : Job → Bool) (now : ℕ) (t : Table)
      → ((k : Job) → Mem k t → (is_eligible o now t k && not (locked k)) ≡ true → P k)
      → All P (claimed o locked now t)
  unfolding claimed next
  All-claimed o locked now t h =
      let rows = All-take o.limit _ (All-sort_by (before o) _ (All-select_of _ t h)) in
      elim (Bool-cases (is_singleton_fetch o)) [
        | inl e ↦
            rw e (All-group_filtered t o.name o.group_concurrency _ (All-first_of_key [] _ rows))
        | inr e ↦ rw e (All-group_filtered t o.name o.group_concurrency _ rows)
      ]

by_id_list :
    (f : Job → Bool) (j : Job) (l : List Job)
    → All (λ k. (k.id == j.id) ≡ true → f j ≡ true) l
    → has_id (map (λ k. k.id) l) j.id ≡ true
    → f j ≡ true
by_id_list f j [] h e = cc
by_id_list f j (k ∷ l) h e = ground (arith, by_id_list f j l h.1, h.0)

eligible-queue :
    (o : FetchOptions) (now : ℕ) (t : Table) (k : Job)
    → is_eligible o now t k ≡ true
    → str_eq k.name o.name ≡ true
unfolding is_eligible
eligible-queue o now t k e = elim (Bool-cases (str_eq k.name o.name)) [
  | inl h ↦ h
  | inr h ↦ let f : false ≡ true = rw h at e in cc
]

same_queue :
    (o : FetchOptions) (now : ℕ) (t : Table) (j k : Job)
    → str_eq j.name o.name ≡ true
    → is_eligible o now t k ≡ true
    → (k.id == j.id) ≡ true
    → has_key k.name k.id j ≡ true
same_queue o now t j k n e i = ground (
  arith,
  n,
  i,
  eligible-queue o now t k e,
  eq_iff j.name o.name,
  eq_iff k.name o.name,
  eq_iff j.name k.name,
)

claimed-eligible :
    (o : FetchOptions) (locked : Job → Bool) (now : ℕ) (t : Table) (j : Job)
    → IsUnique t
    → Mem j t
    → is_claimed o (claimed o locked now t) j ≡ true
    → (is_eligible o now t j && not (locked j)) ≡ true
claimed-eligible o locked now t j u m c =
    by_id_list good j (claimed o locked now t) (All-claimed _ o locked now t transfer)
      (&&-elim {a = str_eq j.name o.name} c).1
  where
    good : Job → Bool
    good k = is_eligible o now t k && not (locked k)

    transfer : (k : Job) → Mem k t → good k ≡ true → (k.id == j.id) ≡ true → good j ≡ true
    transfer k mk e i =
        key_transfer good t j k u mk m
          (same_queue o now t j k (&&-elim {a = str_eq j.name o.name} c).0
            (&&-elim {a = is_eligible o now t k} e).0 i)
          e

-- A fetch from a table with unique indexes claims only rows of its queue that are created or up for a
-- retry, not blocked, due unless it ignores that, of no key and no group that it ignores, and
-- between its bounds of priority; whose group, where groups are limited, had fewer active jobs than its
-- limit; and that no other transaction has locked.
pub claimed-IsClaimable :
    (o : FetchOptions) (locked : Job → Bool) (now : ℕ) (t : Table) (j : Job)
    → IsUnique t
    → Mem j t
    → is_claimed o (claimed o locked now t) j ≡ true
    → IsClaimable o now t j × (locked j ≡ false)
claimed-IsClaimable o locked now t j u m c =
    let (e, f) = &&-elim {a = is_eligible o now t j} (claimed-eligible o locked now t j u m c) in
    (eligible-IsClaimable o now t j e, ground (arith, f))
