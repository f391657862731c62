-- ===== src/Fail/Core.antt =====
-- The slots of a row that fails: its core, which it holds in every state but `cancelled`, and what a
-- retry takes beside it.
use bun_boss.Base.{
  ℕ, ◌≡◌, refl, sym, ap, String, Bool, true, false, ◌||◌, if◌then◌else◌, List, [], ◌∷◌, ◌++◌,
  Option, none, some, arith, inl, inr, Bool-cases, All, any, ◌==◌,
}
use bun_boss.Job.{
  State, created, retry, active, completed, cancelled, failed, state_lt, Policy, standard, short,
  singleton, stately, exclusive, Job, slot_key,
}
use bun_boss.Store.{
  Slot, Slot-discrete, pkey, Table, slots, collides, overlaps, has_slot, distinct, base_slots,
  policy_slots, index_throttle,
}
use bun_boss.Store.Unique.{Disjoint_of_overlaps, distinct-Nodup}
use bun_boss.Fail.Inserts.{Disjoint_append, Both}
use bun_boss.Fail.{Env, retried_row, failed_row, insert_skipping, can_retry}
use mathlib.Core.Path.{subst}
use mathlib.Core.Bool.{decide}
use mathlib.Core.List.{Nodup, Disjoint, Nodup-append, Mem, mem-append_left, append-nil}

-- The slots that a row holds in every state but `cancelled`.
abbrev pub core : Job → List Slot
core j = base_slots j failed

-- A row that can fail holds its core.
core-mem :
    (j : Job) (x : Slot) → state_lt j.state completed ≡ true → Mem x (core j) → Mem x (slots j)
unfolding slots
core-mem j x h m = at_state j.state j.singleton_on h m
  where
    at_state :
        (s : State) (on : Option ℕ)
        → state_lt s completed ≡ true
        → Mem x (pkey j.name j.id ∷ index_throttle j.name (slot_key j) on failed)
        → Mem x (
            (pkey j.name j.id ∷ index_throttle j.name (slot_key j) on s)
            ++ policy_slots j.name (slot_key j) j.policy s)
    at_state s none h m = mem-append_left _ m
    at_state created (some n) h m = mem-append_left _ m
    at_state retry (some n) h m = mem-append_left _ m
    at_state active (some n) h m = mem-append_left _ m
    at_state completed (some n) h m = mem-append_left _ m
    at_state cancelled (some n) h m = absurd (ground arith)
    at_state failed (some n) h m = mem-append_left _ m

-- A failed row holds its core only.
pub slots-failed : (e : Env) (o : Option String) (j : Job) → slots (failed_row e o j) ≡ core j
unfolding slots failed_row
slots-failed e o j = append-nil (core j)

core_kinds :
    (name key : String) (id : ℕ) (on : Option ℕ) (name' key' : String) (policy : Option Policy)
    → overlaps
        (pkey name id ∷ index_throttle name key on failed)
        (policy_slots name' key' policy retry)
      ≡ false
unfolding overlaps has_slot decide Slot-discrete
core_kinds name key id none name' key' none = refl
core_kinds name key id none name' key' (some standard) = refl
core_kinds name key id none name' key' (some short) = refl
core_kinds name key id none name' key' (some singleton) = refl
core_kinds name key id none name' key' (some stately) = refl
core_kinds name key id none name' key' (some exclusive) = refl
core_kinds name key id (some n) name' key' none = refl
core_kinds name key id (some n) name' key' (some standard) = refl
core_kinds name key id (some n) name' key' (some short) = refl
core_kinds name key id (some n) name' key' (some singleton) = refl
core_kinds name key id (some n) name' key' (some stately) = refl
core_kinds name key id (some n) name' key' (some exclusive) = refl

retry_core : (j : Job) → base_slots j retry ≡ core j
retry_core j = ap (λ l. pkey j.name j.id ∷ l) (throttle j.singleton_on)
  where
    throttle :
        (on : Option ℕ)
        → index_throttle j.name (slot_key j) on retry ≡ index_throttle j.name (slot_key j) on failed
    throttle none = refl
    throttle (some n) = refl

-- A re-inserted row takes slots of its core, and those of a policy, which are in no core.
pub core-retried :
    (e : Env) (b : Bool) (o : Option String) (j k : Job)
    → Disjoint (core j) (core k)
    → Disjoint (core j) (slots (retried_row e b o k))
unfolding slots retried_row
core-retried e b o j k d = by_state (can_retry b k) d
  where
    by_state :
        (c : Bool)
        → Disjoint (core j) (core k)
        → let s = if c then retry else failed in
          Disjoint (core j) (base_slots k s ++ policy_slots k.name (slot_key k) k.policy s)
    by_state true d =
        Disjoint_append (core j) (base_slots k retry)
          (policy_slots k.name (slot_key k) k.policy retry) (rw (retry_core k) d)
          (Disjoint_of_overlaps _ _
            (core_kinds j.name (slot_key j) j.id j.singleton_on k.name (slot_key k) k.policy))
    by_state false d = rw (append-nil (core k)) d

-- `j` can come back as failed beside `s`.
abbrev pub Beside : Job → Job → Type 0
Beside j s = Disjoint (core j) (slots s)

or_false : (a b : Bool) → (a || b) ≡ false → (a ≡ false) × (b ≡ false)
or_false a b h = (ground arith, ground arith)

-- Inserting with ON CONFLICT DO NOTHING, seen by a row that was not inserted.
pub insert_skipping-Beside :
    (j : Job) (rs : List Job) (t : Table)
    → All (Beside j) t
    → All (λ r. (r.id == j.id) ≡ false → Beside j r) rs
    → any (λ r. r.id == j.id) (insert_skipping rs t).1 ≡ false
    → All (Beside j) (insert_skipping rs t).0
unfolding insert_skipping
insert_skipping-Beside j [] t a b h = a
insert_skipping-Beside j (r ∷ rs) t a b h = elim (Bool-cases (collides r t)) [
  | inl e ↦ rw e (insert_skipping-Beside j rs t a b.1 (rw e at h))
  | inr e ↦
      let k = or_false _ _ (rw e at h) in
      rw e (insert_skipping-Beside j rs (r ∷ t) (b.0 k.0, a) b.1 k.1)
]

core_distinct :
    (name key : String) (id : ℕ) (on : Option ℕ) (name' : String) (policy : Option Policy)
    → distinct
        ((pkey name id ∷ index_throttle name key on failed) ++ policy_slots name' key policy retry)
      ≡ true
unfolding distinct has_slot decide Slot-discrete
core_distinct name key id none name' none = refl
core_distinct name key id none name' (some standard) = refl
core_distinct name key id none name' (some short) = refl
core_distinct name key id none name' (some singleton) = refl
core_distinct name key id none name' (some stately) = refl
core_distinct name key id none name' (some exclusive) = refl
core_distinct name key id (some n) name' none = refl
core_distinct name key id (some n) name' (some standard) = refl
core_distinct name key id (some n) name' (some short) = refl
core_distinct name key id (some n) name' (some singleton) = refl
core_distinct name key id (some n) name' (some stately) = refl
core_distinct name key id (some n) name' (some exclusive) = refl

pub core-Nodup : (j : Job) → Nodup (core j)
core-Nodup j = at_slot j.singleton_on
  where
    at_slot :
        (on : Option ℕ) → Nodup (pkey j.name j.id ∷ index_throttle j.name (slot_key j) on failed)
    at_slot on =
        (Nodup-append.0
          (distinct-Nodup _ (core_distinct j.name (slot_key j) j.id on j.name j.policy))).0

pub retried-Nodup :
    (e : Env) (b : Bool) (o : Option String) (j : Job) → Nodup (slots (retried_row e b o j))
unfolding slots retried_row
retried-Nodup e b o j = by_state (can_retry b j)
  where
    by_state :
        (c : Bool)
        → let s = if c then retry else failed in
          Nodup (base_slots j s ++ policy_slots j.name (slot_key j) j.policy s)
    by_state true =
        subst (λ l. Nodup (l ++ policy_slots j.name (slot_key j) j.policy retry))
          (sym (retry_core j))
          (distinct-Nodup _ (core_distinct j.name (slot_key j) j.id j.singleton_on j.name j.policy))
    by_state false = rw (append-nil (core j)) (core-Nodup j)

-- Rows that can fail and share no slot have disjoint cores, and each can come back beside the other.
pub Both-Beside : (j s : Job) → state_lt j.state completed ≡ true → Both j s → Beside j s
Both-Beside j s h d = λ x m n. d x (core-mem j x h m) n

pub Both-core :
    (j k : Job)
    → state_lt j.state completed ≡ true
    → state_lt k.state completed ≡ true
    → Both j k
    → Disjoint (core j) (core k)
Both-core j k h i d = λ x m n. d x (core-mem j x h m) (core-mem k x i n)
