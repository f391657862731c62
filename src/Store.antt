-- ===== src/Store.antt =====
-- The job table and its unique indexes: src/plans.ts, createPrimaryKeyJob and createIndexJob*.
-- A table is the list of its rows, in no particular order; every index is a set of slots, and no
-- two rows may hold one slot. All partitions are one table here: a statement names its queue.
pub mod Unique
pub mod Keys
use bun_boss.Base.{
  ℕ, String, Bool, true, false, not, ◌&&◌, ◌||◌, if◌then◌else◌, List, [], ◌∷◌, ◌++◌, map, Option,
  none, some, String_discrete, ℕ_discrete,
}
use bun_boss.Job.{
  State, created, active, cancelled, state_lte, state_eq, State-discrete, Policy, short, singleton,
  stately, exclusive, policy_is, Job, slot_key,
}
use mathlib.Core.Bool.{decide}

pub data Slot : Type 0 where
  pkey : String → ℕ → Slot
  throttle_slot : String → ℕ → String → Slot
  short_slot : String → String → Slot
  singleton_slot : String → String → Slot
  stately_slot : String → State → String → Slot
  exclusive_slot : String → String → Slot

unfoldable pub Slot-discrete : Discrete Slot
unfolding String_discrete ℕ_discrete State-discrete
Slot-discrete = hlevel (String_discrete, ℕ_discrete, State-discrete)

abbrev only_if : Bool → Slot → List Slot
only_if b s = if b then s ∷ [] else []

-- job_i1
abbrev pub index_short : String → String → Option Policy → State → List Slot
index_short name key policy s =
    only_if (state_eq s created && policy_is short policy) (short_slot name key)

-- job_i2
abbrev pub index_singleton : String → String → Option Policy → State → List Slot
index_singleton name key policy s =
    only_if (state_eq s active && policy_is singleton policy) (singleton_slot name key)

-- job_i3
abbrev pub index_stately : String → String → Option Policy → State → List Slot
index_stately name key policy s =
    only_if (state_lte s active && policy_is stately policy) (stately_slot name s key)

-- job_i4
abbrev pub index_throttle : String → String → Option ℕ → State → List Slot
index_throttle name key none s = []
index_throttle name key (some on) s =
    only_if (not (state_eq s cancelled)) (throttle_slot name on key)

-- job_i6
abbrev pub index_exclusive : String → String → Option Policy → State → List Slot
index_exclusive name key policy s =
    only_if (state_lte s active && policy_is exclusive policy) (exclusive_slot name key)

-- The slots that do not depend on a policy, and those that do.
abbrev pub base_slots : Job → State → List Slot
base_slots j s = pkey j.name j.id ∷ index_throttle j.name (slot_key j) j.singleton_on s

abbrev pub policy_slots : String → String → Option Policy → State → List Slot
policy_slots name key policy s =
    index_short name key policy s
    ++ (index_singleton name key policy s
        ++ (index_stately name key policy s ++ index_exclusive name key policy s))

unfoldable pub slots : Job → List Slot
slots j = base_slots j j.state ++ policy_slots j.name (slot_key j) j.policy j.state

abbrev pub Table : Type 0
Table = List Job

unfoldable pub occupied : Table → List Slot
occupied [] = []
occupied (j ∷ t) = slots j ++ occupied t

unfoldable pub has_slot : Slot → List Slot → Bool
unfolding Slot-discrete
has_slot s [] = false
has_slot s (x ∷ xs) = decide (Slot-discrete s x) || has_slot s xs

unfoldable pub overlaps : List Slot → List Slot → Bool
unfolding has_slot
overlaps [] l = false
overlaps (s ∷ ss) l = has_slot s l || overlaps ss l

unfoldable pub distinct : List Slot → Bool
unfolding has_slot
distinct [] = true
distinct (s ∷ ss) = not (has_slot s ss) && distinct ss

pub data Result {ℓ} (A : Type ℓ) : Type ℓ where
  ok : A → Result A
  unique_violation : Result A

infixl 5 ◌>>=◌
abbrev pub ◌>>=◌ {ℓ κ} : {A : Type ℓ} {B : Type κ} → Result A → (A → Result B) → Result B
ok a >>= f = f a
unique_violation >>= f = unique_violation

-- The constraint check of a statement on the rows that it leaves.
unfoldable pub commit : Table → Result Table
unfolding distinct slots occupied
commit t = if distinct (occupied t) then ok t else unique_violation

-- UPDATE ... SET f WHERE p
unfoldable pub rows_after : (Job → Bool) → (Job → Job) → Table → Table
rows_after p f t = map (λ j. if p j then f j else j) t

unfoldable pub update_rows : (Job → Bool) → (Job → Job) → Table → Result Table
unfolding commit rows_after
update_rows p f t = commit (rows_after p f t)

-- INSERT ... ON CONFLICT DO NOTHING of one row
unfoldable pub collides : Job → Table → Bool
unfolding overlaps slots occupied
collides j t = overlaps (slots j) (occupied t)
