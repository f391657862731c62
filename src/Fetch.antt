-- ===== src/Fetch.antt =====
-- Claiming jobs: src/plans.ts (fetchNextJob, buildFetchParams) and src/manager.ts (fetch).
-- A row that another transaction has locked is one of `locked`: FOR UPDATE SKIP LOCKED passes over
-- it, and the variant without SKIP LOCKED does not look at locks.
pub mod Claims
pub mod Claimable
pub mod Eligible
use bun_boss.Base.{
  ℕ, suc, ◌+◌, String, Bool, true, false, not, ◌&&◌, ◌||◌, if◌then◌else◌, List, [], ◌∷◌, map,
  Option, none, some, str_eq, ltb, leb, ◌==◌, length, select, any, take,
}
use bun_boss.Job.{
  State, active, state_lt, state_eq, Policy, singleton, stately, policy_is, ℤ, leb_ℤ, Job, coalesce,
  slot_key,
}
use bun_boss.Store.{Table, Result, ok, unique_violation, ◌>>=◌, rows_after, update_rows}
use bun_boss.Commands.{has_id, has_name}

pub record GroupConcurrency : Type 0 where
  pub default_limit : ℕ
  pub tiers : List (String × ℕ)

pub record FetchOptions : Type 0 where
  pub name : String
  pub policy : Option Policy
  pub limit : ℕ
  pub priority : Bool
  pub order_by_created_on : Bool
  pub ignore_start_after : Bool
  pub ignore_singletons : List (Option String)
  pub ignore_groups : List String
  pub group_concurrency : Option GroupConcurrency
  pub min_priority : Option ℤ
  pub max_priority : Option ℤ

abbrev pub at_least : Option ℤ → ℤ → Bool
at_least none p = true
at_least (some m) p = leb_ℤ m p

abbrev pub at_most : Option ℤ → ℤ → Bool
at_most none p = true
at_most (some m) p = leb_ℤ p m

abbrev pub in_group : String → Option String → Bool
in_group g none = false
in_group g (some h) = str_eq h g

-- COALESCE(tiers ->> group_tier, default)
abbrev pub tier_limit : List (String × ℕ) → String → ℕ → ℕ
tier_limit [] tier d = d
tier_limit ((k, n) ∷ rest) tier d = if str_eq k tier then n else tier_limit rest tier d

abbrev pub group_limit : GroupConcurrency → Option String → ℕ
group_limit g none = g.default_limit
group_limit g (some tier) = tier_limit g.tiers tier g.default_limit

-- The active jobs of a group on the queue.
unfoldable pub active_in_group : Table → String → String → ℕ
active_in_group t name g =
    length (select (λ j. str_eq j.name name && state_eq j.state active && in_group g j.group_id) t)

-- groupConcurrencyFilter: with one slot to a group it reads NOT EXISTS, which is the same count.
abbrev pub group_open : Table → String → Option GroupConcurrency → Job → Option String → Bool
group_open t name none j group = true
group_open t name (some g) j none = true
group_open t name (some g) j (some group) =
    ltb (active_in_group t name group) (group_limit g j.group_tier)

abbrev pub not_ignored_group : List String → Option String → Bool
not_ignored_group ignored none = true
not_ignored_group ignored (some g) = not (has_name ignored g)

-- The WHERE clause of `next`. An empty list of ignored keys or groups adds no condition.
unfoldable pub is_eligible : FetchOptions → ℕ → Table → Job → Bool
unfolding active_in_group
is_eligible o now t j =
    str_eq j.name o.name
    && state_lt j.state active
    && not j.blocked
    && (o.ignore_start_after || leb j.start_after now)
    && not (any (λ k. str_eq (coalesce k "") (slot_key j)) o.ignore_singletons)
    && not_ignored_group o.ignore_groups j.group_id
    && at_least o.min_priority j.priority
    && at_most o.max_priority j.priority
    && group_open t o.name o.group_concurrency j j.group_id

-- ORDER BY priority desc, created_on, id, the first two if asked for: whether `a` stands before `b`.
abbrev pub by_id : Job → Job → Bool
by_id a b = ltb a.id b.id

abbrev pub by_created_on : Bool → Job → Job → Bool
by_created_on false a b = by_id a b
by_created_on true a b =
    ltb a.created_on b.created_on || (a.created_on == b.created_on && by_id a b)

unfoldable pub before : FetchOptions → Job → Job → Bool
before o a b =
    if o.priority
    then (not (leb_ℤ a.priority b.priority)
        || (leb_ℤ a.priority b.priority
            && leb_ℤ b.priority a.priority
            && by_created_on o.order_by_created_on a b))
    else by_created_on o.order_by_created_on a b

unfoldable pub insert_by : (Job → Job → Bool) → Job → List Job → List Job
insert_by lt j [] = j ∷ []
insert_by lt j (k ∷ ks) = if lt k j then k ∷ insert_by lt j ks else j ∷ k ∷ ks

unfoldable pub sort_by : (Job → Job → Bool) → List Job → List Job
unfolding insert_by
sort_by lt [] = []
sort_by lt (j ∷ js) = insert_by lt j (sort_by lt js)

-- The `next` CTE.
unfoldable pub next : FetchOptions → (Job → Bool) → ℕ → Table → List Job
unfolding is_eligible before sort_by
next o locked now t =
    take o.limit (sort_by (before o) (select (λ j. is_eligible o now t j && not (locked j)) t))

abbrev pub same_key : Option String → Option String → Bool
same_key none none = true
same_key (some a) (some b) = str_eq a b
same_key _ _ = false

-- singleton_ranking, rows with singleton_rn = 1: the first row of each singleton key.
unfoldable pub first_of_key : List (Option String) → List Job → List Job
first_of_key seen [] = []
first_of_key seen (j ∷ js) =
    let keep = first_of_key (j.singleton_key ∷ seen) js in
    let drop = first_of_key seen js in
    if any (λ k. same_key k j.singleton_key) seen then drop else j ∷ keep

abbrev pub is_singleton_fetch : FetchOptions → Bool
is_singleton_fetch o = ltb 1 o.limit && (policy_is singleton o.policy || policy_is stately o.policy)

-- ROW_NUMBER() OVER (PARTITION BY group_id ORDER BY id), for a row of a group.
unfoldable pub group_rank : List Job → String → Job → ℕ
group_rank rows g j = suc (length (select (λ k. in_group g k.group_id && by_id k j) rows))

-- group_filtered
abbrev pub within_limit : Table → String → GroupConcurrency → List Job → Job → Option String → Bool
within_limit t name g rows j none = true
within_limit t name g rows j (some group) =
    leb (active_in_group t name group + group_rank rows group j) (group_limit g j.group_tier)

abbrev pub group_filtered : Table → String → Option GroupConcurrency → List Job → List Job
group_filtered t name none rows = rows
group_filtered t name (some g) rows = select (λ j. within_limit t name g rows j j.group_id) rows

-- The rows that the statement claims.
unfoldable pub claimed : FetchOptions → (Job → Bool) → ℕ → Table → List Job
unfolding next first_of_key group_rank active_in_group
claimed o locked now t =
    let rows = next o locked now t in
    let firsts = if is_singleton_fetch o then first_of_key [] rows else rows in
    group_filtered t o.name o.group_concurrency firsts

abbrev pub bump_retry : Option ℕ → ℕ → ℕ
bump_retry none n = n
bump_retry (some on) n = n + 1

abbrev pub set_active : ℕ → Job → Job
set_active now j = record j {
  state = active;
  started_on = some now;
  heartbeat_on = some now;
  retry_count = bump_retry j.started_on j.retry_count;
}

abbrev pub is_claimed : FetchOptions → List Job → Job → Bool
is_claimed o rows j = str_eq j.name o.name && has_id (map (λ k. k.id) rows) j.id

unfoldable pub fetch_next_job : FetchOptions → (Job → Bool) → ℕ → Table → Result (Table × List Job)
unfolding claimed
fetch_next_job o locked now t =
    let rows = claimed o locked now t in
    update_rows (is_claimed o rows) (set_active now) t >>= λ u.
    ok (u, map (set_active now) (select (is_claimed o rows) t))

-- Manager.fetch: a unique violation counts as an empty fetch.
unfoldable pub fetch : FetchOptions → (Job → Bool) → ℕ → Table → Table × List Job
unfolding fetch_next_job
fetch o locked now t = elim (fetch_next_job o locked now t) [
  | ok r ↦ r
  | unique_violation ↦ (t, [])
]
