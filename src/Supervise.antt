-- ===== src/Supervise.antt =====
-- src/boss.ts (supervise) and src/navigator.ts (#resolve): queues are grouped by their table, and
-- each group is worked through in chunks of 100 names.
pub mod Chunks
pub mod Pass
use bun_boss.Base.{
  ℕ, zero, suc, ◌+◌, ◌-◌, ◌≤◌, ◌≡◌, refl, String, Bool, true, false, not, ◌&&◌, if◌then◌else◌, List,
  [], ◌∷◌, ◌++◌, map, Option, none, some, str_eq, ltb, leb, length, take, drop, All, arith,
}

pub record QueueRef : Type 0 where
  pub name : String
  pub table : String

pub record QueueGroup : Type 0 where
  pub table : String
  pub names : List String

-- acc[table] = acc[table] || { table, queues: [] }; acc[table].queues.push(q): an object keeps its
-- keys in the order in which they came.
unfoldable pub add_to_group : QueueRef → List QueueGroup → List QueueGroup
add_to_group q [] = record { table = q.table; names = q.name ∷ [] } ∷ []
add_to_group q (g ∷ gs) =
    if str_eq g.table q.table
    then record g { names = g.names ++ q.name ∷ [] } ∷ gs
    else g ∷ add_to_group q gs

unfoldable pub group_from : List QueueGroup → List QueueRef → List QueueGroup
unfolding add_to_group
group_from acc [] = acc
group_from acc (q ∷ qs) = group_from (add_to_group q acc) qs

unfoldable pub queue_groups : List QueueRef → List QueueGroup
unfolding group_from
queue_groups qs = group_from [] qs

-- while (names.length) names.splice(0, 100), on fuel that the number of names bounds.
unfoldable pub splices : ℕ → ℕ → List String → List (List String)
splices size zero names = []
splices size (suc fuel) [] = []
splices size (suc fuel) (n ∷ names) =
    take size (n ∷ names) ∷ splices size fuel (drop size (n ∷ names))

abbrev pub chunk_size : ℕ
chunk_size = 100

unfoldable pub group_chunks : QueueGroup → List (String × List String)
unfolding splices
group_chunks g = map (λ c. (g.table, c)) (splices chunk_size (length g.names) g.names)

unfoldable pub chunks_of : List QueueGroup → List (String × List String)
unfolding group_chunks
chunks_of [] = []
chunks_of (g ∷ gs) = group_chunks g ++ chunks_of gs

-- The (table, names) pairs that supervise() passes to #monitor and #maintain, in order.
unfoldable pub supervise : List QueueRef → List (String × List String)
unfolding queue_groups chunks_of
supervise qs = chunks_of (queue_groups qs)

-- The drain loop of one chunk in Navigator.#resolve: the numbers of audit rows that the calls of
-- the resolver returned, and FLOW_BATCH_SIZE; the calls made, at most MAX_BATCHES_PER_PASS. An empty
-- list of answers is a stopping instance.
unfoldable pub drain : ℕ → ℕ → List ℕ → ℕ
drain batch_size zero answers = 0
drain batch_size (suc left) [] = 0
drain batch_size (suc left) (resolved ∷ answers) =
    let rest = drain batch_size left answers in if leb batch_size resolved then suc rest else 1
