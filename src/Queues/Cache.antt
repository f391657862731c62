-- ===== src/Queues/Cache.antt =====
-- The queues of an instance and its cache of them: src/manager.ts (onCacheQueues, getQueueCache,
-- createQueue, updateQueue, deleteQueue, getQueues). A read of the queue table answers rightly, with
-- a wrong empty set, or fails; which, is an argument for each read. An operation returns
-- the state that it leaves and its outcome, since one that fails may have changed the state.
use bun_boss.Base.{
  ℕ, String, Bool, true, false, not, ◌&&◌, if◌then◌else◌, List, [], ◌∷◌, Option, none, some, str_eq,
  reject,
}
use Prim.Native.String.{◌++◌ as text_append}
use bun_boss.Job.{Policy}
use bun_boss.Attorney.{Checked, accepted, refused, check}
use bun_boss.Names.{assert_queue_name}
use bun_boss.Queues.{
  QueueResult, Database, QueueOptions, Field, missing, null, value, created_row, insert_queue,
  update_queue, delete_queue, get_queues,
}

pub data Read : Type 0 where
  answers empty fails : Read

-- `queues`, none before the first read; `last_refresh_empty`; and the database.
pub record World : Type 0 where
  pub cache : Option (List QueueResult)
  pub last_refresh_empty : Bool
  pub db : Database

abbrev pub M : Type 0 → Type 0
M A = World → World × Checked A

infixl 5 ◌>>=◌ ◌>>◌
abbrev pub after : {A B : Type 0} → World × Checked A → (A → M B) → World × Checked B
after (w, accepted a) f = f a w
after (w, refused e) f = (w, refused e)

abbrev pub ◌>>=◌ : {A B : Type 0} → M A → (A → M B) → M B
◌>>=◌ m f w = after (m w) f

abbrev pub ◌>>◌ : {B : Type 0} → M (Unit {0}) → M B → M B
m >> k = m >>= λ _. k

abbrev pub lift : {A : Type 0} → Checked A → M A
lift c w = (w, c)

abbrev pub return : {A : Type 0} → A → M A
return a w = (w, accepted a)

-- A statement that is refused changes nothing.
abbrev pub execute_on : World → Checked Database → World × Checked (Unit {0})
execute_on w (accepted db') = (record w { db = db' }, accepted tt)
execute_on w (refused e) = (w, refused e)

abbrev pub run_sql : (Database → Checked Database) → M (Unit {0})
run_sql statement w = execute_on w (statement w.db)

abbrev pub read_as : Read → List QueueResult → Checked (List QueueResult)
read_as answers rows = accepted rows
read_as empty rows = accepted []
read_as fails rows = refused "connection error"

-- An object's entry, keyed by name.
unfoldable pub entry : String → List QueueResult → Option QueueResult
entry name [] = none
entry name (q ∷ qs) = if str_eq q.name name then some q else entry name qs

-- queues[name] = queue
unfoldable pub put : QueueResult → List QueueResult → List QueueResult
put queue [] = queue ∷ []
put queue (q ∷ qs) = if str_eq q.name queue.name then queue ∷ qs else q ∷ put queue qs

unfoldable pub put_all : List QueueResult → List QueueResult → List QueueResult
unfolding put
put_all acc [] = acc
put_all acc (q ∷ qs) = put_all (put q acc) qs

abbrev pub is_empty : List QueueResult → Bool
is_empty [] = true
is_empty (q ∷ qs) = false

abbrev pub has_entries : Option (List QueueResult) → Bool
has_entries none = false
has_entries (some qs) = not (is_empty qs)

-- onCacheQueues, less the error that it reports
abbrev pub refreshed : World → Checked (List QueueResult) → World
refreshed w (refused e) = w
refreshed w (accepted rows) =
    if is_empty rows && (not w.last_refresh_empty && has_entries w.cache)
    then record w { last_refresh_empty = true }
    else record w { cache = some (put_all [] rows); last_refresh_empty = is_empty rows }

unfoldable pub on_cache_queues : Read → World → World
unfolding put_all
on_cache_queues r w = refreshed w (read_as r (get_queues none w.db))

-- #cacheQueueRow: without a cache, `queues![name]` is a TypeError.
abbrev pub with_row : QueueResult → Option (List QueueResult) → M (Unit {0})
with_row queue none w = (w, refused "TypeError")
with_row queue (some qs) w =
    (record w { cache = some (put queue qs); last_refresh_empty = false }, accepted tt)

unfoldable pub cache_queue_row : QueueResult → M (Unit {0})
unfolding put
cache_queue_row queue w = with_row queue w.cache w

-- #evictQueueCache
unfoldable pub evict_queue_cache : String → World → World
evict_queue_cache name w = elim w.cache [
  | none ↦ w
  | some qs ↦ record w { cache = some (reject (λ q. str_eq q.name name) qs) }
]

abbrev pub first_of : Checked (List QueueResult) → Checked (Option QueueResult)
first_of (accepted []) = accepted none
first_of (accepted (q ∷ qs)) = accepted (some q)
first_of (refused e) = refused e

module _ (units : String → List ℕ) where
  -- getQueue: getQueues([name])[0] || null
  unfoldable pub get_queue : Read → String → M (Option QueueResult)
  get_queue r name = do
    lift (assert_queue_name (units name))
    λ w. (w, first_of (read_as r (get_queues (some (name ∷ [])) w.db)))

  abbrev pub cached : Option QueueResult → String → M QueueResult
  cached none name = lift (refused (text_append "Queue " (text_append name " does not exist")))
  cached (some q) name = do cache_queue_row q; return q

  abbrev pub or_again : Read → String → Option QueueResult → M (Option QueueResult)
  or_again r name none = get_queue r name
  or_again r name (some q) = return (some q)

  -- The entry, or else what two reads find.
  abbrev pub entry_or_read : Read → Read → String → Option QueueResult → M QueueResult
  entry_or_read r₁ r₂ name (some q) = return q
  entry_or_read r₁ r₂ name none = do
    first ← get_queue r₁ name
    queue ← or_again r₂ name first
    cached queue name

  abbrev pub from_cache : Read → Read → String → Option (List QueueResult) → M QueueResult
  from_cache r₁ r₂ name none = lift (refused "Queue cache is not initialized")
  from_cache r₁ r₂ name (some qs) = entry_or_read r₁ r₂ name (entry name qs)

  unfoldable pub get_queue_cache : Read → Read → String → M QueueResult
  unfolding entry get_queue cache_queue_row
  get_queue_cache r₁ r₂ name w = from_cache r₁ r₂ name w.cache w

  -- #refreshQueueCacheEntry
  abbrev pub keep_or_evict : String → Option QueueResult → M (Unit {0})
  keep_or_evict name none = λ w. (evict_queue_cache name w, accepted tt)
  keep_or_evict name (some q) = cache_queue_row q

  unfoldable pub refresh_queue_cache_entry : Read → String → M (Unit {0})
  unfolding get_queue evict_queue_cache cache_queue_row
  refresh_queue_cache_entry r name = do queue ← get_queue r name; keep_or_evict name queue

  -- `if (deadLetter)`: it is another queue, and it exists.
  abbrev pub check_dead_letter : Read → Read → String → Field String → M (Unit {0})
  check_dead_letter r₁ r₂ name missing = return tt
  check_dead_letter r₁ r₂ name null = return tt
  check_dead_letter r₁ r₂ name (value d) = if str_eq d "" then return tt else do
    lift (assert_queue_name (units d))
    lift (check (not (str_eq name d)) "deadLetter cannot be itself")
    _ ← get_queue_cache r₁ r₂ d
    return tt

  -- createQueue, after `name` and `policy` are read from their arguments
  unfoldable pub create_queue :
      Bool
      → (String → String)
      → ℕ
      → Read
      → Read
      → Read
      → String
      → Policy
      → Bool
      → QueueOptions
      → M (Unit {0})
  unfolding refresh_queue_cache_entry get_queue_cache created_row insert_queue
  create_queue simple hash now r₁ r₂ r₃ name policy partition o = do
    lift (assert_queue_name (units name))
    check_dead_letter r₁ r₂ name o.dead_letter
    run_sql (insert_queue (created_row simple hash now name policy partition o))
    refresh_queue_cache_entry r₃ name

  -- updateQueue, of options that have a key, and neither `policy` nor `partition`
  unfoldable pub update_queue_options :
      ℕ → Read → Read → Read → String → QueueOptions → M (Unit {0})
  unfolding refresh_queue_cache_entry get_queue_cache
  update_queue_options now r₁ r₂ r₃ name o = do
    lift (assert_queue_name (units name))
    check_dead_letter r₁ r₂ name o.dead_letter
    run_sql (update_queue now name o)
    refresh_queue_cache_entry r₃ name

  -- deleteQueue: where the lookup throws, nothing is done.
  abbrev pub delete_found : String → World × Checked QueueResult → World × Checked (Unit {0})
  delete_found name (w, refused e) = (w, accepted tt)
  delete_found name (w, accepted q) =
      (run_sql (delete_queue name) >> λ v. (evict_queue_cache name v, accepted tt)) w

  unfoldable pub delete_queue_by_name : Read → Read → String → M (Unit {0})
  unfolding get_queue_cache evict_queue_cache
  delete_queue_by_name r₁ r₂ name = do
    lift (assert_queue_name (units name))
    λ w. delete_found name (get_queue_cache r₁ r₂ name w)
