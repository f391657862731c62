-- ===== src/Queues/Entries.antt =====
-- The entries of an object keyed by queue name, after each change of the object or of the queue table.
use bun_boss.Base.{
  ◌≡◌, refl, sym, ap, ◌∙◌, inl, inr, String, Bool, true, false, if◌then◌else◌, List, [], ◌∷◌, map,
  Option, none, some, str_eq, select, reject, arith, Bool-cases,
}
use bun_boss.Attorney.{accepted}
use bun_boss.Commands.{has_name}
use bun_boss.Queues.{
  QueueResult, QueueRow, Database, is_named, has_queue, set_where, check_row, created_row,
  insert_queue, update_queue, updated_row, delete_queue,
}
use bun_boss.Queues.Sound.{
  Once, Statement, creates, updates, deletes, execute, accepted-injective, >>-eq-accepted,
}
use bun_boss.Queues.Cache.{entry, put, put_all, first_of}
use text.Mathlib.TextEquality.{eq_iff}

abbrev pub columns_of : List QueueRow → List QueueResult
columns_of qs = map (λ q. q.columns) qs

-- What the table has under a name.
abbrev pub stored : String → Database → Option QueueResult
stored name db = entry name (columns_of db.queues)

-- Each entry is that of the table, for the names that pass a test.
abbrev pub AgreesAt : (String → Bool) → List QueueResult → List QueueResult → Type 0
AgreesAt test qs rows =
    (n : String) (q : QueueResult) → test n ≡ true → entry n qs ≡ some q → entry n rows ≡ some q

pub entry-put :
    (queue : QueueResult) (qs : List QueueResult) (n : String)
    → entry n (put queue qs) ≡ (if str_eq queue.name n then some queue else entry n qs)
unfolding entry put
entry-put queue [] n = refl
entry-put queue (q ∷ qs) n =
    ground
      (arith, entry-put queue qs n, eq_iff q.name queue.name, eq_iff q.name n, eq_iff queue.name n)

pub entry-reject :
    (name : String) (qs : List QueueResult) (n : String)
    → entry n (reject (λ q. str_eq q.name name) qs) ≡ (if str_eq n name then none else entry n qs)
unfolding entry
entry-reject name [] n = ground arith
entry-reject name (q ∷ qs) n =
    ground (arith, entry-reject name qs n, eq_iff q.name name, eq_iff q.name n, eq_iff n name)

pub entry-name :
    (n : String) (qs : List QueueResult) (q : QueueResult) → entry n qs ≡ some q → q.name ≡ n
unfolding entry
entry-name n [] q h = cc
entry-name n (r ∷ qs) q h = ground (arith, entry-name n qs q, eq_iff r.name n)

-- The filter by one name finds the entry.
pub first_of-entry :
    (qs : List QueueRow) (n : String)
    → first_of (accepted (columns_of (select (λ q. has_name (n ∷ []) q.columns.name) qs)))
      ≡ accepted (entry n (columns_of qs))
unfolding entry
first_of-entry [] n = refl
first_of-entry (q ∷ qs) n =
    ground (arith, first_of-entry qs n, eq_iff n q.columns.name, eq_iff q.columns.name n)

pub entry-absent :
    (qs : List QueueRow) (n : String) → has_queue qs n ≡ false → entry n (columns_of qs) ≡ none
unfolding entry has_queue
entry-absent [] n h = refl
entry-absent (q ∷ qs) n h = ground (arith, entry-absent qs n)

abbrev pub or_else : Option QueueResult → Option QueueResult → Option QueueResult
or_else none d = d
or_else (some q) d = some q

-- With distinct names, the object made of all rows has the table's entries.
pub entry-put_all :
    (qs : List QueueRow) (acc : List QueueResult) (n : String)
    → Once qs
    → entry n (put_all acc (columns_of qs)) ≡ or_else (entry n (columns_of qs)) (entry n acc)
unfolding entry put_all
entry-put_all [] acc n h = refl
entry-put_all (q ∷ qs) acc n h = ground (
  arith,
  entry-put_all qs (put q.columns acc) n h.1,
  entry-put q.columns acc n,
  h.0,
  entry-absent qs q.columns.name,
  eq_iff q.columns.name n,
)

-- The entries under other names, before and after a statement on one name.
pub entry-set_where :
    (name : String) (f : QueueRow → QueueRow)
    → ((q : QueueRow) → (f q).columns.name ≡ q.columns.name)
    → (qs : List QueueRow) (n : String) → str_eq name n ≡ false
    → entry n (columns_of (set_where (is_named name) f qs)) ≡ entry n (columns_of qs)
unfolding entry set_where
entry-set_where name f same [] n h = refl
entry-set_where name f same (q ∷ qs) n h = ground (
  arith,
  entry-set_where name f same qs n h,
  same q,
  eq_iff q.columns.name name,
  eq_iff name n,
  eq_iff q.columns.name n,
)

pub columns-reject :
    (name : String) (qs : List QueueRow)
    → columns_of (reject (is_named name) qs) ≡ reject (λ q. str_eq q.name name) (columns_of qs)
columns-reject name [] = refl
columns-reject name (q ∷ qs) = ground (arith, columns-reject name qs)

abbrev pub target : Statement → String
target (creates simple hash now name policy partition o) = name
target (updates now name o) = name
target (deletes name) = name

inserted_elsewhere :
    (row : QueueRow) (db db' : Database) (n : String)
    → insert_queue row db ≡ accepted db'
    → str_eq row.columns.name n ≡ false
    → stored n db' ≡ stored n db
unfolding insert_queue entry
inserted_elsewhere row db db' n h k = elim (Bool-cases (has_queue db.queues row.columns.name)) [
  | inl e ↦ ap (stored n) (sym (accepted-injective db db' (>>-eq-accepted _ _ (rw e at h)).1))
  | inr e ↦
      let (checked, added) = >>-eq-accepted (check_row db.queues row) _ (rw e at h) in
      ap (stored n) (sym (accepted-injective _ db' added))
      ∙ ap (λ b. if b then some row.columns else stored n db) k
]

-- A statement on one queue leaves what is stored under other names.
pub stored-execute :
    (s : Statement) (db db' : Database) (n : String)
    → execute s db ≡ accepted db'
    → str_eq (target s) n ≡ false
    → stored n db' ≡ stored n db
unfolding update_queue delete_queue updated_row
stored-execute (creates simple hash now name policy partition o) db db' n h k =
    inserted_elsewhere (created_row simple hash now name policy partition o) db db' n h
      (unfold created_row in k)
stored-execute (updates now name o) db db' n h k =
    ap (stored n) (sym (accepted-injective _ db' (>>-eq-accepted _ _ h).1))
    ∙ entry-set_where name (updated_row now o) (λ q. refl) db.queues n k
stored-execute (deletes name) db db' n h k =
    ap (stored n) (sym (accepted-injective _ db' (>>-eq-accepted _ _ (>>-eq-accepted _ _ h).1).1))
    ∙ (ap (entry n) (columns-reject name db.queues)
        ∙ (entry-reject name (columns_of db.queues) n
            ∙ ap (λ b. if b then none else stored n db) (no_match k)))
  where
    no_match : str_eq name n ≡ false → str_eq n name ≡ false
    no_match t = ground (arith, eq_iff name n, eq_iff n name)
