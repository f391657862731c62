-- ===== src/Queues/Sound.antt =====
-- What the statements on queues keep true of the database.
use bun_boss.Base.{
  ℕ, ◌≡◌, refl, ap, ◌∙◌, inl, inr, String, Bool, true, false, not, ◌||◌, if◌then◌else◌, List, [],
  ◌∷◌, Option, none, some, str_eq, any, reject, All, arith, Bool-cases,
}
use bun_boss.Job.{Policy, Job}
use bun_boss.Attorney.{Checked, accepted, refused, ◌>>◌, check}
use bun_boss.Queues.{
  QueueRow, Database, QueueOptions, is_named, has_queue, created_row, is_other, refers, check_row,
  insert_queue, updated_row, check_rows, set_where, update_queue, is_to, delete_queue,
}
use mathlib.Core.Path.{subst}
use text.Mathlib.TextEquality.{eq_iff}

pub data Statement : Type 0 where
  creates : Bool → (String → String) → ℕ → String → Policy → Bool → QueueOptions → Statement
  updates : ℕ → String → QueueOptions → Statement
  deletes : String → Statement

abbrev pub execute : Statement → Database → Checked Database
execute (creates simple hash now name policy partition o) db =
    insert_queue (created_row simple hash now name policy partition o) db
execute (updates now name o) db = update_queue now name o db
execute (deletes name) db = delete_queue name db

abbrev pub Once : List QueueRow → Type 0
Once [] = Unit
Once (q ∷ qs) = (has_queue qs q.columns.name ≡ false) × Once qs

-- A dead letter queue is another queue, and it exists.
abbrev pub IsLinked : List QueueRow → QueueRow → Type 0
IsLinked qs q =
    (is_other q.columns.name q.columns.dead_letter ≡ true)
    × (refers qs q.columns.dead_letter ≡ true)

abbrev pub IsHoused : List QueueRow → Job → Type 0
IsHoused qs j = (has_queue qs j.name ≡ true) × (refers qs j.dead_letter ≡ true)

pub record IsSound (db : Database) : Type 0 where
  pub once : Once db.queues
  pub linked : All (IsLinked db.queues) db.queues
  pub housed : All (IsHoused db.queues) db.jobs
  pub scheduled : All (λ s. has_queue db.queues s.name ≡ true) db.schedules

All-mono {ℓ κ} :
    {A : Type ℓ} (P Q : A → Type κ) → ((a : A) → P a → Q a) → (xs : List A) → All P xs → All Q xs
All-mono P Q f [] h = tt
All-mono P Q f (x ∷ xs) h = (f x h.0, All-mono P Q f xs h.1)

refers_mono :
    (qs rs : List QueueRow)
    → ((n : String) → has_queue qs n ≡ true → has_queue rs n ≡ true)
    → (d : Option String) → refers qs d ≡ true
    → refers rs d ≡ true
refers_mono qs rs f none h = refl
refers_mono qs rs f (some d) h = f d h

has_queue-cons :
    (q : QueueRow) (qs : List QueueRow) (n : String)
    → has_queue qs n ≡ true
    → has_queue (q ∷ qs) n ≡ true
unfolding has_queue
has_queue-cons q qs n h = ground arith

IsLinked-cons :
    (row : QueueRow) (qs : List QueueRow) (q : QueueRow) → IsLinked qs q → IsLinked (row ∷ qs) q
IsLinked-cons row qs q h = (h.0, refers_mono qs (row ∷ qs) (has_queue-cons row qs) _ h.1)

pub >>-eq-accepted {ℓ} :
    {A : Type ℓ} (m : Checked (Unit {0})) (k : Checked A) {b : A}
    → (m >> k) ≡ accepted b
    → (m ≡ accepted tt) × (k ≡ accepted b)
>>-eq-accepted (accepted tt) k h = (refl, h)
>>-eq-accepted (refused e) k h = cc

check_row-IsLinked :
    (row : QueueRow) (qs : List QueueRow) → check_row qs row ≡ accepted tt → IsLinked qs row
check_row-IsLinked row qs h = ground arith

pub accepted-injective : {A : Type 0} (a b : A) → accepted a ≡ accepted b → a ≡ b
accepted-injective a b h = cc

insert_queue-IsSound :
    (row : QueueRow) (db db' : Database)
    → IsSound db
    → insert_queue row db ≡ accepted db'
    → IsSound db'
unfolding insert_queue
insert_queue-IsSound row db db' s h = elim (Bool-cases (has_queue db.queues row.columns.name)) [
  | inl e ↦
      let kept : accepted db ≡ accepted db' = (>>-eq-accepted _ _ (rw e at h)).1 in
      subst IsSound (accepted-injective db db' kept) s
  | inr e ↦
      let (linked, added) = >>-eq-accepted (check_row db.queues row) _ (rw e at h) in
      subst IsSound (accepted-injective _ db' added) (record {
        once = (e, s.once);
        linked = (
          IsLinked-cons row _ row (check_row-IsLinked row db.queues linked),
          All-mono _ _ (IsLinked-cons row db.queues) db.queues s.linked,
        );
        housed =
            All-mono _ _
              (λ j k. (wider j.name k.0, refers_mono db.queues (row ∷ db.queues) wider _ k.1))
              db.jobs s.housed;
        scheduled = All-mono _ _ (λ r. wider r.name) db.schedules s.scheduled;
      })
]
  where
    wider : (n : String) → has_queue db.queues n ≡ true → has_queue (row ∷ db.queues) n ≡ true
    wider n k = has_queue-cons row db.queues n k

-- An UPDATE that keeps names.
module _ (p : QueueRow → Bool) (f : QueueRow → QueueRow)
    (same : (q : QueueRow) → (f q).columns.name ≡ q.columns.name) where
  set_name : (q : QueueRow) → (if p q then f q else q).columns.name ≡ q.columns.name
  set_name q = elim (Bool-cases (p q)) [ inl e ↦ rw e (same q) | inr e ↦ rw e refl ]

  has_queue-set_where :
      (qs : List QueueRow) (n : String) → has_queue (set_where p f qs) n ≡ has_queue qs n
  unfolding has_queue set_where
  has_queue-set_where [] n = refl
  has_queue-set_where (q ∷ qs) n = rw (set_name q, has_queue-set_where qs n)

  pub Once-set_where : (qs : List QueueRow) → Once qs → Once (set_where p f qs)
  unfolding set_where
  Once-set_where [] h = tt
  Once-set_where (q ∷ qs) h = (
    ap (has_queue (set_where p f qs)) (set_name q) ∙ (has_queue-set_where qs _ ∙ h.0),
    Once-set_where qs h.1,
  )

  refers-set_where :
      (qs : List QueueRow) (d : Option String)
      → refers qs d ≡ true
      → refers (set_where p f qs) d ≡ true
  refers-set_where qs d = refers_mono qs _ (λ n h. has_queue-set_where qs n ∙ h) d

  IsLinked-set_where :
      (qs rest : List QueueRow)
      → check_rows p f qs rest ≡ accepted tt
      → All (IsLinked qs) rest
      → All (IsLinked (set_where p f qs)) (set_where p f rest)
  unfolding check_rows set_where
  IsLinked-set_where qs [] h l = tt
  IsLinked-set_where qs (q ∷ rest) h l =
      let (first, others) = >>-eq-accepted (if p q then check_row qs (f q) else accepted tt) _ h in
      (
        (elim (Bool-cases (p q)) [
          | inl e ↦
              let k = check_row-IsLinked (f q) qs (rw e at first) in
              rw e (k.0, refers-set_where qs _ k.1)
          | inr e ↦ rw e (l.0.0, refers-set_where qs _ l.0.1)
        ]),
        IsLinked-set_where qs rest others l.1,
      )

update_queue-IsSound :
    (now : ℕ) (name : String) (o : QueueOptions) (db db' : Database)
    → IsSound db
    → update_queue now name o db ≡ accepted db'
    → IsSound db'
unfolding update_queue updated_row
update_queue-IsSound now name o db db' s h =
    let (checked, done) = >>-eq-accepted _ _ h in
    subst IsSound (accepted-injective _ db' done) (record {
      once = Once-set_where p f same db.queues s.once;
      linked = IsLinked-set_where p f same db.queues db.queues checked s.linked;
      housed =
          All-mono _ _ (λ j k. (wider j.name k.0, refers_mono db.queues _ wider _ k.1)) db.jobs
            s.housed;
      scheduled = All-mono _ _ (λ r. wider r.name) db.schedules s.scheduled;
    })
  where
    p : QueueRow → Bool
    p = is_named name

    f : QueueRow → QueueRow
    f = updated_row now o

    same : (q : QueueRow) → (f q).columns.name ≡ q.columns.name
    same q = refl

    wider :
        (n : String) → has_queue db.queues n ≡ true → has_queue (set_where p f db.queues) n ≡ true
    wider n k = has_queue-set_where p f same db.queues n ∙ k

neither : (a b : Bool) → (a || b) ≡ false → (a ≡ false) × (b ≡ false)
neither a b k = ground arith

-- What all rows have, seen after a DELETE that leaves no row that fits `r`.
All-reject :
    {A : Type 0} (p r : A → Bool) (P Q : A → Type 0)
    → ((a : A) → p a ≡ false → r a ≡ false → P a → Q a)
    → (xs : List A) → any r (reject p xs) ≡ false
    → All P xs
    → All Q (reject p xs)
All-reject p r P Q f [] n h = tt
All-reject p r P Q f (x ∷ xs) n h = elim (Bool-cases (p x)) [
  | inl e ↦ rw e (All-reject p r P Q f xs (rw e at n) h.1)
  | inr e ↦
      let (first, others) = neither (r x) _ (rw e at n) in
      rw e (f x e first h.0, All-reject p r P Q f xs others h.1)
]

-- What is left by a DELETE of one name.
module _ (name : String) where
  has_queue-reject :
      (qs : List QueueRow) (n : String)
      → str_eq n name ≡ false
      → has_queue (reject (is_named name) qs) n ≡ has_queue qs n
  unfolding has_queue
  has_queue-reject [] n h = refl
  has_queue-reject (q ∷ qs) n h = ground (
    arith,
    has_queue-reject qs n h,
    eq_iff q.columns.name name,
    eq_iff q.columns.name n,
    eq_iff n name,
  )

  has_queue-reject-false :
      (qs : List QueueRow) (n : String)
      → has_queue qs n ≡ false
      → has_queue (reject (is_named name) qs) n ≡ false
  unfolding has_queue
  has_queue-reject-false [] n h = refl
  has_queue-reject-false (q ∷ qs) n h = ground (arith, has_queue-reject-false qs n)

  Once-reject : (qs : List QueueRow) → Once qs → Once (reject (is_named name) qs)
  Once-reject [] h = tt
  Once-reject (q ∷ qs) h = elim (Bool-cases (is_named name q)) [
    | inl e ↦ rw e (Once-reject qs h.1)
    | inr e ↦ rw e (has_queue-reject-false qs _ h.0, Once-reject qs h.1)
  ]

  refers-reject :
      (qs : List QueueRow) (d : Option String)
      → is_to name d ≡ false
      → refers qs d ≡ true
      → refers (reject (is_named name) qs) d ≡ true
  refers-reject qs none t h = refl
  refers-reject qs (some d) t h = has_queue-reject qs d t ∙ h

any-false : {A : Type 0} (xs : List A) → any (λ _. false) xs ≡ false
any-false [] = refl
any-false (x ∷ xs) = any-false xs

checked : (b : Bool) (message : String) → check b message ≡ accepted tt → b ≡ true
checked true m h = refl
checked false m h = cc

not-true : (b : Bool) → not b ≡ true → b ≡ false
not-true b h = ground arith

delete_queue-IsSound :
    (name : String) (db db' : Database)
    → IsSound db
    → delete_queue name db ≡ accepted db'
    → IsSound db'
unfolding delete_queue
delete_queue-IsSound name db db' s h =
    let (no_jobs, h₁) = >>-eq-accepted _ _ h in
    let (no_queues, h₂) = >>-eq-accepted _ _ h₁ in
    subst IsSound (accepted-injective _ db' h₂) (record {
      once = Once-reject name db.queues s.once;
      linked =
          All-reject (is_named name) (λ q. is_to name q.columns.dead_letter) _ _
            (λ q e n k. (k.0, refers-reject name db.queues _ n k.1)) db.queues
            (not-true _ (checked _ _ no_queues)) s.linked;
      housed =
          All-reject (λ j. str_eq j.name name) (λ j. is_to name j.dead_letter) _ _
            (λ j e n k.
              (has_queue-reject name db.queues _ e ∙ k.0, refers-reject name db.queues _ n k.1))
            db.jobs (not-true _ (checked _ _ no_jobs)) s.housed;
      scheduled =
          All-reject (λ r. str_eq r.name name) (λ _. false) _ _
            (λ r e n k. has_queue-reject name db.queues _ e ∙ k) db.schedules
            (any-false (reject (λ r. str_eq r.name name) db.schedules)) s.scheduled;
    })

-- A statement that creates, updates or deletes a queue, and is accepted, keeps the database sound:
-- queue names are distinct, a queue's dead letter queue is another queue that exists, every job
-- and its dead letter queue belong to a queue that exists, and so does every schedule.
pub execute-IsSound :
    (s : Statement) (db db' : Database) → IsSound db → execute s db ≡ accepted db' → IsSound db'
execute-IsSound (creates simple hash now name policy partition o) db db' k h =
    insert_queue-IsSound (created_row simple hash now name policy partition o) db db' k h
execute-IsSound (updates now name o) db db' k h = update_queue-IsSound now name o db db' k h
execute-IsSound (deletes name) db db' k h = delete_queue-IsSound name db db' k h
