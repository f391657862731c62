-- ===== src/Job.antt =====
-- A row of the job table: src/plans.ts (JOB_STATES, QUEUE_POLICIES, createEnumJobState,
-- createTableJob). Times are milliseconds since the epoch, a uuid is a number, jsonb is its text.
use bun_boss.Base.{ℕ, String, Bool, true, false, Option, none, some, ltb, leb, ◌==◌}

-- The order of the constructors is the order of the database's enum.
pub data State : Type 0 where
  created retry active completed cancelled failed : State

abbrev pub rank : State → ℕ
rank created = 0
rank retry = 1
rank active = 2
rank completed = 3
rank cancelled = 4
rank failed = 5

-- state < 'other', state <= 'other', state = 'other'
abbrev pub state_lt : State → State → Bool
state_lt s other = ltb (rank s) (rank other)

abbrev pub state_lte : State → State → Bool
state_lte s other = leb (rank s) (rank other)

abbrev pub state_eq : State → State → Bool
state_eq s other = rank s == rank other

unfoldable pub State-discrete : Discrete State
State-discrete = hlevel

pub data Policy : Type 0 where
  standard short singleton stately exclusive : Policy

abbrev pub policy_code : Policy → ℕ
policy_code standard = 0
policy_code short = 1
policy_code singleton = 2
policy_code stately = 3
policy_code exclusive = 4

-- policy = '...', never true of a NULL policy
abbrev pub policy_is : Policy → Option Policy → Bool
policy_is p none = false
policy_is p (some q) = policy_code q == policy_code p

-- A signed integer.
pub data ℤ : Type 0 where
  pos : ℕ → ℤ
  negsuc : ℕ → ℤ

-- `negsuc n` is -(n + 1).
abbrev pub leb_ℤ : ℤ → ℤ → Bool
leb_ℤ (pos a) (pos b) = leb a b
leb_ℤ (pos a) (negsuc b) = false
leb_ℤ (negsuc a) (pos b) = true
leb_ℤ (negsuc a) (negsuc b) = leb b a

pub record Job : Type 0 where
  pub id : ℕ
  pub name : String
  pub priority : ℤ
  pub job_data : Option String
  pub state : State
  pub retry_limit : ℕ
  pub retry_count : ℕ
  pub retry_delay : ℕ
  pub retry_backoff : Bool
  pub retry_delay_max : Option ℕ
  pub expire_seconds : ℕ
  pub deletion_seconds : ℕ
  pub singleton_key : Option String
  pub singleton_on : Option ℕ
  pub group_id : Option String
  pub group_tier : Option String
  pub start_after : ℕ
  pub created_on : ℕ
  pub started_on : Option ℕ
  pub completed_on : Option ℕ
  pub keep_until : ℕ
  pub output : Option String
  pub dead_letter : Option String
  pub policy : Option Policy
  pub heartbeat_on : Option ℕ
  pub heartbeat_seconds : Option ℕ
  pub blocked : Bool
  pub blocking : Bool
  pub pending_dependencies : ℕ
  pub source_name : Option String
  pub source_id : Option ℕ
  pub source_created_on : Option ℕ
  pub source_retry_count : Option ℕ

-- COALESCE(singleton_key, '')
abbrev pub coalesce {ℓ} : {A : Type ℓ} → Option A → A → A
coalesce none d = d
coalesce (some a) d = a

abbrev pub slot_key : Job → String
slot_key j = coalesce j.singleton_key ""
