-- ===== src/Arguments/Backend.antt =====
-- src/attorney.ts: getConfig, and what it reads, the backend, the isolation of tables and the schema.
-- A dialect stands for its object by its name. A backend that is no profile is refused, also when it
-- is a name that every object inherits (that one by a TypeError of the line behind).
pub mod Isolation
use bun_boss.Base.{
  ℕ, String, Bool, true, false, not, ◌&&◌, ◌||◌, if◌then◌else◌, List, [], ◌∷◌, Option, some, str_eq,
}
use bun_boss.Job.{ℤ}
use bun_boss.Attorney.{
  Value, absent, bool, str, obj, Config, Checked, accepted, refused, ◌>>=◌, ◌>>◌, check, set_key,
  is_in, to_number, number_ge, is_truthy,
}
use bun_boss.Attorney.Options.{optional}
use bun_boss.Attorney.Intervals.{apply_ops_config, apply_schedule_config, apply_flow_config}
use bun_boss.Names.{assert_postgres_object_name}
use bun_boss.Arguments.{no_keys}

pub data Backend : Type 0 where
  postgres pglite sqlite : Backend

abbrev pub backend_name : Backend → String
backend_name postgres = "postgres"
backend_name pglite = "pglite"
backend_name sqlite = "sqlite"

-- backend in BACKEND_PROFILES
abbrev pub find_backend : String → Checked Backend
find_backend s =
    if str_eq s "postgres"
    then accepted postgres
    else if str_eq s "pglite"
    then accepted pglite
    else if str_eq s "sqlite"
    then accepted sqlite
    else refused "configuration assert: backend must be one of postgres, pglite, sqlite"

abbrev pub read_backend : Value → Checked Backend
read_backend absent = accepted postgres
read_backend (str s) = find_backend s
read_backend _ = refused "configuration assert: backend must be one of postgres, pglite, sqlite"

abbrev pub is_sqlite : Backend → Bool
is_sqlite sqlite = true
is_sqlite _ = false

-- COMPATIBILITY_FLAGS, all of them set for sqlite and none for the others
abbrev pub set_flags : Bool → Config → Config
set_flags b c = set_key "noListenNotify" (bool b) (
    set_key "noCoveringIndexes" (bool b) (
      set_key "noAdvisoryLocks" (bool b) (
        set_key "noDeferrableConstraints" (bool b) (
          set_key "noTablePartitioning" (bool b)
            (set_key "noMultiMutationCte" (bool b) (set_key "noSkipLocked" (bool b) c))))))

-- isolation === 'schema' || isolation === 'prefix'
abbrev pub isolation_of : Value → Checked String
isolation_of absent = accepted "schema"
isolation_of (str s) =
    if str_eq s "schema"
    then accepted "schema"
    else if str_eq s "prefix"
    then accepted "prefix"
    else refused "configuration assert: tableIsolation must be one of schema, prefix"
isolation_of _ = refused "configuration assert: tableIsolation must be one of schema, prefix"

abbrev pub is_prefix : Value → Bool
is_prefix (str s) = str_eq s "prefix"
is_prefix _ = false

abbrev pub without_schema : Config → Config
without_schema c = set_key "createSchema" (bool false) (set_key "noTablePartitioning" (bool true) c)

-- The isolation that resolveTableIsolation settles on, and what a prefix brings with it.
abbrev pub read_isolation : Backend → Value → Checked String
read_isolation sqlite v =
    check (optional is_prefix v)
      "configuration assert: backend 'sqlite' always uses tableIsolation 'prefix'"
    >> accepted "prefix"
read_isolation b v = isolation_of v

abbrev pub set_isolation : String → Config → Config
set_isolation isolation c =
    let d = set_key "tableIsolation" (str isolation) c in
    if str_eq isolation "prefix" then without_schema d else d

unfoldable pub resolve_table_isolation : Backend → Config → Checked Config
resolve_table_isolation b c =
    read_isolation b (c "tableIsolation") >>= λ isolation. accepted (set_isolation isolation c)

-- if (config[hook]) config[flag] = true
abbrev pub hook : String → String → Config → Config
hook test flag c = if is_truthy (c test) then set_key flag (bool true) c else c

abbrev pub hooks : List (String × String) → Config → Config
hooks [] c = c
hooks ((test, flag) ∷ rest) c = hooks rest (hook test flag c)

abbrev pub test_flags : List (String × String)
test_flags =
    ("__test__noSkipLockedNoCte", "noSkipLocked")
    ∷ ("__test__noSkipLockedNoCte", "noMultiMutationCte")
    ∷ ("__test__noAdvisoryLocks", "noAdvisoryLocks")
    ∷ ("__test__noTablePartitioning", "noTablePartitioning")
    ∷ ("__test__noDeferrableConstraints", "noDeferrableConstraints")
    ∷ ("__test__noCoveringIndexes", "noCoveringIndexes")
    ∷ ("__test__noListenNotify", "noListenNotify")
    ∷ []

abbrev pub test_hooks : Config → Config
test_hooks c = hooks test_flags c

-- An adapter must carry the database of sqlite.
abbrev pub check_adapter : Backend → Config → Checked (Unit {0})
check_adapter sqlite c = do
  check (is_truthy (c "db"))
      "configuration assert: backend 'sqlite' requires a db adapter (see fromBunSqlite)"
  check (not (is_in (c "url"))) "configuration assert: url does not apply to backend 'sqlite'"
check_adapter b c = accepted tt

abbrev pub with_profile : Backend → Config → Config
with_profile b c = set_flags (is_sqlite b) (
    set_key "dialect" (str (if is_sqlite b then "sqlite" else "postgres"))
      (set_key "backend" (str (backend_name b)) c))

unfoldable pub resolve_backend : Config → Checked Config
unfolding resolve_table_isolation
resolve_backend c = do
  b ← read_backend (c "backend")
  check_adapter b (with_profile b c)
  d ← resolve_table_isolation b (with_profile b c)
  accepted (test_hooks d)

abbrev pub or_default : String → Bool → Config → Config
or_default key d c = if is_in (c key) then c else set_key key (bool d) c

module _ (number_of : String → Option ℤ) (units : String → List ℕ) where
  unfoldable pub validate_warning_config : Config → Checked (Unit {0})
  validate_warning_config c = do
    check (optional (λ v. number_ge (to_number number_of v) 1000) (c "warningQueueSize"))
        "configuration assert: warningQueueSize must be at least 1"
    check (optional (λ v. number_ge (to_number number_of v) 1000) (c "warningSlowQuerySeconds"))
        "configuration assert: warningSlowQuerySeconds must be at least 1"

  -- A schema that is no text fails in the check of its name.
  abbrev pub check_schema : Value → Checked (Unit {0})
  unfolding assert_postgres_object_name
  check_schema (str s) = if str_eq s "" then accepted tt else assert_postgres_object_name (units s)
  check_schema v = check (not (is_truthy v)) "name.startsWith is not a function"

  -- DEFAULT_SCHEMA and DEFAULT_PREFIX
  unfoldable pub apply_schema_config : Config → Checked Config
  unfolding check_schema
  apply_schema_config c = do
    check_schema (c "schema")
    let d = str (if is_prefix (c "tableIsolation") then "bunboss" else "pgboss")
    accepted (set_key "schema" (if is_truthy (c "schema") then c "schema" else d) c)

  abbrev pub read_config : Value → Checked Config
  read_config (str s) =
      check (not (str_eq s "")) "configuration assert: string or config object is required"
      >> accepted (set_key "url" (str s) no_keys)
  read_config (obj c) = accepted c
  read_config v = refused "configuration assert: string or config object is required"

  unfoldable pub get_config : Value → Checked Config
  unfolding resolve_backend apply_schema_config apply_ops_config apply_schedule_config
      apply_flow_config validate_warning_config
  get_config value = do
    given ← read_config value
    let c = or_default "useListenNotify" false (
        or_default "createSchema" true (
          or_default "migrate" true
            (or_default "supervise" true (or_default "schedule" true given))))
    with_backend ← resolve_backend c
    with_schema ← apply_schema_config with_backend
    with_ops ← apply_ops_config number_of with_schema
    with_schedule ← apply_schedule_config number_of with_ops
    with_flow ← apply_flow_config number_of with_schedule
    validate_warning_config with_flow
    accepted with_flow
