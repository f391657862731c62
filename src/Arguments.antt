-- ===== src/Arguments.antt =====
-- src/attorney.ts: the arguments of send, update, upsert, work, fetch and createQueue. A caller passes a
-- list of values. What JavaScript makes of a text as a number, of a value as a text, of a Date
-- (its ISO text), of a text's characters and of an object's entries are the parameters. A text passed
-- as update()'s options is read as an object without the keys that are looked at.
pub mod Backend
pub mod Accepts
use bun_boss.Base.{
  zero, suc, ℕ, String, Bool, true, false, not, ◌&&◌, ◌||◌, if◌then◌else◌, List, [], ◌∷◌, Option,
  none, some, str_eq, leb, length, ◌==◌,
}
use bun_boss.Job.{ℤ, pos, leb_ℤ}
use bun_boss.Attorney.{
  Value, absent, undefined, null, nan, bool, num, str, func, obj, Config, Checked, accepted,
  refused, ◌>>=◌, ◌>>◌, check, set_key, is_in, is_bool, is_null, is_integer, is_undefined,
  to_number, number_ge, is_truthy,
}
use bun_boss.Attorney.Options.{
  optional, is_integer_from, validate_retry_config, validate_retention_config,
  validate_expiration_config, validate_deletion_config, validate_heartbeat_config,
  validate_group_config, validate_priority_range_config,
}
use bun_boss.Attorney.Intervals.{apply_polling_interval}
use bun_boss.Names.{assert_object_name}

pub record Request : Type 0 where
  pub name : Value
  pub payload : Value
  pub options : Config

abbrev pub no_keys : Config
no_keys key = absent

abbrev pub nth : ℕ → List Value → Value
nth n [] = undefined
nth zero (v ∷ vs) = v
nth (suc n) (v ∷ vs) = nth n vs

abbrev pub is_func : Value → Bool
is_func func = true
is_func _ = false

abbrev pub is_str : Value → Bool
is_str (str s) = true
is_str _ = false

-- The name, the payload and the options of the two forms of a call; `verb` is the caller.
abbrev pub read_args : String → List Value → Checked (Value × (Value × Value))
read_args verb [] = accepted (undefined, (undefined, undefined))
read_args verb (str s ∷ rest) = accepted (str s, (nth 0 rest, nth 1 rest))
read_args verb (null ∷ []) = refused "boss requires all jobs to have a name"
read_args verb (null ∷ v ∷ rest) = refused "object API only accepts 1 argument"
read_args verb (obj j ∷ []) = accepted (j "name", (j "data", j "options"))
read_args verb (obj j ∷ v ∷ rest) = refused "object API only accepts 1 argument"
read_args verb (v ∷ rest) = accepted (undefined, (undefined, undefined))

abbrev pub is_positional : List Value → Bool
is_positional [] = false
is_positional (v ∷ rest) = is_str v

-- `options || {}`, which must be an object
abbrev pub object_or_empty : Value → String → Checked Config
object_or_empty (obj c) message = accepted c
object_or_empty v message = if is_truthy v then refused message else accepted no_keys

-- { ...(options || {}) }
abbrev pub spread : Value → Config
spread (obj c) = c
spread _ = no_keys

abbrev pub match_strategy : Value → Bool
match_strategy (str s) = str_eq s "newest" || (str_eq s "oldest" || str_eq s "all")
match_strategy _ = false

abbrev pub xor : Bool → Bool → Bool
xor true b = not b
xor false b = b

abbrev pub iso_or : Option String → Value → Value
iso_or (some iso) v = str iso
iso_or none v = v

-- value > 0
abbrev pub is_positive : Option ℤ → Bool
is_positive none = false
is_positive (some z) = not (leb_ℤ z (pos 0))

module _ (number_of : String → Option ℤ) (text_of : Value → String)
    (date_text : Value → Option String) (units : String → List ℕ)
    (entries : Config → List (String × Value)) where
  -- The startAfter of send(): a Date, a positive number, or a text.
  abbrev pub send_start_after : Value → Value
  send_start_after v = iso_or (date_text v) (
      if is_positive (to_number number_of v)
      then str (text_of v)
      else if is_str v
      then v
      else undefined)

  -- The startAfter of update(): a Date, any finite number, or a text.
  abbrev pub number_text : Value → Value
  number_text (num z) = str (text_of (num z))
  number_text (str s) = str s
  number_text _ = undefined

  abbrev pub update_start_after : Value → Value
  update_start_after v = iso_or (date_text v) (number_text v)

  unfoldable pub check_send_args : List Value → Checked Request
  unfolding validate_retry_config validate_expiration_config validate_retention_config
      validate_deletion_config validate_group_config validate_heartbeat_config
  check_send_args args = do
    (name, (payload, given)) ← read_args "send" args
    check (not (is_positional args && is_func payload))
        "send() cannot accept a function as the payload.  Did you intend to use work()?"
    check (is_truthy name) "boss requires all jobs to have a queue name"
    options ← object_or_empty given "options should be an object"
    check (optional is_integer (options "priority")) "priority must be an integer"
    let with_priority =
        set_key "priority"
          (if is_truthy (options "priority") then options "priority" else num (pos 0)) options
    let o = set_key "startAfter" (send_start_after (options "startAfter")) with_priority
    validate_retry_config o
    validate_expiration_config number_of o
    validate_retention_config number_of o
    validate_deletion_config number_of o
    validate_group_config o
    validate_heartbeat_config o
    accepted (record { name = name; payload = payload; options = o })

  unfoldable pub check_update_args : List Value → Checked Request
  unfolding validate_retry_config validate_expiration_config validate_retention_config
      validate_group_config validate_heartbeat_config
  check_update_args args = do
    (name, (payload, given)) ← read_args "update" args
    check (is_truthy name) "boss requires all jobs to have a queue name"
    check (not (is_func payload))
        "cannot accept a function as the payload.  Did you intend to use work()?"
    let options = spread given
    check (xor (is_truthy (options "id")) (is_truthy (options "singletonKey")))
        "requires exactly one of id or singletonKey"
    check (not (is_truthy (options "id") && not (is_undefined (options "match"))))
        "match is only valid when targeting jobs by singletonKey"
    check (is_undefined (options "match") || match_strategy (options "match"))
        "match must be one of: newest, oldest, all"
    check (optional is_integer (options "priority")) "priority must be an integer"
    let o =
        if is_in (options "startAfter")
        then set_key "startAfter" (update_start_after (options "startAfter")) options
        else options
    validate_retry_config o
    validate_expiration_config number_of o
    validate_retention_config number_of o
    validate_group_config o
    validate_heartbeat_config o
    accepted (record { name = name; payload = payload; options = o })

  -- validateQueueArgs
  abbrev pub check_dead_letter : Value → Checked (Unit {0})
  unfolding assert_object_name
  check_dead_letter (str s) = if str_eq s "" then accepted tt else assert_object_name (units s)
  check_dead_letter absent = accepted tt
  check_dead_letter null = accepted tt
  check_dead_letter _ = refused "deadLetter must be a string"

  unfoldable pub validate_queue_args : Config → Checked (Unit {0})
  unfolding check_dead_letter validate_retry_config validate_expiration_config
      validate_retention_config validate_deletion_config validate_heartbeat_config
  validate_queue_args c = do
    check (optional (λ v. is_null v || is_str v) (c "deadLetter")) "deadLetter must be a string"
    check (optional is_bool (c "notify")) "notify must be a boolean"
    check_dead_letter (c "deadLetter")
    validate_retry_config c
    validate_expiration_config number_of c
    validate_retention_config number_of c
    validate_deletion_config number_of c
    validate_heartbeat_config c

  -- validateGroupConcurrencyValue, of a value that is not null or undefined
  abbrev pub check_tier_list : List (String × Value) → Checked (Unit {0})
  check_tier_list [] = accepted tt
  check_tier_list ((tier, limit) ∷ rest) = do
    check (not (str_eq tier "")) "tier keys must be non-empty strings"
    check (is_integer_from 1000 limit) "tier limits must be an integer >= 1"
    check_tier_list rest

  abbrev pub check_tiers : Value → Checked (Unit {0})
  check_tiers (obj tiers) = check_tier_list (entries tiers)
  check_tiers v = check (not (is_truthy v)) "tiers must be an object"

  unfoldable pub validate_group_concurrency_value : Value → Checked (Unit {0})
  validate_group_concurrency_value (num z) =
      check (is_integer_from 1000 (num z)) "groupConcurrency must be an integer >= 1"
  validate_group_concurrency_value nan = refused "groupConcurrency must be an integer >= 1"
  validate_group_concurrency_value (obj g) = do
    check (is_integer_from 1000 (g "default")) "groupConcurrency.default must be an integer >= 1"
    check_tiers (g "tiers")
  validate_group_concurrency_value _ =
      refused "groupConcurrency must be a number or an object with { default, tiers? }"

  abbrev pub is_nullish : Value → Bool
  is_nullish v = is_null v || is_undefined v

  unfoldable pub validate_group_concurrency_config : Config → Checked (Unit {0})
  unfolding validate_group_concurrency_value
  validate_group_concurrency_config c =
      if is_nullish (c "groupConcurrency")
      then accepted tt
      else validate_group_concurrency_value (c "groupConcurrency")

  abbrev pub is_positive_num : Value → Bool
  is_positive_num (num z) = not (leb_ℤ z (pos 0))
  is_positive_num _ = false

  unfoldable pub validate_heartbeat_refresh_config : Config → Checked (Unit {0})
  validate_heartbeat_refresh_config c =
      check
        (is_nullish (c "heartbeatRefreshSeconds") || is_positive_num (c "heartbeatRefreshSeconds"))
        "heartbeatRefreshSeconds must be a number > 0"

  -- The options and the handler of work().
  abbrev pub work_args : List Value → Value × Value
  work_args [] = (undefined, undefined)
  work_args (callback ∷ []) = (obj no_keys, callback)
  work_args (options ∷ callback ∷ rest) =
      (if is_truthy options then options else obj no_keys, callback)

  abbrev pub check_object : Value → String → Checked Config
  check_object (obj c) message = accepted c
  check_object null message = accepted no_keys
  check_object v message = refused message

  unfoldable pub check_work_args : String → List Value → Checked (Config × Value)
  unfolding apply_polling_interval validate_priority_range_config validate_group_concurrency_config
      validate_heartbeat_refresh_config
  check_work_args name args = do
    check (not (str_eq name "")) "queue name is required"
    let (given, callback) = work_args args
    check (is_func callback) "expected callback to be a function"
    copy ← check_object given "expected config to be an object"
    options ← apply_polling_interval number_of copy
    check (optional (is_integer_from 1000) (options "batchSize")) "batchSize must be an integer > 0"
    check (optional is_bool (options "includeMetadata")) "includeMetadata must be a boolean"
    check (optional is_bool (options "priority")) "priority must be a boolean"
    check (optional (is_integer_from 1000) (options "localConcurrency"))
        "localConcurrency must be an integer >= 1"
    check (optional is_bool (options "perJobResults")) "perJobResults must be a boolean"
    check (optional is_bool (options "burstWhileNonEmpty")) "burstWhileNonEmpty must be a boolean"
    validate_priority_range_config options
    validate_group_concurrency_config options
    validate_heartbeat_refresh_config options
    accepted (options, callback)

  unfoldable pub check_fetch_args : String → Config → Checked (Unit {0})
  unfolding validate_priority_range_config validate_group_concurrency_config
  check_fetch_args name options = do
    check (not (str_eq name "")) "missing queue name"
    check (optional (is_integer_from 1000) (options "batchSize")) "batchSize must be an integer > 0"
    check (optional is_bool (options "includeMetadata")) "includeMetadata must be a boolean"
    check (optional is_bool (options "priority")) "priority must be a boolean"
    check (optional is_bool (options "ignoreStartAfter")) "ignoreStartAfter must be a boolean"
    validate_priority_range_config options
    validate_group_concurrency_config options
