-- ===== src/Attorney/Options.antt =====
-- The options of a job and of a queue: validateRetryConfig, validateExpirationConfig,
-- validateRetentionConfig, validateDeletionConfig, validateHeartbeatConfig, validateGroupConfig,
-- validatePriorityRangeConfig.
use bun_boss.Base.{ℕ, ◌*◌, String, Bool, true, false, not, ◌&&◌, ◌||◌, Option, some, str_eq}
use bun_boss.Job.{ℤ, pos, leb_ℤ}
use bun_boss.Attorney.{
  Value, absent, undefined, null, num, str, obj, Config, Checked, accepted, refused, ◌>>◌, check,
  is_null, is_bool, is_integer, is_true, to_number, number_ge, number_lt, is_truthy,
}

-- Number.isInteger(v) && v >= m, with m in thousandths
abbrev pub is_integer_from : ℕ → Value → Bool
is_integer_from m (num z) = is_integer (num z) && leb_ℤ (pos m) z
is_integer_from m _ = false

-- !('key' in config) || test(config.key)
abbrev pub optional : (Value → Bool) → Value → Bool
optional test absent = true
optional test v = test v

unfoldable pub validate_retry_config : Config → Checked (Unit {0})
validate_retry_config c = do
  check (optional (is_integer_from 0) (c "retryDelay")) "retryDelay must be an integer >= 0"
  check (optional (is_integer_from 0) (c "retryLimit")) "retryLimit must be an integer >= 0"
  check (optional is_bool (c "retryBackoff")) "retryBackoff must be either true or false"
  check (optional (λ v. is_null v || is_true (c "retryBackoff")) (c "retryDelayMax"))
      "retryDelayMax can only be set if retryBackoff is true"
  check (optional (λ v. is_null v || is_integer_from 0 v) (c "retryDelayMax"))
      "retryDelayMax must be an integer >= 0"

module _ (number_of : String → Option ℤ) where
  unfoldable pub validate_retention_config : Config → Checked (Unit {0})
  validate_retention_config c =
      check (optional (λ v. number_ge (to_number number_of v) 1000) (c "retentionSeconds"))
        "configuration assert: retentionSeconds must be at least every second"

  -- expireInSeconds / 60 / 60 < MAX_EXPIRATION_HOURS
  unfoldable pub validate_expiration_config : Config → Checked (Unit {0})
  validate_expiration_config c = do
    check (optional (λ v. number_ge (to_number number_of v) 1000) (c "expireInSeconds"))
        "configuration assert: expireInSeconds must be at least every second"
    let v = c "expireInSeconds"
    check (not (is_truthy v) || number_lt (to_number number_of v) (24 * 60 * 60 * 1000))
        "configuration assert: expiration cannot exceed 24 hours"

  unfoldable pub validate_deletion_config : Config → Checked (Unit {0})
  validate_deletion_config c =
      check (optional (λ v. number_ge (to_number number_of v) 0) (c "deleteAfterSeconds"))
        "configuration assert: deleteAfterSeconds must be at least 0 (0 disables deletion)"

unfoldable pub validate_heartbeat_config : Config → Checked (Unit {0})
validate_heartbeat_config c =
    check (optional (λ v. is_null v || is_integer_from 10000 v) (c "heartbeatSeconds"))
      "heartbeatSeconds must be an integer >= 10"

-- typeof v === 'string' && v.length > 0
abbrev pub is_filled_string : Value → Bool
is_filled_string (str s) = not (str_eq s "")
is_filled_string _ = false

-- typeof null is 'object' too, but null has returned before.
abbrev pub check_group : Value → Checked (Unit {0})
check_group absent = accepted tt
check_group undefined = accepted tt
check_group null = accepted tt
check_group (obj g) = do
  check (is_filled_string (g "id")) "group.id must be a non-empty string"
  check (optional is_filled_string (g "tier")) "group.tier must be a non-empty string if provided"
check_group _ = refused "group must be an object"

unfoldable pub validate_group_config : Config → Checked (Unit {0})
validate_group_config c = check_group (c "group")

abbrev pub number_le_number : Option ℤ → Option ℤ → Bool
number_le_number (some a) (some b) = leb_ℤ a b
number_le_number _ _ = false

abbrev pub check_integer : Value → String → Checked (Unit {0})
check_integer absent message = accepted tt
check_integer undefined message = accepted tt
check_integer v message = check (is_integer v) message

abbrev pub in_order : Value → Value → Bool
in_order absent b = true
in_order undefined b = true
in_order a absent = true
in_order a undefined = true
in_order (num a) (num b) = leb_ℤ a b
in_order _ _ = false

unfoldable pub validate_priority_range_config : Config → Checked (Unit {0})
validate_priority_range_config c = do
  let low = c "minPriority"
  let high = c "maxPriority"
  check_integer low "minPriority must be an integer"
  check_integer high "maxPriority must be an integer"
  check (in_order low high) "minPriority must be <= maxPriority"
