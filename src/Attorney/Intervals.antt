-- ===== src/Attorney/Intervals.antt =====
-- The intervals of a worker and of an instance: applyPollingInterval, applyOpsConfig,
-- applyScheduleConfig, applyFlowConfig. Seconds and milliseconds alike are in thousandths of one.
use bun_boss.Base.{ℕ, ◌+◌, ◌*◌, String, Bool, false, ◌&&◌, if◌then◌else◌, Option, none, some, max}
use Prim.Native.String.{◌++◌}
use bun_boss.Job.{ℤ, pos, negsuc, leb_ℤ}
use bun_boss.Attorney.{
  Value, absent, nan, num, Config, Checked, accepted, ◌>>=◌, ◌>>◌, check, set_key, is_bool,
  to_number, number_ge, number_le, is_truthy,
}
use bun_boss.Attorney.Options.{optional, is_integer_from}

-- value * 1000
abbrev pub times_1000 : Option ℤ → Value
times_1000 none = nan
times_1000 (some (pos n)) = num (pos (n * 1000))
times_1000 (some (negsuc n)) = num (negsuc (n * 1000 + 999))

abbrev pub number_max : ℕ → Option ℤ → Value
number_max m none = nan
number_max m (some (pos n)) = num (pos (max m n))
number_max m (some (negsuc n)) = num (pos m)

abbrev pub ge_number : Option ℤ → Option ℤ → Bool
ge_number (some a) (some b) = leb_ℤ b a
ge_number _ _ = false

-- `value || fallback`
abbrev pub or_else : Value → ℕ → Value
or_else v d = if is_truthy v then v else num (pos d)

-- The burst triggers are only validated.
abbrev pub check_burst : Config → Config → Checked Config
check_burst c result = do
  check (optional (is_integer_from 1000) (c "burstWhenReadyExceeds"))
      "configuration assert: burstWhenReadyExceeds must be an integer >= 1"
  check (optional is_bool (c "burstWhenBatchFull"))
      "configuration assert: burstWhenBatchFull must be a boolean"
  accepted result

module _ (number_of : String → Option ℤ) where
  abbrev pub number : Value → Option ℤ
  number = to_number number_of

  -- MIN_POLLING_INTERVAL_MS / 1000 is half a second.
  abbrev pub base_poll : Value → Value
  base_poll absent = num (pos 2000000)
  base_poll v = times_1000 (number v)

  -- An explicit backstop interval must not be below the base poll.
  abbrev pub not_below_base : Value → Value → Checked Value
  not_below_base interval base = do
    check (ge_number (number interval) (number base))
        "configuration assert: notifyPollingIntervalSeconds must be at least pollingIntervalSeconds"
    accepted interval

  abbrev pub notify_poll : Value → Value → Checked Value
  notify_poll absent base = accepted (number_max 30000000 (number base))
  notify_poll v base = not_below_base (times_1000 (number v)) base

  unfoldable pub apply_polling_interval : Config → Checked Config
  apply_polling_interval c = do
    check (optional (λ v. number_ge (number v) 500) (c "pollingIntervalSeconds"))
        "configuration assert: pollingIntervalSeconds must be at least every 500ms"
    let base = base_poll (c "pollingIntervalSeconds")
    check (optional (λ v. number_ge (number v) 500) (c "notifyPollingIntervalSeconds"))
        "configuration assert: notifyPollingIntervalSeconds must be at least every 500ms"
    notify ← notify_poll (c "notifyPollingIntervalSeconds") base
    check_burst c (set_key "notifyPollingInterval" notify (set_key "pollingInterval" base c))

  -- One interval of applyOpsConfig: at least a second if given, the default if falsy, at most a day.
  unfoldable pub apply_ops_interval : String → ℕ → Config → Checked Config
  apply_ops_interval key fallback c = do
    check (optional (λ v. number_ge (number v) 1000) (c key))
        ("configuration assert: " ++ (key ++ " must be at least every second"))
    let v = or_else (c key) fallback
    check (number_le (number v) (24 * 60 * 60 * 1000))
        ("configuration assert: " ++ (key ++ " cannot exceed 24 hours"))
    accepted (set_key key v c)

  unfoldable pub apply_ops_config : Config → Checked Config
  unfolding apply_ops_interval
  apply_ops_config c = do
    c₁ ← apply_ops_interval "superviseIntervalSeconds" 60000 c
    c₂ ← apply_ops_interval "maintenanceIntervalSeconds" 86400000 c₁
    c₃ ← apply_ops_interval "monitorIntervalSeconds" 60000 c₂
    apply_ops_interval "queueCacheIntervalSeconds" 60000 c₃

  -- One interval of applyScheduleConfig: in a range if given, the default if falsy.
  unfoldable pub apply_schedule_interval : String → ℕ → ℕ → String → Config → Checked Config
  apply_schedule_interval key most fallback range c = do
    check (optional (λ v. number_ge (number v) 1000 && number_le (number v) most) (c key))
        ("configuration assert: " ++ (key ++ range))
    accepted (set_key key (or_else (c key) fallback) c)

  unfoldable pub apply_schedule_config : Config → Checked Config
  unfolding apply_schedule_interval
  apply_schedule_config c = do
    c₁ ←
        apply_schedule_interval "clockMonitorIntervalSeconds" 600000 600000
          " must be between 1 second and 10 minutes" c
    c₂ ←
        apply_schedule_interval "cronMonitorIntervalSeconds" 45000 30000
          " must be between 1 and 45 seconds" c₁
    apply_schedule_interval "cronWorkerIntervalSeconds" 45000 5000
        " must be between 1 and 45 seconds" c₂

  unfoldable pub apply_flow_config : Config → Checked Config
  apply_flow_config c = do
    let least = if is_truthy (c "__test__bypass_flow_interval_check") then 500 else 1000
    check (optional (λ v. number_ge (number v) least) (c "flowIntervalSeconds")) (
        if is_truthy (c "__test__bypass_flow_interval_check")
        then "configuration assert: flowIntervalSeconds must be at least 0.5 seconds"
        else "configuration assert: flowIntervalSeconds must be at least 1 seconds")
    accepted (set_key "flowIntervalSeconds" (or_else (c "flowIntervalSeconds") 5000) c)
