-- ===== src/Tests/Arguing.antt =====
-- The results on arguments and configurations.
use bun_boss.Base.{ℕ, ◌≡◌, refl, String, false, Option, none, List, [], ◌∷◌, str_eq}
use bun_boss.Job.{ℤ, pos}
use bun_boss.Attorney.{Value, undefined, num, str, obj, Config, accepted, set_key, is_in}
use bun_boss.Attorney.Options.{
  validate_retry_config, validate_expiration_config, validate_retention_config,
  validate_group_config, validate_heartbeat_config,
}
use bun_boss.Arguments.{Request, no_keys, read_args, spread, check_update_args}
use bun_boss.Arguments.Accepts.{IsTargeted, check_update_args-IsTargeted}
use bun_boss.Arguments.Backend.{
  test_hooks, with_profile, sqlite, set_isolation, resolve_table_isolation, resolve_backend,
}
use bun_boss.Arguments.Backend.Isolation.{PrefixFits, SqliteFits, resolve_backend-Fits}

abbrev no_number : String → Option ℤ
no_number s = none

abbrev zero_text : Value → String
zero_text v = "0"

abbrev no_date : Value → Option String
no_date v = none

abbrev no_units : String → List ℕ
no_units s = []

abbrev no_entries : Config → List (String × Value)
no_entries c = []

-- update("mail", undefined, { id: "1", startAfter: 0 })
abbrev update_options : Config
update_options = set_key "id" (str "1") (set_key "startAfter" (num (pos 0)) no_keys)

abbrev update_args : List Value
update_args = str "mail" ∷ undefined ∷ obj update_options ∷ []

abbrev update_request : Request
update_request = record {
  name = str "mail";
  payload = undefined;
  options = set_key "startAfter" (str "0") update_options;
}

check_update_args-IsTargeted_example :
    IsTargeted update_request
    × ((given : Value) × ((read_args "update" update_args
            ≡ accepted (update_request.name, (update_request.payload, given)))
          × ((key : String)
              → (is_in (update_request.options key) ≡ is_in (spread given key))
                × (str_eq key "startAfter" ≡ false
                    → update_request.options key ≡ spread given key))))
unfolding check_update_args validate_retry_config validate_expiration_config
    validate_retention_config validate_group_config validate_heartbeat_config
check_update_args-IsTargeted_example =
    check_update_args-IsTargeted no_number zero_text no_date no_units no_entries update_args
      update_request refl

-- { backend: "sqlite", db: {} }
abbrev sqlite_config : Config
sqlite_config = set_key "db" (obj no_keys) (set_key "backend" (str "sqlite") no_keys)

abbrev sqlite_resolved : Config
sqlite_resolved = test_hooks (set_isolation "prefix" (with_profile sqlite sqlite_config))

resolve_backend-Fits_example : PrefixFits sqlite_resolved × SqliteFits sqlite_resolved
unfolding resolve_backend resolve_table_isolation
resolve_backend-Fits_example = resolve_backend-Fits sqlite_config sqlite_resolved refl
