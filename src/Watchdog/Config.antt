-- ===== src/Watchdog/Config.antt =====
-- patroni/watchdog/base.py: the modes, and the class `WatchdogConfig`. Seconds are whole numbers; the
-- safety margin may be negative.
use pennsignals_postgres.Base.{
  ℕ, ◌/◌, String, Bool, true, false, ◌&&◌, ◌||◌, Option, none, some, List, ◌==◌, eqb, if◌then◌else◌,
}
use pennsignals_postgres.Base.Int.{ℤ, pos, negsuc, ◌-ℤ◌, ltb_ℤ}
use pennsignals_postgres.Json.{
  Value, str, bool, num, Fields, end, field, get, has_key, lower, codes, same_codes, same_fields,
  same_num,
}

pub data Mode : Type 0 where
  required : Mode
  automatic : Mode
  off : Mode

abbrev pub is_off : Mode → Bool
is_off off = true
is_off _ = false

abbrev pub is_required : Mode → Bool
is_required required = true
is_required _ = false

abbrev same_mode : Mode → Mode → Bool
same_mode required b = is_required b
same_mode automatic automatic = true
same_mode automatic _ = false
same_mode off b = is_off b

abbrev mode_of_text : List ℕ → Mode
mode_of_text mode =
    if same_codes mode (codes "require") || same_codes mode (codes "required")
    then required
    else if same_codes mode (codes "auto") || same_codes mode (codes "automatic")
    then automatic
    else off

-- `none` is the `AttributeError` for a value that has no `lower`.
unfoldable pub parse_mode : Value → Option Mode
parse_mode (bool false) = some off
parse_mode (str mode) = some (mode_of_text (lower (codes mode)))
parse_mode _ = none

pub record WatchdogConfig : Type 0 where
  pub mode : Mode
  pub ttl : ℕ
  pub loop_wait : ℕ
  pub safety_margin : ℤ
  pub driver : String
  pub driver_config : Fields

abbrev get_or : String → Value → Fields → Value
get_or key default d = if has_key key d then get key d else default

abbrev is_own_key : String → Bool
is_own_key k = k == "mode" || (k == "safety_margin" || k == "driver")

abbrev keys_of_driver : Fields → Fields
keys_of_driver end = end
keys_of_driver (field k v d) =
    let rest = keys_of_driver d in if is_own_key k then rest else field k v rest

abbrev config_with : Option Mode → ℕ → ℕ → Value → Value → Fields → Option WatchdogConfig
config_with (some m) t l (num margin) (str name) d = some (record {
  mode = m;
  ttl = t;
  loop_wait = l;
  safety_margin = margin;
  driver = name;
  driver_config = keys_of_driver d;
})
config_with _ t l margin name d = none

-- The entry `watchdog` of the configuration, with `ttl` and `loop_wait`; `none` where a value has a
-- type that the configuration's validator refuses.
unfoldable pub watchdog_config : Fields → ℕ → ℕ → Option WatchdogConfig
unfolding parse_mode get has_key
watchdog_config d t l =
    config_with (parse_mode (get_or "mode" (str "automatic") d)) t l
      (get_or "safety_margin" (num (pos 5)) d) (get_or "driver" (str "default") d) d

abbrev pub same_driver : WatchdogConfig → WatchdogConfig → Bool
same_driver a b = a.driver == b.driver && same_fields a.driver_config b.driver_config

unfoldable pub same_config : WatchdogConfig → WatchdogConfig → Bool
same_config a b =
    same_mode a.mode b.mode
    && (eqb a.ttl b.ttl
        && (eqb a.loop_wait b.loop_wait
            && (same_num a.safety_margin b.safety_margin && same_driver a b)))

abbrev is_minus_one : ℤ → Bool
is_minus_one m = same_num m (negsuc 0)

-- The seconds after which the machine must be reset, so that nobody else can hold the key by then.
unfoldable pub timeout : WatchdogConfig → ℤ
timeout c = if is_minus_one c.safety_margin then pos (c.ttl / 2) else pos c.ttl -ℤ c.safety_margin

-- What is left of them when a cycle has taken its time.
unfoldable pub timing_slack : WatchdogConfig → ℤ
unfolding timeout
timing_slack c = timeout c -ℤ pos c.loop_wait

abbrev pub is_negative : ℤ → Bool
is_negative a = ltb_ℤ a (pos 0)
