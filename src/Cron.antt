-- ===== src/Cron.antt =====
-- The schedules that are accepted: src/utils/cron/isValidCron.ts.
pub mod Bounds
use thirdweb_engine.Base.{
  ℕ, Bool, true, false, ◌&&◌, ◌||◌, String, Option, none, some, List, [], ◌∷◌, ltb, str_eq,
  if◌then◌else◌,
}
use thirdweb_engine.Base.Int.{ℤ, pos, ltb_ℤ}
use thirdweb_engine.Base.Text.{is_interval, ◌+++◌}
use thirdweb_engine.Base.Decimal.{parse_signed, split, number_text}
use thirdweb_engine.Engine.{Result, ok, bad_request, then_ok}

-- `parseInt(field.split("/")[1])`. `none` stands for NaN.
abbrev pub step_of : List String → Option ℤ
step_of (_ ∷ s ∷ _) = parse_signed s
step_of _ = none

-- The step of a field that starts with `*/`, if that is a number.
unfoldable pub interval : String → Option ℤ
interval field = if is_interval field then step_of (split b'/' field) else none

-- `value < min || value > max`, which is false of NaN
abbrev pub is_outside : ℕ → ℕ → Option ℤ → Bool
is_outside min max none = false
is_outside min max (some n) = ltb_ℤ n (pos min) || ltb_ℤ (pos max) n

abbrev pub invalid {ℓ} : {A : Type ℓ} → String → Result A
invalid m = bad_request ("Invalid cron expression. " +++ m) "BAD_REQUEST"

-- `checkCronFieldInterval`
unfoldable pub check_cron_field_interval : String → ℕ → ℕ → String → Result (Unit {0})
check_cron_field_interval field min max name =
    if is_outside min max (interval field)
    then invalid (
        name
        +++ " must be between "
        +++ number_text min
        +++ " and "
        +++ number_text max
        +++ " when using an interval.")
    else ok tt

-- The check of the first field.
unfoldable pub check_seconds : String → Result (Unit {0})
check_seconds seconds =
    if is_outside 10 59 (interval seconds) || (str_eq seconds "*" || str_eq seconds "*/1")
    then invalid (seconds_message (is_interval seconds))
    else ok tt
  where
    seconds_message : Bool → String
    seconds_message true = "Seconds must be between 10 and 59 when using an interval."
    seconds_message false = "Cannot run every second of every minute of every hour."

-- The checks of the six fields.
unfoldable pub check_fields : List String → Result (Unit {0})
check_fields (seconds ∷ minutes ∷ hours ∷ day_of_month ∷ month ∷ day_of_week ∷ []) =
    then_ok (check_seconds seconds) (λ _.
      then_ok (check_cron_field_interval minutes 0 59 "Minutes") (λ _.
        then_ok (check_cron_field_interval hours 0 23 "Hours") (λ _.
          then_ok (check_cron_field_interval day_of_month 1 31 "Day of month") (λ _.
            then_ok (check_cron_field_interval month 1 12 "Month")
              (λ _. check_cron_field_interval day_of_week 0 7 "Day of week")))))
check_fields _ = invalid "Please check the cron expression."

-- `isValidCron`, with whether the package `cron-parser` takes a text
unfoldable pub is_valid_cron : (String → Bool) → String → Result Bool
is_valid_cron parses input =
    if parses input
    then then_ok (check_fields (split b' ' input)) (λ _. ok true)
    else invalid "Please check the cron expression."
