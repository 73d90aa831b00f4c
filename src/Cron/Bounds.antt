-- ===== src/Cron/Bounds.antt =====
-- The bounds of the schedules that are accepted: src/utils/cron/isValidCron.ts.
use thirdweb_engine.Base.{◌≡◌, ℕ, ◌≤◌, false, String, Option, none, some, List, [], ◌∷◌, str_eq}
use thirdweb_engine.Base.Int.{ℤ, pos}
use thirdweb_engine.Cron.{interval}

-- A step that is a number lies within bounds.
abbrev pub IsWithin : ℕ → ℕ → Option ℤ → Type 0
IsWithin min max none = Unit
IsWithin min max (some n) = (m : ℕ) × (n ≡ pos m) × (min ≤ m) × (m ≤ max)

-- What the fields of a schedule that is accepted are.
abbrev pub AreFields : List String → Type 0
AreFields (seconds ∷ minutes ∷ hours ∷ day_of_month ∷ month ∷ day_of_week ∷ []) =
    (IsWithin 10 59 (interval seconds) × (str_eq seconds "*" ≡ false))
    × (IsWithin 0 59 (interval minutes)
        × (IsWithin 0 23 (interval hours)
            × (IsWithin 1 31 (interval day_of_month)
                × (IsWithin 1 12 (interval month) × IsWithin 0 7 (interval day_of_week)))))
AreFields _ = ⊥
