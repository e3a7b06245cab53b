-- ===== src/Calendar/Days/Leap.antt =====
-- The length of the months of the Gregorian calendar, and the days from the first of March on.
use shyft.Prelude.{ℕ, ◌%◌, Bool, ◌&&◌, ◌||◌, not}
use shyft.Prelude.Tests.{◌==◌, if◌then◌else◌}

unfoldable pub is_leap : ℕ → Bool
is_leap y = y % 4 == 0 && (not (y % 100 == 0) || y % 400 == 0)

unfoldable pub days_in_month : ℕ → ℕ → ℕ
unfolding is_leap
days_in_month y m =
    if m == 2
    then (if is_leap y then 29 else 28)
    else if m == 4 || m == 6 || m == 9 || m == 11
    then 30
    else 31
