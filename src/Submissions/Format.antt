-- ===== src/Submissions/Format.antt =====
-- frontend/src/components/submission-detail.tsx: how the numbers of a submission are shown. The pages
-- that list submissions have functions with the same text.
use jjudge.Prelude.{
  ℕ, suc, ◌+◌, ◌*◌, ◌/◌, ◌%◌, ◌≤◌, ◌<◌, ◌++◌, Option, none, some, or_else, Text, lit, to_string,
  to_upper_case, pad_start, arith,
}
use jjudge.Submissions.{Submission}

unfoldable pub format_cpu_time : Option ℕ → Text
format_cpu_time none = lit "—"
format_cpu_time (some ms) = to_string ms ++ lit " ms"

-- `(value / (1024 * 1024)).toFixed(2)` in hundredths: the division is exact in floating point, and of
-- two hundredths that are as near, `toFixed` takes the larger.
unfoldable pub hundredths : ℕ → ℕ
hundredths bytes = (bytes * 100 + 524_288) / 1_048_576

unfoldable pub to_fixed : ℕ → Text
to_fixed n = to_string (n / 100) ++ (lit "." ++ pad_start (to_string (n % 100)) 2 b'0')

unfoldable pub format_memory : Option ℕ → Text
unfolding hundredths to_fixed
format_memory none = lit "—"
format_memory (some bytes) = to_fixed (hundredths bytes) ++ lit " MB"

unfoldable pub format_tests : Option ℕ → Option ℕ → Text
format_tests (some passed) (some total) = to_string passed ++ (lit "/" ++ to_string total)
format_tests _ _ = lit "—"

-- `username ?? (user_id ? ... : "—")`: the id 0 counts as missing.
unfoldable pub user_number : Option ℕ → Text
user_number (some (suc i)) = lit "User #" ++ to_string (suc i)
user_number _ = lit "—"

unfoldable pub user_label : Submission → Text
unfolding user_number
user_label x = or_else x.username (user_number x.user_id)

-- `score ?? "—"`, `language?.toUpperCase() ?? "—"` and `verdict?.toUpperCase() ?? "PENDING"`
unfoldable pub score_label : Option ℕ → Text
score_label none = lit "—"
score_label (some n) = to_string n

unfoldable pub language_label : Option Text → Text
language_label none = lit "—"
language_label (some l) = to_upper_case l

unfoldable pub verdict_label : Option Text → Text
verdict_label none = lit "PENDING"
verdict_label (some v) = to_upper_case v

-- The memory that is shown is the one that was used, to the nearest hundredth of 2^20 bytes.
pub hundredths-nearest :
    (bytes : ℕ)
    → (hundredths bytes * 1_048_576 ≤ bytes * 100 + 524_288)
      × (bytes * 100 < hundredths bytes * 1_048_576 + 524_288)
unfolding hundredths
hundredths-nearest bytes = (omega arith, omega arith)
