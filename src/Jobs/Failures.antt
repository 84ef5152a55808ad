-- ===== src/Jobs/Failures.antt =====
-- How an execution's error becomes the error of a job: `jobErrorFromExecution` and
-- `jobErrorFromBusinessFailure` of apps/sumweave/internal/jobs/types.go.
use sumweave.Base.{ℕ, ◌+◌, Bool, true, false, [], ◌∷◌, ◌&&◌, ◌||◌, ◌==◌, leb, if◌then◌else◌}
use sumweave.Base.Text.{Str, bytes, is_empty, trim_space}
use sumweave.Jobs.Types.{
  JobError, truncate_bounded, max_error_code_length, max_error_summary_length,
  max_error_details_length,
}

-- `strings.ToLower`, as far as it bears on ASCII patterns: the ASCII letters, and U+0130, whose lower
-- case is `i`. The Kelvin sign becomes `k`, which no pattern of this file has.
abbrev lower_byte : ℕ → ℕ
lower_byte b = if leb b'A' b && leb b b'Z' then b + 32 else b

unfoldable pub to_lower : Str → Str
to_lower [] = []
to_lower (a ∷ []) = lower_byte a ∷ []
to_lower (a ∷ b ∷ s) =
    let rest = to_lower (b ∷ s) in
    let after = b'i' ∷ to_lower s in if a == 0xC4 && b == 0xB0 then after else lower_byte a ∷ rest

unfoldable pub has_prefix : Str → Str → Bool
has_prefix s [] = true
has_prefix [] (p ∷ ps) = false
has_prefix (a ∷ s) (p ∷ ps) = a == p && has_prefix s ps

unfoldable pub contains : Str → Str → Bool
unfolding has_prefix
contains [] p = has_prefix [] p
contains (a ∷ s) p = has_prefix (a ∷ s) p || contains s p

unfoldable pub mentions_sql : Str → Bool
unfolding contains to_lower
mentions_sql message =
    let lower = to_lower message in
    contains lower (bytes "gorm")
    || contains lower (bytes "sql")
    || contains lower (bytes "select ")
    || contains lower (bytes "insert ")
    || contains lower (bytes "update ")
    || contains lower (bytes "delete ")

abbrev pub execution_failed : Str
execution_failed = bytes "job execution failed"

-- The argument is the text of an error that is not nil.
unfoldable pub job_error_from_execution : Str → JobError
unfolding mentions_sql
job_error_from_execution error =
    let message = trim_space error in
    let details = if mentions_sql message then execution_failed else message in
    record {
      code = bytes "job_execution_failed";
      summary = truncate_bounded execution_failed max_error_summary_length;
      details = truncate_bounded details max_error_details_length;
    }

-- `appdispatch.BusinessFailureError`, with the text of its `Error` method.
pub record BusinessFailure : Type 0 where
  pub code : Str
  pub summary : Str
  pub details : Str
  pub error : Str

override : Str → ℕ → Str → Str
override given max_len default = if is_empty given then default else truncate_bounded given max_len

unfoldable pub job_error_from_business_failure : BusinessFailure → JobError
unfolding job_error_from_execution override
job_error_from_business_failure failure =
    let plain = job_error_from_execution failure.error in
    record {
      code = override failure.code max_error_code_length plain.code;
      summary = override failure.summary max_error_summary_length plain.summary;
      details = override failure.details max_error_details_length plain.details;
    }
