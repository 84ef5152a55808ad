-- ===== src/Jobs/Types.antt =====
-- The data of apps/sumweave/internal/jobs/types.go, and its pure helpers.
-- An instant is a number of microseconds, the resolution of the database, counted from Go's zero
-- time, so `IsZero` is a test for 0. A pointer to an instant is an `Option`.
pub mod Bounds
use sumweave.Base.{
  ℕ, ◌-◌, Bool, true, false, Option, none, some, List, [], ◌∷◌, ◌++◌, ◌||◌, leb, if◌then◌else◌,
  length, take,
}
use sumweave.Base.Text.{Str, str_eq, is_empty, trim_space}
use sumweave.Base.Int.{ℤ, pos, ltb_ℤ, leb_ℤ}

abbrev pub Time : Type 0
Time = ℕ

pub data JobStatus : Type 0 where
  queued running succeeded failed : JobStatus

pub record Requester : Type 0 where
  pub user_id : Str
  pub source : Str

pub record JobMetadata : Type 0 where
  pub job_type : Str
  pub requester : Requester
  pub schedule_id : Str
  pub scheduled_at : Option Time
  pub scheduled_next_run_at : Option Time

pub record JobError : Type 0 where
  pub code : Str
  pub summary : Str
  pub details : Str

pub record Job : Type 0 where
  pub id : Str
  pub job_type : Str
  pub status : JobStatus
  pub requester : Requester
  pub error : Option JobError
  pub created_at : Time
  pub updated_at : Time
  pub queued_at : Time
  pub started_at : Option Time
  pub completed_at : Option Time
  pub worker_id : Str
  pub attempt_count : ℕ
  pub last_attempt_at : Option Time
  pub schedule_id : Str
  pub scheduled_at : Option Time
  pub scheduled_next_run_at : Option Time

pub record ListParams : Type 0 where
  pub requester_user_id : Str
  pub allowed_sources : List Str
  pub statuses : List JobStatus
  pub job_types : List Str
  pub sources : List Str
  pub limit : ℤ
  pub cursor : Str

pub record GetParams : Type 0 where
  pub job_id : Str
  pub requester_user_id : Str
  pub allowed_sources : List Str

-- Durations are signed, in microseconds.
pub record WorkerConfig : Type 0 where
  pub poll_interval : ℤ
  pub max_attempts : ℤ
  pub stale_running_age : ℤ

abbrev pub default_list_limit : ℤ
default_list_limit = pos 25

abbrev pub max_list_limit : ℤ
max_list_limit = pos 100

abbrev pub default_worker_poll_interval : ℤ
default_worker_poll_interval = pos 2_000_000

abbrev pub default_worker_max_attempts : ℤ
default_worker_max_attempts = pos 3

abbrev pub default_worker_stale_running_age : ℤ
default_worker_stale_running_age = pos 1_800_000_000

abbrev pub max_error_summary_length : ℕ
max_error_summary_length = 240

abbrev pub max_error_details_length : ℕ
max_error_details_length = 1024

-- The size that the callers give for an error's code.
abbrev pub max_error_code_length : ℕ
max_error_code_length = 128

unfoldable pub normalize_worker_config : WorkerConfig → WorkerConfig
normalize_worker_config cfg = record {
  poll_interval =
      if leb_ℤ cfg.poll_interval (pos 0) then default_worker_poll_interval else cfg.poll_interval;
  max_attempts =
      if leb_ℤ cfg.max_attempts (pos 0) then default_worker_max_attempts else cfg.max_attempts;
  stale_running_age =
      if leb_ℤ cfg.stale_running_age (pos 0)
      then default_worker_stale_running_age
      else cfg.stale_running_age;
}

normalize_limit : ℤ → ℤ
normalize_limit limit =
    let positive = if leb_ℤ limit (pos 0) then default_list_limit else limit in
    if ltb_ℤ max_list_limit positive then max_list_limit else positive

unfoldable pub normalize_list_params : ListParams → ListParams
unfolding normalize_limit
normalize_list_params params = record params { limit = normalize_limit params.limit }

-- The two messages of `validateReadScope`.
pub data ScopeError : Type 0 where
  requester_required sources_required : ScopeError

abbrev pub no_sources : List Str → Bool
no_sources [] = true
no_sources (s ∷ rest) = false

unfoldable pub validate_read_scope : Str → List Str → Option ScopeError
validate_read_scope requester_user_id allowed_sources =
    if is_empty (trim_space requester_user_id)
    then some requester_required
    else if no_sources allowed_sources
    then some sources_required
    else none

-- The inner loop of `intersectRequesterSources`, and SQL's `IN`.
unfoldable pub in_list : Str → List Str → Bool
in_list source [] = false
in_list source (s ∷ rest) = str_eq source s || in_list source rest

intersect_from : List Str → List Str → List Str
intersect_from allowed [] = []
intersect_from allowed (s ∷ rest) =
    let others = intersect_from allowed rest in if in_list s allowed then s ∷ others else others

unfoldable pub intersect_requester_sources : List Str → List Str → List Str
unfolding intersect_from in_list
intersect_requester_sources allowed requested =
    if no_sources requested then allowed else intersect_from allowed requested

unfoldable pub canonicalize_requester : Requester → Requester
canonicalize_requester r = record { user_id = trim_space r.user_id; source = trim_space r.source }

-- "…" in UTF-8.
abbrev ellipsis : Str
ellipsis = 0xE2 ∷ 0x80 ∷ 0xA6 ∷ []

cut : Str → ℕ → Str
cut trimmed max_len =
    if leb (length trimmed) max_len
    then trimmed
    else if leb max_len 1
    then take max_len trimmed
    else if leb max_len (length ellipsis)
    then take max_len ellipsis
    else take (max_len - length ellipsis) trimmed ++ ellipsis

unfoldable pub truncate_bounded : Str → ℕ → Str
unfolding cut
truncate_bounded value max_len = cut (trim_space value) max_len
