-- ===== src/Jobs/Listing.antt =====
-- `Store.List` of apps/sumweave/internal/jobs/store.go with its cursor. Base64 and the printing of times are
-- functions of libraries; texts are compared by their bytes.

pub mod Cursors
pub mod Pages
pub mod Following
use sumweave.Base.{
  ℕ, Bool, true, false, Option, none, some, List, [], ◌∷◌, ◌++◌, map, ◌&&◌, ◌||◌, ◌==◌, ltb,
  if◌then◌else◌, keep, take, length, sort_by,
}
use sumweave.Base.Text.{Str, is_empty, trim_space, str_eq, str_lt}
use sumweave.Base.Int.{pos_part}
use sumweave.Base.Sorting.{last_of}
use sumweave.Jobs.Types.{
  Time, Job, JobStatus, ListParams, ScopeError, in_list, validate_read_scope, normalize_list_params,
  intersect_requester_sources,
}
use sumweave.Jobs.Table.{JobModel, Table, status_eq}
use sumweave.Jobs.Store.{Fault, job_from_model}

-- `base64.RawURLEncoding` and the layout `time.RFC3339Nano`.
pub record CursorLibraries : Type 0 where
  pub encode_to_string : Str → Str
  pub decode_string : Str → Option Str
  pub format : Time → Str
  pub parse : Str → Option Time

pub data Decoded : Type 0 where
  decoded : Time → Str → Decoded
  not_base64 invalid_cursor invalid_cursor_timestamp : Decoded

unfoldable pub encode_cursor : CursorLibraries → Time → Str → Str
encode_cursor libs created_at id = libs.encode_to_string (libs.format created_at ++ b'|' ∷ id)

abbrev pub behind : ℕ → Option (Str × Str) → Option (Str × Str)
behind c none = none
behind c (some (s, t)) = some (c ∷ s, t)

-- `strings.SplitN(s, "|", 2)`, where it has two parts.
unfoldable pub split_bar : Str → Option (Str × Str)
split_bar [] = none
split_bar (c ∷ s) = let rest = split_bar s in if c == b'|' then some ([], s) else behind c rest

abbrev pub parsed_at : Str → Option Time → Decoded
parsed_at id none = invalid_cursor_timestamp
parsed_at id (some created_at) = decoded created_at id

abbrev pub decode_parts : CursorLibraries → Option (Str × Str) → Decoded
decode_parts libs none = invalid_cursor
decode_parts libs (some (at, id)) =
    if is_empty (trim_space id) then invalid_cursor else parsed_at id (libs.parse at)

abbrev pub decode_raw : CursorLibraries → Option Str → Decoded
decode_raw libs none = not_base64
decode_raw libs (some raw) = decode_parts libs (split_bar raw)

unfoldable pub decode_cursor : CursorLibraries → Str → Decoded
unfolding split_bar
decode_cursor libs cursor = decode_raw libs (libs.decode_string (trim_space cursor))

-- `created_at < ? OR (created_at = ? AND id < ?)`
abbrev pub is_past : Time → Str → JobModel → Bool
is_past at id m = ltb m.created_at at || (m.created_at == at && str_lt m.id id)

-- `ORDER BY created_at DESC, id DESC`
abbrev pub newest_first : JobModel → JobModel → Bool
newest_first a b = is_past a.created_at a.id b

abbrev pub has_none {ℓ} : {A : Type ℓ} → List A → Bool
has_none [] = true
has_none (x ∷ xs) = false

abbrev pub has_status : List JobStatus → JobStatus → Bool
has_status [] s = false
has_status (r ∷ rs) s = let rest = has_status rs s in status_eq r s || rest

-- The conditions before that of the cursor.
abbrev pub is_selected : ListParams → List Str → JobModel → Bool
is_selected params sources m =
    str_eq m.requester_user_id (trim_space params.requester_user_id)
    && in_list m.requester_source sources
    && (has_none params.statuses || has_status params.statuses m.status)
    && (has_none params.job_types || in_list m.job_type params.job_types)

pub record ListResult : Type 0 where
  pub items : List Job
  pub next_cursor : Str

pub data Listed : Type 0 where
  page : ListResult → Listed
  scope_refused : ScopeError → Listed
  cursor_refused : Decoded → Listed
  list_failed : Str → Listed

abbrev pub cursor_of : CursorLibraries → Option JobModel → Str
cursor_of libs none = []
cursor_of libs (some m) = encode_cursor libs m.created_at m.id

-- The result, of the rows that the query found.
abbrev pub result_of : CursorLibraries → ℕ → List JobModel → ListResult
result_of libs limit models = record {
  items = map job_from_model models;
  next_cursor = if length models == limit then cursor_of libs (last_of models) else [];
}

abbrev pub find_page : CursorLibraries → Fault → ℕ → (JobModel → Bool) → Table → Listed
find_page libs (some e) limit p t = list_failed e
find_page libs none limit p t =
    page (result_of libs limit (take limit (sort_by newest_first (keep p t))))

abbrev pub find_past : CursorLibraries → Fault → ℕ → (JobModel → Bool) → Table → Decoded → Listed
find_past libs fault limit p t (decoded at id) =
    find_page libs fault limit (λ m. p m && is_past at id m) t
find_past libs fault limit p t refused = cursor_refused refused

abbrev pub list_from : CursorLibraries → Fault → ListParams → List Str → Table → Listed
list_from libs fault params [] t = page (record { items = []; next_cursor = [] })
list_from libs fault params (s ∷ sources) t =
    if is_empty params.cursor
    then find_page libs fault (pos_part params.limit) (is_selected params (s ∷ sources)) t
    else find_past libs fault (pos_part params.limit) (is_selected params (s ∷ sources)) t
        (decode_cursor libs params.cursor)

unfoldable pub list_jobs : CursorLibraries → Fault → ListParams → Table → Listed
unfolding encode_cursor decode_cursor sort_by str_lt
list_jobs libs fault params t =
    elim (validate_read_scope params.requester_user_id params.allowed_sources) [
      | some e ↦ scope_refused e
      | none ↦
          list_from libs fault (normalize_list_params params)
            (intersect_requester_sources params.allowed_sources params.sources) t
    ]
