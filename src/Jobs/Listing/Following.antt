-- ===== src/Jobs/Listing/Following.antt =====
-- The page that `Store.List` returns for the cursor of another.
use sumweave.Base.{
  ℕ, ◌+◌, ◌≡◌, refl, sym, ap, ◌∙◌, subst, inl, inr, Bool, true, false, Option, none, some, List, [],
  ◌∷◌, ◌++◌, map, ◌&&◌, ◌==◌, if◌then◌else◌, arith, All, All-take, keep, take, length, sort_by,
  Bool-cases, Option-cases,
}
use mathlib.Core.List.{map-append}
use sumweave.Base.Text.{Str, is_empty, trim_space}
use sumweave.Base.Int.{pos_part}
use sumweave.Base.Sorting.{drop, last_of, All-last_of, All-kept, sort_by-All, take-drop}
use sumweave.Jobs.Types.{
  Time, ListParams, ScopeError, validate_read_scope, normalize_list_params,
  intersect_requester_sources,
}
use sumweave.Jobs.Table.{JobModel, Table, HasUniqueIds}
use sumweave.Jobs.Store.{job_from_model}
use sumweave.Jobs.Listing.{
  CursorLibraries, Decoded, decoded, not_base64, invalid_cursor, invalid_cursor_timestamp, is_past,
  newest_first, encode_cursor, decode_cursor, is_selected, ListResult, Listed, page, scope_refused,
  cursor_of, result_of, find_page, find_past, list_from, list_jobs,
}
use sumweave.Jobs.Listing.Cursors.{ReadsBack, decode_cursor-encode_cursor}
use sumweave.Jobs.Listing.Pages.{rows_past, past_on, keep-cong}

-- What the cursor lets through.
abbrev past_decoded : Decoded → JobModel → Bool
past_decoded (decoded at id) m = is_past at id m
past_decoded refused m = false

abbrev admits : CursorLibraries → Str → JobModel → Bool
admits libs cursor m = if is_empty cursor then true else past_decoded (decode_cursor libs cursor) m

-- The rows of the list from the cursor on, however many.
abbrev pub remaining : CursorLibraries → ListParams → List Str → Table → List JobModel
remaining libs params sources t =
    sort_by newest_first (keep (λ m. is_selected params sources m && admits libs params.cursor m) t)

-- A row whose cursor is read back.
abbrev pub IsAddressable : CursorLibraries → JobModel → Type 0
IsAddressable libs m = ReadsBack libs m.created_at m.id × (is_empty (trim_space m.id) ≡ false)

abbrev next_of : Listed → Str
next_of (page r) = r.next_cursor
next_of other = []

abbrev result_in : ListResult → Listed → ListResult
result_in r (page q) = q
result_in r other = r

past_decoded_on :
    (d : Decoded) (a b : JobModel)
    → past_decoded d a ≡ true
    → newest_first a b ≡ true
    → past_decoded d b ≡ true
past_decoded_on (decoded at id) a b h k = past_on at id a b h k
past_decoded_on not_base64 a b h k = h
past_decoded_on invalid_cursor a b h k = h
past_decoded_on invalid_cursor_timestamp a b h k = h

admits_on :
    (libs : CursorLibraries) (cursor : Str) (a b : JobModel)
    → admits libs cursor a ≡ true
    → newest_first a b ≡ true
    → admits libs cursor b ≡ true
admits_on libs [] a b h k = refl
admits_on libs (c ∷ cursor) a b h k = past_decoded_on (decode_cursor libs (c ∷ cursor)) a b h k

module _ (libs : CursorLibraries) (t : Table) where
  find_past-page :
      (n : ℕ) (p : JobModel → Bool) (d : Decoded)
      → is_empty (next_of (find_past libs none n p t d)) ≡ false
      → find_past libs none n p t d
        ≡ page (
            result_of libs n
              (take n (sort_by newest_first (keep (λ m. p m && past_decoded d m) t))))
  find_past-page n p (decoded at id) h = refl
  find_past-page n p not_base64 h = cc
  find_past-page n p invalid_cursor h = cc
  find_past-page n p invalid_cursor_timestamp h = cc

  -- A page that has a next one is the first of the rows from its cursor on.
  list_from-page :
      (params : ListParams) (s : Str) (sources : List Str)
      → is_empty (next_of (list_from libs none params (s ∷ sources) t)) ≡ false
      → list_from libs none params (s ∷ sources) t
        ≡ page (
            result_of libs
              (pos_part params.limit)
              (take (pos_part params.limit) (remaining libs params (s ∷ sources) t)))
  list_from-page params s sources h =
      let n = pos_part params.limit in
      let p : (JobModel → Bool) = is_selected params (s ∷ sources) in
      let d = decode_cursor libs params.cursor in
      elim (Bool-cases (is_empty params.cursor)) [
        | inl first ↦ rw first (
            ap (λ rows. page (result_of libs n (take n (sort_by newest_first rows))))
              (keep-cong p (λ m. p m && true) t (λ m. ground arith)))
        | inr later ↦
            let here : list_from libs none params (s ∷ sources) t ≡ find_past libs none n p t d =
              rw later refl in
            here
            ∙ find_past-page n p d (subst (λ x. is_empty (next_of x) ≡ false) here h)
            ∙ rw later refl
      ]

  list_from_past :
      (params : ListParams) (s : Str) (sources : List Str) (at : Time) (id : Str)
      → is_empty params.cursor ≡ false
      → decode_cursor libs params.cursor ≡ decoded at id
      → list_from libs none params (s ∷ sources) t
        ≡ find_page libs none
            (pos_part params.limit)
            (λ m. is_selected params (s ∷ sources) m && is_past at id m)
            t
  list_from_past params s sources at id later read = rw (later, read) refl

  -- The last row of a page that has a next one, and the cursor.
  last_row :
      (full : Bool) (last : Option JobModel)
      → is_empty (if full then cursor_of libs last else []) ≡ false
      → (l : JobModel) × (last ≡ some l)
        × ((if full then cursor_of libs last else []) ≡ encode_cursor libs l.created_at l.id)
  last_row true none h = cc
  last_row true (some l) h = (l, refl, refl)
  last_row false last h = cc

  -- The page for the cursor of a page, and both together.
  abbrev IsFollowed : ListParams → List Str → ListResult → Type 0
  IsFollowed params sources p =
      (q : ListResult) × (list_from libs none (record params { cursor = p.next_cursor }) sources t
        ≡ page q)
      × (p.items ++ q.items
          ≡ map job_from_model (
              take (pos_part params.limit + pos_part params.limit)
                (remaining libs params sources t)))

  addressable :
      (n : ℕ) (p : JobModel → Bool) (l : JobModel)
      → All (IsAddressable libs) t
      → last_of (take n (sort_by newest_first (keep p t))) ≡ some l
      → IsAddressable libs l
  addressable n p l all e =
      All-last_of (IsAddressable libs) (take n (sort_by newest_first (keep p t))) l
        (All-take (IsAddressable libs) n (sort_by newest_first (keep p t)) (
          sort_by-All (IsAddressable libs) newest_first (keep p t)
            (All-kept (IsAddressable libs) p t all)))
        e

  result_of-IsFollowed :
      (params : ListParams) (s : Str) (sources : List Str)
      → HasUniqueIds t
      → All (IsAddressable libs) t
      → is_empty
          (result_of libs
            (pos_part params.limit)
            (take (pos_part params.limit) (remaining libs params (s ∷ sources) t))).next_cursor
        ≡ false
      → IsFollowed params (s ∷ sources) (
          result_of libs
            (pos_part params.limit)
            (take (pos_part params.limit) (remaining libs params (s ∷ sources) t)))
  result_of-IsFollowed params s sources u all h =
      let n = pos_part params.limit in
      let p : (JobModel → Bool) = is_selected params (s ∷ sources) in
      let c : (JobModel → Bool) = admits libs params.cursor in
      let rows = take n (remaining libs params (s ∷ sources) t) in
      let (l, e, at_l) = last_row (length rows == n) (last_of rows) h in
      let (reads, named) = addressable n (λ m. p m && c m) l all e in
      let next = record params { cursor = (result_of libs n rows).next_cursor } in
      let read : decode_cursor libs next.cursor ≡ decoded l.created_at l.id =
        ap (decode_cursor libs) at_l
        ∙ decode_cursor-encode_cursor libs l.created_at l.id reads named in
      (
        result_of libs n (take n (drop n (remaining libs params (s ∷ sources) t))),
        list_from_past next s sources l.created_at l.id h read
            ∙ ap (λ ms. page (result_of libs n (take n ms)))
                (rows_past p c n t l u (admits_on libs params.cursor) e),
        sym (
              map-append job_from_model rows
                (take n (drop n (remaining libs params (s ∷ sources) t))))
            ∙ ap (map job_from_model) (take-drop n n (remaining libs params (s ∷ sources) t)),
      )

  list_from-IsFollowed :
      (params : ListParams) (sources : List Str) (p : ListResult)
      → HasUniqueIds t
      → All (IsAddressable libs) t
      → list_from libs none params sources t ≡ page p
      → is_empty p.next_cursor ≡ false
      → IsFollowed params sources p
  list_from-IsFollowed params [] p u all e h =
      let none_left : [] ≡ p.next_cursor = ap next_of e in cc
  list_from-IsFollowed params (s ∷ sources) p u all e h =
      let n = pos_part params.limit in
      let rows = take n (remaining libs params (s ∷ sources) t) in
      let nonempty = subst (λ x. is_empty (next_of x) ≡ false) (sym e) h in
      let same : result_of libs n rows ≡ p =
        ap (result_in p) (sym (list_from-page params s sources nonempty) ∙ e) in
      subst (IsFollowed params (s ∷ sources)) same (
        result_of-IsFollowed params s sources u all
          (subst (λ r. is_empty r.next_cursor ≡ false) (sym same) h))

list_jobs-list_from :
    (libs : CursorLibraries) (params : ListParams) (t : Table)
    → validate_read_scope params.requester_user_id params.allowed_sources ≡ none
    → list_jobs libs none params t
      ≡ list_from libs none
          (normalize_list_params params)
          (intersect_requester_sources params.allowed_sources params.sources)
          t
unfolding list_jobs
list_jobs-list_from libs params t passes = rw (list_jobs, passes) refl

list_jobs_refused :
    (libs : CursorLibraries) (params : ListParams) (t : Table) (why : ScopeError)
    → validate_read_scope params.requester_user_id params.allowed_sources ≡ some why
    → list_jobs libs none params t ≡ scope_refused why
unfolding list_jobs
list_jobs_refused libs params t why refused = rw (list_jobs, refused) refl

-- Where a table has unique identifiers and each cursor of its rows is read back as it was written, the list
-- for the next cursor of a page is a page too. Both together are the jobs that the request selects, newest
-- first, as many as two pages hold, from the page's own cursor on, so that none is left out or repeated.
pub list_jobs_follows :
    (libs : CursorLibraries) (params : ListParams) (t : Table) (p : ListResult)
    → HasUniqueIds t
    → All (IsAddressable libs) t
    → list_jobs libs none params t ≡ page p
    → is_empty p.next_cursor ≡ false
    → let limit = pos_part (normalize_list_params params).limit in
      (q : ListResult) × (list_jobs libs none (record params { cursor = p.next_cursor }) t ≡ page q)
      × (p.items ++ q.items
          ≡ map job_from_model (
              take (limit + limit) (
                remaining libs params
                  (intersect_requester_sources params.allowed_sources params.sources)
                  t)))
unfolding normalize_list_params
list_jobs_follows libs params t p u all e h =
    let sources = intersect_requester_sources params.allowed_sources params.sources in
    elim (Option-cases (validate_read_scope params.requester_user_id params.allowed_sources)) [
      | inl passes ↦
          let (q, there, together) =
            list_from-IsFollowed libs t (normalize_list_params params) sources p u all
              (sym (list_jobs-list_from libs params t passes) ∙ e) h in
          (
            q,
            list_jobs-list_from libs (record params { cursor = p.next_cursor }) t passes ∙ there,
            together,
          )
      | inr (why, refused) ↦
          let none_left : scope_refused why ≡ page p =
            sym (list_jobs_refused libs params t why refused) ∙ e in
          cc
    ]
