-- ===== src/Jobs/Store/Scope.antt =====
-- What a requester may read of the jobs: `GetForRequester`.
use sumweave.Base.{
  ◌≡◌, refl, sym, ◌∙◌, inl, inr, true, false, Option, none, some, arith, Option-cases,
}
use sumweave.Base.Text.{str_eq_iff, is_empty, trim_space}
use sumweave.Jobs.Types.{Job, GetParams, in_list, validate_read_scope}
use sumweave.Jobs.Table.{JobModel, Table, find_where, find_where_holds}
use sumweave.Jobs.Store.{Fault, ok, job_from_model, found, visible, get_for_requester}

found_ok :
    (row : Option JobModel) (job : Job)
    → found row ≡ ok job
    → (m : JobModel) × (row ≡ some m) × (job ≡ job_from_model m)
unfolding found
found_ok none job e = cc
found_ok (some m) job e = (m, refl, ground arith)

visible_fields :
    (params : GetParams) (m : JobModel)
    → visible params m ≡ true
    → (m.id ≡ trim_space params.job_id)
      × (m.requester_user_id ≡ trim_space params.requester_user_id)
      × (in_list m.requester_source params.allowed_sources ≡ true)
visible_fields params m h = ground (
  arith,
  str_eq_iff m.id (trim_space params.job_id),
  str_eq_iff m.requester_user_id (trim_space params.requester_user_id),
)

named_user :
    (params : GetParams)
    → validate_read_scope params.requester_user_id params.allowed_sources ≡ none
    → is_empty (trim_space params.requester_user_id) ≡ false
unfolding validate_read_scope
named_user params h = ground arith

get_for_requester-found :
    (params : GetParams) (t : Table)
    → validate_read_scope params.requester_user_id params.allowed_sources ≡ none
    → get_for_requester none params t ≡ found (find_where (visible params) t)
unfolding get_for_requester
get_for_requester-found params t passes = simp (get_for_requester, passes)

-- A requester reads a job only under a user that is named, and only a row with the identifier asked
-- for that belongs to this user and comes from one of the sources allowed to the caller.
pub get_for_requester_scoped :
    (fault : Fault) (params : GetParams) (t : Table) (job : Job)
    → get_for_requester fault params t ≡ ok job
    → (is_empty (trim_space params.requester_user_id) ≡ false)
      × (m : JobModel) × (job ≡ job_from_model m)
      × (m.id ≡ trim_space params.job_id)
      × (m.requester_user_id ≡ trim_space params.requester_user_id)
      × (in_list m.requester_source params.allowed_sources ≡ true)
unfolding get_for_requester
get_for_requester_scoped (some e) params t job h =
    elim (Option-cases (validate_read_scope params.requester_user_id params.allowed_sources)) [
      | inl passes ↦ cc
      | inr (why, refused) ↦ cc
    ]
get_for_requester_scoped none params t job h =
    elim (Option-cases (validate_read_scope params.requester_user_id params.allowed_sources)) [
      | inl passes ↦
          let (m, there, same) =
            found_ok (find_where (visible params) t) job
              (sym (get_for_requester-found params t passes) ∙ h) in
          let (i, u, s) = visible_fields params m (find_where_holds (visible params) t m there) in
          (named_user params passes, m, same, i, u, s)
      | inr (why, refused) ↦ cc
    ]
