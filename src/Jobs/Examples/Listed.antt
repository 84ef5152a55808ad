-- ===== src/Jobs/Examples/Listed.antt =====
-- The theorems on the list of jobs at a table of two.
use sumweave.Base.{
  zero, suc, ◌+◌, ◌≡◌, refl, false, Option, none, some, [], ◌∷◌, ◌++◌, map, take, All, sort_by,
}
use sumweave.Base.Text.{Str, bytes, is_empty, trim_space, str_eq, str_lt}
use sumweave.Base.Int.{pos, pos_part}
use sumweave.Jobs.Types.{
  ListParams, Time, intersect_requester_sources, normalize_list_params, validate_read_scope,
  in_list,
}
use sumweave.Jobs.Table.{JobModel, Table, HasUniqueIds, find_row}
use sumweave.Jobs.Store.{job_from_model}
use sumweave.Jobs.Listing.{
  CursorLibraries, ListResult, page, list_jobs, encode_cursor, decode_cursor,
}
use sumweave.Jobs.Listing.Following.{IsAddressable, remaining, list_jobs_follows}
use sumweave.Jobs.Examples.{queued_row}

-- A time is printed as that many letters.
abbrev letters : Time → Str
letters zero = []
letters (suc n) = b'x' ∷ letters n

abbrev letters_count : Str → Option Time
letters_count [] = some 0
letters_count (c ∷ s) = elim (letters_count s) [ none ↦ none | some n ↦ some (suc n) ]

abbrev unary : CursorLibraries
unary = record {
  encode_to_string = λ s. b'e' ∷ s;
  decode_string = λ s. elim s [ [] ↦ none | c ∷ rest ↦ some rest ];
  format = letters;
  parse = letters_count;
}

abbrev older : JobModel
older = record queued_row { id = bytes "a"; created_at = 1 }

abbrev newer : JobModel
newer = record queued_row { id = bytes "b"; created_at = 1 }

abbrev two_jobs : Table
two_jobs = older ∷ newer ∷ []

abbrev one_each : ListParams
one_each = record {
  requester_user_id = queued_row.requester_user_id;
  allowed_sources = queued_row.requester_source ∷ [];
  statuses = [];
  job_types = [];
  sources = [];
  limit = pos 1;
  cursor = [];
}

abbrev first_page : ListResult
first_page = record {
  items = job_from_model newer ∷ [];
  next_cursor = encode_cursor unary 1 (bytes "b");
}

two_jobs-HasUniqueIds : HasUniqueIds two_jobs
unfolding find_row str_eq
two_jobs-HasUniqueIds = (refl, (refl, tt))

two_jobs-AreAddressable : All (IsAddressable unary) two_jobs
unfolding trim_space
two_jobs-AreAddressable = (
  (record { decodes = refl; not_empty = refl; parses = refl; no_bar = (refl, tt) }, refl),
  ((record { decodes = refl; not_empty = refl; parses = refl; no_bar = (refl, tt) }, refl), tt),
)

lists : list_jobs unary none one_each two_jobs ≡ page first_page
unfolding list_jobs encode_cursor decode_cursor sort_by str_lt str_eq in_list
    intersect_requester_sources normalize_list_params validate_read_scope trim_space
lists = refl

goes_on : is_empty first_page.next_cursor ≡ false
unfolding encode_cursor
goes_on = refl

list_jobs_follows_example :
    (q : ListResult) × (list_jobs unary none
        (record one_each { cursor = first_page.next_cursor })
        two_jobs
      ≡ page q)
    × (first_page.items ++ q.items
        ≡ map job_from_model (
            take
              (pos_part (normalize_list_params one_each).limit
                + pos_part (normalize_list_params one_each).limit)
              (remaining unary one_each
                (intersect_requester_sources one_each.allowed_sources one_each.sources)
                two_jobs)))
list_jobs_follows_example =
    list_jobs_follows unary one_each two_jobs first_page two_jobs-HasUniqueIds
      two_jobs-AreAddressable lists goes_on
