-- ===== src/Jobs/Table.antt =====
-- The table `jobs` of apps/sumweave/internal/jobs/store.go: its rows, and the statements that the
-- store runs on it. A row update sees the columns as they were when it began, as in SQL.
use sumweave.Base.{
  ℕ, suc, ◌≡◌, refl, Bool, true, false, Option, none, some, List, [], ◌∷◌, arith, ◌==◌, ◌&&◌,
  if◌then◌else◌,
}
use sumweave.Base.Text.{Str, str_eq, str_eq_iff}
use sumweave.Jobs.Types.{Time, JobStatus, queued, running, succeeded, failed}

-- `jobModel`
pub record JobModel : Type 0 where
  pub id : Str
  pub job_type : Str
  pub status : JobStatus
  pub requester_user_id : Str
  pub requester_source : Str
  pub error_code : Str
  pub error_summary : Str
  pub error_details : Str
  pub created_at : Time
  pub updated_at : Time
  pub queued_at : Time
  pub started_at : Option Time
  pub completed_at : Option Time
  pub worker_id : Str
  pub attempt_count : ℕ
  pub last_attempt_at : Option Time
  pub schedule_id : Str
  pub scheduled_at : Option Time
  pub scheduled_next_run_at : Option Time

abbrev pub Table : Type 0
Table = List JobModel

abbrev pub status_eq : JobStatus → JobStatus → Bool
status_eq queued queued = true
status_eq running running = true
status_eq succeeded succeeded = true
status_eq failed failed = true
status_eq a b = false

-- `column = ?` on a nullable column with a nullable argument: NULL equals nothing.
abbrev pub time_ptr_eq : Option Time → Option Time → Bool
time_ptr_eq none b = false
time_ptr_eq (some a) none = false
time_ptr_eq (some a) (some b) = a == b

-- `SELECT ... WHERE id = ?`, the first row.
unfoldable pub find_row : Str → Table → Option JobModel
find_row id [] = none
find_row id (m ∷ t) = if str_eq m.id id then some m else find_row id t

-- The first row of any `SELECT`.
unfoldable pub find_where : (JobModel → Bool) → Table → Option JobModel
find_where p [] = none
find_where p (m ∷ t) = if p m then some m else find_where p t

pub find_where_holds :
    (p : JobModel → Bool) (t : Table) (m : JobModel) → find_where p t ≡ some m → p m ≡ true
unfolding find_where
find_where_holds p [] m h = cc
find_where_holds p (k ∷ t) m h = ground (arith, find_where_holds p t m)

-- `UPDATE ... SET ... WHERE ...`, and the number of rows that it affects.
unfoldable pub update_where : (JobModel → Bool) → (JobModel → JobModel) → Table → Table
update_where p f [] = []
update_where p f (m ∷ t) = (if p m then f m else m) ∷ update_where p f t

unfoldable pub count_where : (JobModel → Bool) → Table → ℕ
count_where p [] = 0
count_where p (m ∷ t) = let n = count_where p t in if p m then suc n else n

-- `INSERT ... ON CONFLICT (id) DO NOTHING`.
unfoldable pub insert_row : JobModel → Table → Table
insert_row m [] = m ∷ []
insert_row m (k ∷ t) = if str_eq k.id m.id then k ∷ t else k ∷ insert_row m t

-- The primary key.
abbrev pub HasUniqueIds : Table → Type 0
HasUniqueIds [] = Unit
HasUniqueIds (m ∷ t) = (find_row m.id t ≡ none) × HasUniqueIds t

-- An update that leaves the key alone acts on the row that is found by a key.
pub find_row-update_where :
    (p : JobModel → Bool) (f : JobModel → JobModel) (id : Str) (t : Table)
    → ((m : JobModel) → (f m).id ≡ m.id)
    → find_row id (update_where p f t)
      ≡ elim (find_row id t) [ none ↦ none | some m ↦ some (if p m then f m else m) ]
unfolding find_row update_where
find_row-update_where p f id [] same = refl
find_row-update_where p f id (m ∷ t) same =
    ground (arith, same m, find_row-update_where p f id t same)

pub find_row-insert_row :
    (m : JobModel) (id : Str) (t : Table)
    → find_row id (insert_row m t)
      ≡ elim (find_row id t) [ none ↦ if str_eq m.id id then some m else none | some k ↦ some k ]
unfolding find_row insert_row
find_row-insert_row m id [] = refl
find_row-insert_row m id (k ∷ t) = ground (
  arith,
  find_row-insert_row m id t,
  str_eq_iff k.id m.id,
  str_eq_iff k.id id,
  str_eq_iff m.id id,
)

pub find_row_key : (id : Str) (t : Table) (m : JobModel) → find_row id t ≡ some m → m.id ≡ id
unfolding find_row
find_row_key id [] m h = cc
find_row_key id (k ∷ t) m h = ground (arith, find_row_key id t m, str_eq_iff k.id id)

pub count_where_absent :
    (q : JobModel → Bool) (id : Str) (t : Table)
    → find_row id t ≡ none
    → count_where (λ m. str_eq m.id id && q m) t ≡ 0
unfolding find_row count_where
count_where_absent q id [] h = refl
count_where_absent q id (m ∷ t) h = ground (arith, count_where_absent q id t)

-- With a primary key, a statement about one key affects one row or none.
pub count_where_key :
    (q : JobModel → Bool) (id : Str) (t : Table)
    → HasUniqueIds t
    → count_where (λ m. str_eq m.id id && q m) t
      ≡ elim (find_row id t) [ none ↦ 0 | some m ↦ if q m then 1 else 0 ]
unfolding find_row count_where
count_where_key q id [] u = refl
count_where_key q id (m ∷ t) u =
    ground (arith, count_where_key q id t u.1, count_where_absent q id t, str_eq_iff m.id id)

pub update_where-HasUniqueIds :
    (p : JobModel → Bool) (f : JobModel → JobModel) (t : Table)
    → ((m : JobModel) → (f m).id ≡ m.id)
    → HasUniqueIds t
    → HasUniqueIds (update_where p f t)
unfolding update_where
update_where-HasUniqueIds p f [] same u = u
update_where-HasUniqueIds p f (m ∷ t) same u =
    let rest = update_where-HasUniqueIds p f t same u.1 in
    ground (arith, same m, find_row-update_where p f m.id t same)

pub insert_row-HasUniqueIds :
    (m : JobModel) (t : Table) → HasUniqueIds t → HasUniqueIds (insert_row m t)
unfolding insert_row find_row
insert_row-HasUniqueIds m [] u = ground arith
insert_row-HasUniqueIds m (k ∷ t) u = ground (
  arith,
  insert_row-HasUniqueIds m t u.1,
  find_row-insert_row m k.id t,
  str_eq_iff m.id k.id,
  str_eq_iff k.id m.id,
)

pub insert_row_present :
    (m k : JobModel) (t : Table) → find_row m.id t ≡ some k → insert_row m t ≡ t
unfolding find_row insert_row
insert_row_present m k [] h = cc
insert_row_present m k (j ∷ t) h = ground (arith, insert_row_present m k t)
