-- ===== src/Jobs/Store/Rows.antt =====
-- How one statement of the store acts on the row of a key.
use sumweave.Base.{◌≡◌, ◌⊎◌, inl, inr, Bool, true, false, none, some, ◌&&◌, arith, Option-cases}
use sumweave.Base.Text.{Str, str_eq, str_eq_iff}
use sumweave.Jobs.Table.{
  JobModel, Table, find_row, HasUniqueIds, find_row-update_where, find_row_key, count_where_key,
  update_where-HasUniqueIds,
}
use sumweave.Jobs.Store.{Fault, ok, err, StoreError, update_one}

-- The updates of the store never change a key.
pub update_one-row :
    (fault : Fault) (missed : StoreError) (p : JobModel → Bool) (f : JobModel → JobModel)
    (t : Table) (id : Str) (m : JobModel)
    → ((k : JobModel) → (f k).id ≡ k.id)
    → find_row id t ≡ some m
    → (find_row id (update_one fault missed p f t).1 ≡ some m)
      ⊎ ((p m ≡ true) × (find_row id (update_one fault missed p f t).1 ≡ some (f m)))
unfolding update_one
update_one-row (some e) missed p f t id m same h = inl h
update_one-row none missed p f t id m same h = ground (arith, find_row-update_where p f id t same)

pub update_one-HasUniqueIds :
    (fault : Fault) (missed : StoreError) (p : JobModel → Bool) (f : JobModel → JobModel)
    (t : Table)
    → ((k : JobModel) → (f k).id ≡ k.id)
    → HasUniqueIds t
    → HasUniqueIds (update_one fault missed p f t).1
unfolding update_one
update_one-HasUniqueIds (some e) missed p f t same u = u
update_one-HasUniqueIds none missed p f t same u =
    ground (arith, update_where-HasUniqueIds p f t same u)

-- A statement about a key that finds its row in the expected state changes that row.
pub update_one_hit :
    (missed : StoreError) (q : JobModel → Bool) (f : JobModel → JobModel) (t : Table) (id : Str)
    (m : JobModel)
    → HasUniqueIds t
    → ((k : JobModel) → (f k).id ≡ k.id)
    → find_row id t ≡ some m
    → q m ≡ true
    → ((update_one none missed (λ k. str_eq k.id id && q k) f t).0 ≡ ok tt)
      × (find_row id (update_one none missed (λ k. str_eq k.id id && q k) f t).1 ≡ some (f m))
unfolding update_one
update_one_hit missed q f t id m u same h e = ground (
  arith,
  count_where_key q id t u,
  find_row-update_where (λ k. str_eq k.id id && q k) f id t same,
  str_eq_iff m.id id,
  find_row_key id t m h,
)

-- One that does not is refused, and nothing changes.
pub update_one_miss :
    (missed : StoreError) (q : JobModel → Bool) (f : JobModel → JobModel) (t : Table) (id : Str)
    → HasUniqueIds t
    → ((m : JobModel) → find_row id t ≡ some m → q m ≡ false)
    → update_one none missed (λ k. str_eq k.id id && q k) f t ≡ (err missed, t)
unfolding update_one
update_one_miss missed q f t id u no_hit = elim (Option-cases (find_row id t)) [
  | inl e ↦ ground (arith, count_where_key q id t u)
  | inr (m, e) ↦ ground (arith, count_where_key q id t u, no_hit m e)
]
