-- ===== src/Jobs/Store/Claims.antt =====
-- Claims on queued jobs: `ClaimQueued` of apps/sumweave/internal/jobs/store.go.
use sumweave.Base.{
  ◌≡◌, ◌≢◌, refl, sym, ap, ◌∙◌, inl, inr, true, false, none, some, ◌&&◌, arith, Bool-cases,
  Option-cases,
}
use sumweave.Base.Text.{Str, str_eq, str_eq_refl, trim_space, trim_space_idem}
use sumweave.Jobs.Types.{Time, Job, queued}
use sumweave.Jobs.Table.{JobModel, Table, find_row, HasUniqueIds}
use sumweave.Jobs.Store.{
  Result, ok, err, job_not_queued, job_from_model, claim_queued, claimed_row, is_queued,
  holds_claim, update_one, get, found,
}
use sumweave.Jobs.Store.Rows.{update_one_hit, update_one_miss, update_one-HasUniqueIds}

get_found :
    (id : Str) (t : Table) (m : JobModel)
    → find_row (trim_space id) t ≡ some m
    → get none id t ≡ ok (job_from_model m)
unfolding get
get_found id t m h = rw (h, found)

-- A queued job is claimed, at any instant but Go's zero time: the answer is the new row.
pub claim_queued_hit :
    (id w : Str) (at : Time) (t : Table) (m : JobModel)
    → HasUniqueIds t
    → find_row (trim_space id) t ≡ some m
    → m.status ≡ queued
    → at ≢ 0
    → ((claim_queued none none id w at t).0 ≡ ok (job_from_model (claimed_row w at m)))
      × (find_row (trim_space id) (claim_queued none none id w at t).1 ≡ some (claimed_row w at m))
unfolding claim_queued
claim_queued_hit id w at t m u h q nz =
    let hit =
      update_one_hit job_not_queued is_queued (claimed_row w at) t (trim_space id) m u (λ k. refl) h
        (ground arith) in
    ground (
      arith,
      hit,
      get_found id
          (update_one none job_not_queued (λ k. str_eq k.id (trim_space id) && is_queued k)
            (claimed_row w at) t).1
          (claimed_row w at m),
    )

-- A job that is absent or not queued cannot be claimed, and nothing changes.
pub claim_queued_miss :
    (id w : Str) (at : Time) (t : Table)
    → HasUniqueIds t
    → ((m : JobModel) → find_row (trim_space id) t ≡ some m → is_queued m ≡ false)
    → at ≢ 0
    → claim_queued none none id w at t ≡ (err job_not_queued, t)
unfolding claim_queued
claim_queued_miss id w at t u no_hit nz =
    let miss =
      update_one_miss job_not_queued is_queued (claimed_row w at) t (trim_space id) u no_hit in
    ground (arith, miss)

-- What a successful claim says of the table before and after it.
pub record IsClaimed (id w : Str) (at : Time) (t : Table) (claim : Job) : Type 0 where
  pub row : JobModel
  pub was_found : find_row (trim_space id) t ≡ some row
  pub was_queued : row.status ≡ queued
  pub timed : at ≢ 0
  pub answer : claim ≡ job_from_model (claimed_row w at row)
  pub now_claimed :
      find_row (trim_space id) (claim_queued none none id w at t).1 ≡ some (claimed_row w at row)

ok-injective : (a b : Job) → ◌≡◌ {A = Result Job} (ok a) (ok b) → a ≡ b
ok-injective a b e = cc

claim_queued_timed :
    (id w : Str) (at : Time) (t : Table) (claim : Job)
    → (claim_queued none none id w at t).0 ≡ ok claim
    → at ≢ 0
unfolding claim_queued
claim_queued_timed id w at t claim e = ground arith

refused_not_ok :
    (id w : Str) (at : Time) (t : Table) (claim : Job)
    → claim_queued none none id w at t ≡ (err job_not_queued, t)
    → (claim_queued none none id w at t).0 ≡ ok claim
    → ⊥
refused_not_ok id w at t claim r e = cc (ap (λ x. x.0) r)

is_queued_status : (m : JobModel) → is_queued m ≡ true → m.status ≡ queued
is_queued_status m h = ground arith

claim_queued_row :
    (id w : Str) (at : Time) (t : Table) (claim : Job)
    → HasUniqueIds t
    → (claim_queued none none id w at t).0 ≡ ok claim
    → (m : JobModel) × (find_row (trim_space id) t ≡ some m) × (m.status ≡ queued)
claim_queued_row id w at t claim u e = elim (Option-cases (find_row (trim_space id) t)) [
  | inl absent ↦ absurd (
      refused_not_ok id w at t claim
        (claim_queued_miss id w at t u (λ m h. cc) (claim_queued_timed id w at t claim e)) e)
  | inr (m, h) ↦ elim (Bool-cases (is_queued m)) [
    | inl q ↦ (m, h, is_queued_status m q)
    | inr other ↦ absurd (
        refused_not_ok id w at t claim
          (claim_queued_miss id w at t u (λ k g. ground arith)
            (claim_queued_timed id w at t claim e))
          e)
  ]
]

pub claim_queued-IsClaimed :
    (id w : Str) (at : Time) (t : Table) (claim : Job)
    → HasUniqueIds t
    → (claim_queued none none id w at t).0 ≡ ok claim
    → IsClaimed id w at t claim
claim_queued-IsClaimed id w at t claim u e =
    let (m, h, q) = claim_queued_row id w at t claim u e in
    let nz = claim_queued_timed id w at t claim e in
    let hit = claim_queued_hit id w at t m u h q nz in
    record {
      row = m;
      was_found = h;
      was_queued = q;
      timed = nz;
      answer = ok-injective _ _ (sym e ∙ hit.0);
      now_claimed = hit.1;
    }

pub claim_queued-HasUniqueIds :
    (id w : Str) (at : Time) (t : Table)
    → HasUniqueIds t
    → HasUniqueIds (claim_queued none none id w at t).1
unfolding claim_queued
claim_queued-HasUniqueIds id w at t u =
    let kept =
      update_one-HasUniqueIds none job_not_queued (λ m. str_eq m.id (trim_space id) && is_queued m)
        (claimed_row w at) t (λ k. refl) u in
    ground (arith, kept)

-- After a successful claim no other worker can claim the job: it is refused and changes nothing.
pub claim_queued_exclusive :
    (id w w' : Str) (at at' : Time) (t : Table) (claim : Job)
    → HasUniqueIds t
    → (claim_queued none none id w at t).0 ≡ ok claim
    → at' ≢ 0
    → let t' = (claim_queued none none id w at t).1 in
      claim_queued none none id w' at' t' ≡ (err job_not_queued, t')
claim_queued_exclusive id w w' at at' t claim u e nz =
    let c = claim_queued-IsClaimed id w at t claim u e in
    claim_queued_miss id w' at' (claim_queued none none id w at t).1
      (claim_queued-HasUniqueIds id w at t u) (λ m h. ground (arith, c.now_claimed)) nz

-- The row of a claim is held by the claim that was answered.
pub claimed_row-holds_claim :
    (w : Str) (at : Time) (m : JobModel)
    → holds_claim (job_from_model (claimed_row w at m)) (claimed_row w at m) ≡ true
unfolding job_from_model
claimed_row-holds_claim w at m = ground (
  arith,
  trim_space_idem w,
  str_eq_refl (trim_space w),
  ap (str_eq (trim_space w)) (trim_space_idem w),
)

pub claim_id :
    (w : Str) (at : Time) (m : JobModel) → (job_from_model (claimed_row w at m)).id ≡ m.id
unfolding job_from_model
claim_id w at m = refl
