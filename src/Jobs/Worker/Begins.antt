-- ===== src/Jobs/Worker/Begins.antt =====
-- How a delivery begins, for a message that is known and for one that is not.
use sumweave.Base.{inl, inr, ◌≡◌, ◌≢◌, refl, sym, subst, ap, ◌∙◌, ◌⊎◌, none, some, arith}
use sumweave.Base.Text.{Str, str_eq_iff, trim_space, trim_space_idem}
use sumweave.Jobs.Types.{JobStatus, Time, queued, running, succeeded, failed, JobMetadata}
use sumweave.Jobs.Table.{
  JobModel, Table, find_row, insert_row, HasUniqueIds, find_row-insert_row, insert_row-HasUniqueIds,
  insert_row_present,
}
use sumweave.Jobs.Store.{
  ok, job_from_model, new_job_model, materialize_queued, get, claim_queued, claimed_row,
}
use sumweave.Jobs.Store.Claims.{
  claim_queued-HasUniqueIds, claim_queued_hit, claim_id, claimed_row-holds_claim,
}
use sumweave.Jobs.Store.Fencing.{Holds}
use sumweave.Jobs.Worker.{
  observed_job, Beginning, executing, begin_observed, begin_claim, begin_materialized, claim_result,
}

-- The driver reports no failure while the delivery begins, and the payload can be read.
abbrev pub RunsSmoothly : Beginning → JobMetadata → Type 0
RunsSmoothly b metadata =
    (b.metadata ≡ some metadata)
    × (b.insert_fault ≡ none)
    × (b.insert_read_fault ≡ none)
    × (b.claim_fault ≡ none)
    × (b.claim_read_fault ≡ none)

pub observed_id :
    (j : Str) (metadata : JobMetadata) (now : Time)
    → (new_job_model (observed_job j metadata now)).id ≡ trim_space j
unfolding new_job_model observed_job
observed_id j metadata now = refl

materialize_present :
    (j : Str) (metadata : JobMetadata) (now : Time) (t : Table) (m : JobModel)
    → find_row (trim_space j) t ≡ some m
    → materialize_queued none none (observed_job j metadata now) t ≡ (ok (job_from_model m), t)
unfolding materialize_queued get observed_job new_job_model
materialize_present j metadata now t m h =
    let same = insert_row_present (new_job_model (observed_job j metadata now)) m t h in
    rw (same, h)

pub job_status_of :
    (m : JobModel) → ((job_from_model m).status ≡ m.status) × ((job_from_model m).id ≡ m.id)
unfolding job_from_model
job_status_of m = (refl, refl)

pub begin_present :
    (w : Str) (b : Beginning) (j : Str) (metadata : JobMetadata) (t : Table) (m : JobModel)
    → RunsSmoothly b metadata
    → find_row (trim_space j) t ≡ some m
    → begin_observed w b j t ≡ begin_materialized w b (ok (job_from_model m)) t
unfolding begin_observed
begin_present w b j metadata t m h found =
    ground (arith, materialize_present j metadata b.now t m found)

pub status-cases : (s : JobStatus) → (s ≡ queued) ⊎ (s ≡ running) ⊎ ((s ≡ succeeded) ⊎ (s ≡ failed))
status-cases queued = inl refl
status-cases running = inr (inl refl)
status-cases succeeded = inr (inr (inl refl))
status-cases failed = inr (inr (inr refl))

-- The table after the insert.
abbrev inserted : Str → JobMetadata → Time → Table → Table
inserted j metadata now t = insert_row (new_job_model (observed_job j metadata now)) t

inserted_row :
    (j : Str) (metadata : JobMetadata) (now : Time) (t : Table)
    → find_row (trim_space j) t ≡ none
    → find_row (trim_space j) (inserted j metadata now t)
      ≡ some (new_job_model (observed_job j metadata now))
inserted_row j metadata now t h = ground (
  arith,
  find_row-insert_row (new_job_model (observed_job j metadata now)) (trim_space j) t,
  str_eq_iff (new_job_model (observed_job j metadata now)).id (trim_space j),
  observed_id j metadata now,
)

observed_job_id :
    (j : Str) (metadata : JobMetadata) (now : Time) → (observed_job j metadata now).id ≡ j
unfolding observed_job
observed_job_id j metadata now = refl

materialize_absent :
    (j : Str) (metadata : JobMetadata) (now : Time) (t : Table)
    → find_row (trim_space j) t ≡ none
    → materialize_queued none none (observed_job j metadata now) t ≡ (
      ok (job_from_model (new_job_model (observed_job j metadata now))),
      inserted j metadata now t,
    )
unfolding materialize_queued get
materialize_absent j metadata now t h =
    simp (observed_job_id j metadata now, inserted_row j metadata now t h)

begin_absent :
    (w : Str) (b : Beginning) (j : Str) (metadata : JobMetadata) (t : Table)
    → RunsSmoothly b metadata
    → find_row (trim_space j) t ≡ none
    → begin_observed w b j t
      ≡ begin_materialized w b
          (ok (job_from_model (new_job_model (observed_job j metadata b.now))))
          (inserted j metadata b.now t)
unfolding begin_observed
begin_absent w b j metadata t h absent =
    ground (arith, materialize_absent j metadata b.now t absent)

-- The row that a fresh message's claim leaves.
abbrev pub first_claim : Str → Beginning → Str → JobMetadata → JobModel
first_claim w b j metadata =
    claimed_row w b.claim_now (new_job_model (observed_job j metadata b.now))

fresh_status :
    (j : Str) (metadata : JobMetadata) (now : Time)
    → ((new_job_model (observed_job j metadata now)).status ≡ queued)
      × ((new_job_model (observed_job j metadata now)).attempt_count ≡ 0)
unfolding new_job_model observed_job
fresh_status j metadata now = (refl, refl)

begin_fresh_claim :
    (w : Str) (b : Beginning) (j : Str) (metadata : JobMetadata) (t : Table)
    → RunsSmoothly b metadata
    → find_row (trim_space j) t ≡ none
    → let claim =
        claim_queued none none (trim_space j) w b.claim_now (inserted j metadata b.now t) in
      begin_observed w b j t ≡ (claim_result claim.0, claim.1)
begin_fresh_claim w b j metadata t h absent =
    let fresh = new_job_model (observed_job j metadata b.now) in
    begin_absent w b j metadata t h absent
    ∙ unfold begin_materialized begin_claim in
      ground
        (arith, job_status_of fresh, fresh_status j metadata b.now, observed_id j metadata b.now)

-- A message that is seen for the first time is executed, by a worker that holds the claim on it.
pub begin_observed_fresh :
    (w : Str) (b : Beginning) (j : Str) (metadata : JobMetadata) (t : Table)
    → RunsSmoothly b metadata
    → b.claim_now ≢ 0
    → HasUniqueIds t
    → find_row (trim_space j) t ≡ none
    → ((begin_observed w b j t).0 ≡ executing (job_from_model (first_claim w b j metadata)))
      × HasUniqueIds (begin_observed w b j t).1
      × Holds
          (job_from_model (first_claim w b j metadata))
          (first_claim w b j metadata)
          (begin_observed w b j t).1
unfolding claim_result
begin_observed_fresh w b j metadata t h nz u absent =
    let fresh = new_job_model (observed_job j metadata b.now) in
    let t' = inserted j metadata b.now t in
    let u' = insert_row-HasUniqueIds fresh t u in
    let row =
      ap (λ k. find_row k t') (trim_space_idem j) ∙ inserted_row j metadata b.now t absent in
    let hit =
      claim_queued_hit (trim_space j) w b.claim_now t' fresh u' row
        (fresh_status j metadata b.now).0 nz in
    let begun = begin_fresh_claim w b j metadata t h absent in
    let answer : (begin_observed w b j t).0
        ≡ executing (job_from_model (first_claim w b j metadata)) =
      ap (λ r. r.0) begun ∙ ap claim_result hit.0 in
    let table : (begin_observed w b j t).1
        ≡ (claim_queued none none (trim_space j) w b.claim_now t').1 =
      ap (λ r. r.1) begun in
    let key : (job_from_model (first_claim w b j metadata)).id ≡ trim_space j =
      claim_id w b.claim_now fresh ∙ observed_id j metadata b.now in
    (
      answer,
      subst HasUniqueIds (sym table) (claim_queued-HasUniqueIds (trim_space j) w b.claim_now t' u'),
      (
        ap (λ k. find_row (trim_space k) (begin_observed w b j t).1) key
            ∙ ap (find_row (trim_space (trim_space j))) table
            ∙ hit.1,
        claimed_row-holds_claim w b.claim_now fresh,
      ),
    )
