-- ===== src/Transfers/Store/Linked.antt =====
-- Linking and unlinking as one change of the table.
use sumweave.Base.{
  ℕ, ◌≡◌, refl, ap, inl, inr, Bool, false, Option, none, some, List, [], ◌∷◌, ◌||◌, ◌==◌,
  if◌then◌else◌, arith, Bool-cases,
}
use sumweave.Base.Text.{Str, str_eq, str_eq_iff}
use sumweave.Transfers.Rows.{TransactionModel}
use sumweave.Transfers.Store.{
  PairError, transaction_ids_must_differ, transaction_not_found, driver, Faults, is_leg,
  update_legs, count_legs, update_transfer_pair_leg, then_second, in_transaction, commit,
  update_pair, TransferPairLinkParams, TransferPairUnlinkParams, linked_row, unlinked_row,
}

-- An update that leaves the columns by which a leg is found.
pub record KeepsKeys (updates : TransactionModel → TransactionModel) : Type 0 where
  pub same_id : (t : TransactionModel) → (updates t).id ≡ t.id
  pub same_tenant : (t : TransactionModel) → (updates t).tenant_id ≡ t.tenant_id

pub linked_row-KeepsKeys : (params : TransferPairLinkParams) → KeepsKeys (linked_row params)
linked_row-KeepsKeys params = record { same_id = λ t. refl; same_tenant = λ t. refl }

pub unlinked_row-KeepsKeys : (params : TransferPairUnlinkParams) → KeepsKeys (unlinked_row params)
unlinked_row-KeepsKeys params = record { same_id = λ t. refl; same_tenant = λ t. refl }

-- A row of either leg.
abbrev pub is_either : Str → Str → Str → TransactionModel → Bool
is_either tenant_id first second t = is_leg tenant_id first t || is_leg tenant_id second t

-- The first error, in the order of the statements.
abbrev pub fault_or : Option Str → Option PairError → Option PairError
fault_or (some e) next = some (driver e)
fault_or none next = next

abbrev pub missing_or : ℕ → Option PairError → Option PairError
missing_or rows next = if rows == 1 then next else some transaction_not_found

abbrev pub pair_error : Faults → Str → Str → Str → List TransactionModel → Option PairError
pair_error faults tenant_id first second ts =
    if str_eq first second
    then some transaction_ids_must_differ
    else fault_or faults.begin_fault (
        fault_or faults.first_fault (
          missing_or (count_legs (is_leg tenant_id first) ts) (
            fault_or faults.second_fault (
              missing_or (count_legs (is_leg tenant_id second) ts)
                (fault_or faults.commit_fault none)))))

-- The table after it: changed in both legs where there is no error, and as it was where there is one.
abbrev pub all_or_nothing :
    Option PairError
    → List TransactionModel
    → List TransactionModel
    → Option PairError × List TransactionModel
all_or_nothing none after before = (none, after)
all_or_nothing (some e) after before = (some e, before)

-- A success: there was no error, and the table is the changed one.
pub error_of :
    (e : Option PairError) (after before ts' : List TransactionModel)
    → all_or_nothing e after before ≡ (none, ts')
    → e ≡ none
error_of none after before ts' h = refl
error_of (some e) after before ts' h =
    cc (ap (λ (r : Option PairError × List TransactionModel). r.0) h)

pub changed_table :
    (e : Option PairError) (after before ts' : List TransactionModel)
    → all_or_nothing e after before ≡ (none, ts')
    → after ≡ ts'
changed_table none after before ts' h = ap (λ (r : Option PairError × List TransactionModel). r.1) h
changed_table (some e) after before ts' h =
    cc (ap (λ (r : Option PairError × List TransactionModel). r.0) h)

module _ (updates : TransactionModel → TransactionModel) (keeps : KeepsKeys updates)
    (tenant_id : Str) where
  open keeps use {same_id, same_tenant}

  count_legs-update_legs :
      (first second : Str) (ts : List TransactionModel)
      → count_legs (is_leg tenant_id second) (update_legs (is_leg tenant_id first) updates ts)
        ≡ count_legs (is_leg tenant_id second) ts
  unfolding count_legs update_legs
  count_legs-update_legs first second [] = refl
  count_legs-update_legs first second (t ∷ ts) =
      ground (arith, same_id t, same_tenant t, count_legs-update_legs first second ts)

  update_legs-update_legs :
      (first second : Str) (ts : List TransactionModel)
      → str_eq first second ≡ false
      → update_legs
          (is_leg tenant_id second)
          updates
          (update_legs (is_leg tenant_id first) updates ts)
        ≡ update_legs (is_either tenant_id first second) updates ts
  unfolding update_legs
  update_legs-update_legs first second [] h = refl
  update_legs-update_legs first second (t ∷ ts) h = ground (
    arith,
    same_id t,
    same_tenant t,
    update_legs-update_legs first second ts,
    str_eq_iff t.id first,
    str_eq_iff t.id second,
    str_eq_iff first second,
  )

  second_leg :
      (fault last : Option Str) (first second : Str) (ts : List TransactionModel)
      → str_eq first second ≡ false
      → commit last ts (
          update_transfer_pair_leg fault tenant_id second updates
            (update_legs (is_leg tenant_id first) updates ts))
        ≡ all_or_nothing
            (fault_or fault
              (missing_or (count_legs (is_leg tenant_id second) ts) (fault_or last none)))
            (update_legs (is_either tenant_id first second) updates ts)
            ts
  unfolding update_transfer_pair_leg
  second_leg (some e) last first second ts h = refl
  second_leg none (some e) first second ts h =
      elim (Bool-cases (count_legs (is_leg tenant_id second) ts == 1)) [
        | inl one ↦ rw (count_legs-update_legs first second ts, one) refl
        | inr other ↦ rw (count_legs-update_legs first second ts, other) refl
      ]
  second_leg none none first second ts h =
      elim (Bool-cases (count_legs (is_leg tenant_id second) ts == 1)) [
        | inl one ↦
            rw
              (
                count_legs-update_legs first second ts,
                one,
                update_legs-update_legs first second ts h,
              )
              refl
        | inr other ↦ rw (count_legs-update_legs first second ts, other) refl
      ]

  both_legs_of :
      (a b c d : Option Str) (first second : Str) (ts : List TransactionModel)
      → str_eq first second ≡ false
      → in_transaction a d
          (λ before.
            then_second
              (record { begin_fault = a; first_fault = b; second_fault = c; commit_fault = d })
              tenant_id
              second
              updates
              (update_transfer_pair_leg b tenant_id first updates before))
          ts
        ≡ all_or_nothing
            (fault_or a (
              fault_or b (
                missing_or (count_legs (is_leg tenant_id first) ts) (
                  fault_or c
                    (missing_or (count_legs (is_leg tenant_id second) ts) (fault_or d none))))))
            (update_legs (is_either tenant_id first second) updates ts)
            ts
  unfolding update_transfer_pair_leg
  both_legs_of (some e) b c d first second ts h = refl
  both_legs_of none (some e) c d first second ts h = refl
  both_legs_of none none c d first second ts h =
      elim (Bool-cases (count_legs (is_leg tenant_id first) ts == 1)) [
        | inl one ↦ rw one (second_leg c d first second ts h)
        | inr other ↦ rw other refl
      ]

  -- Of an update that keeps the identifiers, updatePair changes all rows of both legs when the two
  -- identifiers differ, each is that of exactly one row of the tenant and no statement fails; otherwise
  -- it returns the first error in the order of the statements and leaves the table as it was.
  pub update_pair_lem :
      (faults : Faults) (first second : Str) (ts : List TransactionModel)
      → update_pair faults tenant_id first second updates ts
        ≡ all_or_nothing
            (pair_error faults tenant_id first second ts)
            (update_legs (is_either tenant_id first second) updates ts)
            ts
  unfolding update_pair
  update_pair_lem faults first second ts = elim (Bool-cases (str_eq first second)) [
    | inl same ↦ rw same refl
    | inr other ↦ rw other (
        both_legs_of faults.begin_fault faults.first_fault faults.second_fault faults.commit_fault
          first second ts other)
  ]
