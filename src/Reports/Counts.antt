-- ===== src/Reports/Counts.antt =====
-- Where each transaction is counted: as settled, as pending, or as one for which a rate is missing.
use sumweave.Base.{
  ℕ, ◌+◌, ◌≡◌, ap, ◌∙◌, inl, inr, Bool, true, false, Option, none, some, List, [], ◌∷◌, ◌++◌,
  append_assoc, append-nil, ◌&&◌, not, arith, if◌then◌else◌, is_nil, keep, length, Bool-cases,
}
use sumweave.Base.Text.{Str}
use sumweave.Base.Int.{ℤ}
use sumweave.Sync.Types.{Transaction, TransactionStatus, pending, booked}
use sumweave.Reports.Types.{DashboardMissingFxDiagnostic, DashboardData, DashboardState}
use sumweave.Reports.Dashboard.{
  is_booked, contribution_of, reporting_contribution, transaction_in_period,
  convert_transaction_contribution, missing_for, add_converted, with_native, add_contribution,
  process_dashboard_transaction, process_all, new_state, compute_dashboard,
}

abbrev pub none_of : {A : Type 0} → List A → Bool
none_of [] = true
none_of (x ∷ xs) = false

module _ {Rate : Type 0} (rounded : ℤ → Rate → ℤ) (provider : Str) (d : DashboardData Rate) where
  -- A transaction is included when it is visible, in the period, and contributes.
  abbrev included : Transaction → Option (ℤ × ℤ)
  included t =
      if is_nil t.hidden_at && transaction_in_period t d.period
      then reporting_contribution t
      else none

  abbrev converts : Transaction → Option (ℤ × ℤ) → Bool
  converts t none = false
  converts t (some amounts) =
      not (is_nil (convert_transaction_contribution rounded provider d t amounts))

  abbrev lacks : Transaction → Option (ℤ × ℤ) → Bool
  lacks t none = false
  lacks t (some amounts) = is_nil (convert_transaction_contribution rounded provider d t amounts)

  -- Included, and in a currency that can be shown.
  abbrev pub is_shown : Transaction → Bool
  is_shown t = converts t (included t)

  -- Included, and without the rate.
  abbrev pub lacks_rate : Transaction → Bool
  lacks_rate t = lacks t (included t)

  -- The parts of the state that the theorem is about.
  record Tally : Type 0 where
    settled_count : ℕ
    pending_count : ℕ
    settled_complete : Bool
    pending_complete : Bool
    missing : List DashboardMissingFxDiagnostic

  tally : DashboardState → Tally
  tally s = record {
    settled_count = s.settled.transaction_count;
    pending_count = s.pending.transaction_count;
    settled_complete = s.settled.complete;
    pending_complete = s.pending.complete;
    missing = s.missing;
  }

  abbrev one_if : Bool → ℕ
  one_if true = 1
  one_if false = 0

  abbrev missing_if : Bool → Transaction → List DashboardMissingFxDiagnostic
  missing_if true t = missing_for rounded provider d t ∷ []
  missing_if false t = []

  -- What one transaction adds.
  tallied : Bool → Bool → Bool → Transaction → Tally → Tally
  tallied shown without at_once t s = record {
    settled_count = s.settled_count + one_if (shown && at_once);
    pending_count = s.pending_count + one_if (shown && not at_once);
    settled_complete = s.settled_complete && not (without && at_once);
    pending_complete = s.pending_complete && not (without && not at_once);
    missing = s.missing ++ missing_if without t;
  }

  unchanged :
      (b : Bool) (t : Transaction) (s : DashboardState)
      → tally s ≡ tallied false false b t (tally s)
  unfolding tally tallied
  unchanged b t s = ground (arith, append-nil s.missing)

  converted_tally :
      (t : Transaction) (s : DashboardState) (status : TransactionStatus) (amounts : Option (ℤ × ℤ))
      → tally (add_converted rounded provider d t s status amounts)
        ≡ tallied (not (is_nil amounts)) (is_nil amounts) (is_booked status) t (tally s)
  unfolding tally tallied
  converted_tally t s booked none = ground arith
  converted_tally t s pending none = ground arith
  converted_tally t s booked (some (i, e)) = ground (arith, append-nil s.missing)
  converted_tally t s pending (some (i, e)) = ground (arith, append-nil s.missing)

  native_tally :
      (t : Transaction) (i e : ℤ) (s : DashboardState)
      → tally (with_native rounded provider t i e s) ≡ tally s
  unfolding tally
  native_tally t i e s = ground arith

  contribution_tally :
      (t : Transaction) (s : DashboardState) (c : Option (ℤ × ℤ))
      → tally (add_contribution rounded provider d t s c)
        ≡ tallied (converts t c) (lacks t c) (is_booked t.status) t (tally s)
  contribution_tally t s none = unchanged (is_booked t.status) t s
  contribution_tally t s (some (i, e)) =
      let amounts = convert_transaction_contribution rounded provider d t (i, e) in
      converted_tally t (with_native rounded provider t i e s) t.status amounts
      ∙ ap (tallied (not (is_nil amounts)) (is_nil amounts) (is_booked t.status) t)
          (native_tally t i e s)

  process_tally :
      (t : Transaction) (s : DashboardState)
      → tally (process_dashboard_transaction rounded provider d s t)
        ≡ tallied (is_shown t) (lacks_rate t) (is_booked t.status) t (tally s)
  unfolding process_dashboard_transaction
  process_tally t s = elim (Bool-cases (is_nil t.hidden_at)) [
    | inr hidden ↦ rw hidden (unchanged (is_booked t.status) t s)
    | inl visible ↦ elim (Bool-cases (transaction_in_period t d.period)) [
      | inr outside ↦ rw (visible, outside) (unchanged (is_booked t.status) t s)
      | inl within ↦ rw (visible, within) (contribution_tally t s (contribution_of t.kind t))
    ]
  ]

  unfoldable pub missing_of : List Transaction → List DashboardMissingFxDiagnostic
  missing_of [] = []
  missing_of (t ∷ ts) =
      let rest = missing_of ts in
      if lacks_rate t then missing_for rounded provider d t ∷ rest else rest

  -- The counts over a list of transactions, from those before it.
  counted_all : List Transaction → Tally → Tally
  counted_all ts s = record {
    settled_count = s.settled_count + length (keep (λ t. is_shown t && is_booked t.status) ts);
    pending_count =
        s.pending_count + length (keep (λ t. is_shown t && not (is_booked t.status)) ts);
    settled_complete =
        s.settled_complete && none_of (keep (λ t. lacks_rate t && is_booked t.status) ts);
    pending_complete =
        s.pending_complete && none_of (keep (λ t. lacks_rate t && not (is_booked t.status)) ts);
    missing = s.missing ++ missing_of ts;
  }

  counted_step :
      (t : Transaction) (ts : List Transaction) (s : Tally)
      → counted_all ts (tallied (is_shown t) (lacks_rate t) (is_booked t.status) t s)
        ≡ counted_all (t ∷ ts) s
  unfolding counted_all tallied missing_of
  counted_step t ts s = ground (
    arith,
    append_assoc s.missing (missing_for rounded provider d t ∷ []) (missing_of ts),
    append-nil s.missing,
  )

  counted_none : (s : Tally) → s ≡ counted_all [] s
  unfolding counted_all missing_of
  counted_none s = ground (arith, append-nil s.missing)

  tally-process_all :
      (ts : List Transaction) (s : DashboardState)
      → tally (process_all rounded provider d s ts) ≡ counted_all ts (tally s)
  unfolding process_all
  tally-process_all [] s = counted_none (tally s)
  tally-process_all (t ∷ ts) s =
      tally-process_all ts (process_dashboard_transaction rounded provider d s t)
      ∙ ap (counted_all ts) (process_tally t s)
      ∙ counted_step t ts (tally s)

  -- Of the visible transactions of the period that contribute, the dashboard counts those in a currency that
  -- can be shown, the booked ones as settled and the others as pending; the others it lists in order as
  -- missing a rate, and the settled or the pending summary is complete exactly when it lacks none of these.
  pub compute_dashboard_counts :
      (ts : List Transaction)
      → ((compute_dashboard rounded provider d ts).settled.transaction_count
          ≡ length (keep (λ t. is_shown t && is_booked t.status) ts))
        × ((compute_dashboard rounded provider d ts).pending.transaction_count
            ≡ length (keep (λ t. is_shown t && not (is_booked t.status)) ts))
        × ((compute_dashboard rounded provider d ts).settled.complete
            ≡ none_of (keep (λ t. lacks_rate t && is_booked t.status) ts))
        × ((compute_dashboard rounded provider d ts).pending.complete
            ≡ none_of (keep (λ t. lacks_rate t && not (is_booked t.status)) ts))
        × ((compute_dashboard rounded provider d ts).missing ≡ missing_of ts)
  unfolding compute_dashboard tally counted_all
  compute_dashboard_counts ts =
      let e = tally-process_all ts (new_state rounded provider d) in
      (
        ap (λ (x : Tally). x.settled_count) e ∙ omega arith,
        ap (λ (x : Tally). x.pending_count) e ∙ omega arith,
        ap (λ (x : Tally). x.settled_complete) e,
        ap (λ (x : Tally). x.pending_complete) e,
        ap (λ (x : Tally). x.missing) e,
      )
