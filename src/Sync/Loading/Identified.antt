-- ===== src/Sync/Loading/Identified.antt =====
-- What a load shows of a transaction that is known under a provider's identifier.
use sumweave.Base.{
  ◌≡◌, refl, sym, ap, ◌∙◌, subst, inl, inr, true, false, some, List, [], ◌∷◌, arith, All, All-keep,
  keep, Bool-cases, Option-cases, some_injective,
}
use sumweave.Base.Text.{Str, str_eq, str_eq_iff, is_empty, trim_space}
use sumweave.Base.Sorting.{All-kept, sort_by-All}
use sumweave.Base.Sole.{keep-sort_by_sole, keep-keep}
use sumweave.Sync.Types.{
  ConnectionRef, Window, Transaction, TransactionMatch, TransactionObservation,
}
use sumweave.Sync.Diff.{
  provider_source, provider_id, has_provider_id, snapshot_transaction, matching_provider_ids,
  append_unique_matches, strong_matches, identified_transaction, plan_strong,
  plan_transaction_action, update_action,
}
use sumweave.Sync.Diff.Matching.{snapshot_transaction-id}
use sumweave.Sync.Diff.Decisions.{strong_found}
use sumweave.Sync.Executor.{Identity, identity_eq, identity_of, in_identities, is_incomplete}
use sumweave.Sync.Executor.Identities.{same_identity}
use sumweave.Sync.Loading.{
  SyncTables, oldest_first, latest_first, is_match_of, is_identified, is_in_window,
  non_empty_trimmed, transaction_ids, mapped_finance_account_ids, provider_transaction, item_before,
  identity_items, identities_kept, identity_rows, list_matches_by_transaction_ids,
  list_provider_transactions_in_window, list_identity_matches, loaded_window,
}
use sumweave.Sync.Loading.Items.{
  in_identities_kept, transactions_of, is_present, has_row, rows-identity_items, provider_row-some,
  snapshot_transaction-All, append_unique_sole,
}

-- The observation's transaction is known: one match of its connection has its identity, and names a stored
-- transaction of a provider.
pub record IsKnown (o : TransactionObservation) (tables : SyncTables) (t : Transaction)
    : Type 0 where
  pub match : TransactionMatch
  pub sole : keep (has_provider_id o) tables.matches ≡ match ∷ []
  pub row : snapshot_transaction tables.transactions match.transaction_id ≡ some t
  pub only : All (λ u. u.id ≡ match.transaction_id → u ≡ t) tables.transactions
  pub of_provider : provider_source t.source ≡ true

module _ (o : TransactionObservation) (tables : SyncTables) (t : Transaction)
    (known : IsKnown o tables t) where
  open known use {match, sole, row, only, of_provider}

  -- A list of stored transactions shows this one under its identifier, or none.
  found_or_absent :
      (ts : List Transaction) (u : Transaction)
      → All (λ u. u.id ≡ match.transaction_id → u ≡ t) ts
      → snapshot_transaction ts match.transaction_id ≡ some u
      → u ≡ t
  unfolding snapshot_transaction
  found_or_absent [] u all h = cc
  found_or_absent (v ∷ ts) u all h = elim (Bool-cases (str_eq v.id match.transaction_id)) [
    | inl same ↦
        some_injective u v (sym (rw same at h))
        ∙ all.0 ((str_eq_iff v.id match.transaction_id).0 same)
    | inr other ↦ found_or_absent ts u all.1 (rw other at h)
  ]

  shown : provider_transaction tables match.transaction_id ≡ some t
  shown = rw (row, of_provider) refl

  id_of_row : t.id ≡ match.transaction_id
  id_of_row = snapshot_transaction-id tables.transactions match.transaction_id t row

  -- Where the match stands among the rows, its transaction stands among those loaded with them.
  is_found :
      (ms : List TransactionMatch)
      → keep (has_provider_id o) ms ≡ match ∷ []
      → is_present
          (snapshot_transaction (transactions_of (identity_items tables ms)) match.transaction_id)
        ≡ true
  unfolding snapshot_transaction identity_items
  is_found [] e = cc
  is_found (m ∷ ms) e = elim (Bool-cases (has_provider_id o m)) [
    | inl hit ↦
        let same : m ≡ match = ground (arith, e, hit) in
        let here : str_eq t.id match.transaction_id ≡ true =
          (str_eq_iff t.id match.transaction_id).1 id_of_row in
        subst
          (λ k.
            is_present (
              snapshot_transaction
                (transactions_of (
                  item_before (provider_transaction tables k.transaction_id) k
                    (identity_items tables ms)))
                match.transaction_id)
            ≡ true)
          (sym same) (rw shown (rw here refl))
    | inr miss ↦
        let ih = is_found ms (rw miss at e) in
        elim (Option-cases (provider_transaction tables m.transaction_id)) [
          | inl absent ↦ rw absent ih
          | inr (u, there) ↦ rw there (ground (arith, ih))
        ]
  ]

  provider_row-All :
      (id : Str) (u : Transaction)
      → provider_transaction tables id ≡ some u
      → u.id ≡ match.transaction_id
      → u ≡ t
  provider_row-All id u there =
      snapshot_transaction-All (λ v. v.id ≡ match.transaction_id → v ≡ t) tables.transactions id u
        only (provider_row-some (snapshot_transaction tables.transactions id) u there)

  items-All :
      (ms : List TransactionMatch)
      → All (λ u. u.id ≡ match.transaction_id → u ≡ t) (transactions_of (identity_items tables ms))
  unfolding identity_items
  items-All [] = tt
  items-All (m ∷ ms) = elim (Option-cases (provider_transaction tables m.transaction_id)) [
    | inl absent ↦ rw absent (items-All ms)
    | inr (u, there) ↦ rw there (provider_row-All m.transaction_id u there, items-All ms)
  ]

  by_identity :
      (ms : List TransactionMatch)
      → keep (has_provider_id o) ms ≡ match ∷ []
      → snapshot_transaction (transactions_of (identity_items tables ms)) match.transaction_id
        ≡ some t
  by_identity ms e =
      let ts = transactions_of (identity_items tables ms) in
      elim (Option-cases (snapshot_transaction ts match.transaction_id)) [
        | inl absent ↦ let here = is_found ms e in cc
        | inr (u, there) ↦ there ∙ ap some (found_or_absent ts u (items-All ms) there)
      ]

  module _ (c : ConnectionRef) (window : Window) (ids : List Identity)
      (same_connection : c.connection_id ≡ o.connection.connection_id)
      (asked : in_identities (identity_of o) ids ≡ true)
      (complete : is_incomplete (identity_of o) ≡ false) where
    spoken : has_provider_id o match ≡ true
    spoken =
        (subst (All (λ m. has_provider_id o m ≡ true)) sole
          (All-keep (has_provider_id o) tables.matches)).0

    is_asked : is_identified c.connection_id (identities_kept [] ids) match ≡ true
    unfolding in_identities
    is_asked =
        let i : Identity = record {
          provider_account_id = match.provider_account_id;
          provider_transaction_id = match.provider_transaction_id;
        } in
        let equal : identity_eq i (identity_of o) ≡ true = ground (arith, spoken) in
        let in_them : in_identities (identity_of o) (identities_kept [] ids) ≡ true =
          in_identities_kept (identity_of o) [] ids ∙ rw (complete, asked) refl in
        let too =
          ap (λ j. in_identities j (identities_kept [] ids))
            (same_identity i (identity_of o) equal) in
        let here : str_eq match.connection_id c.connection_id ≡ true = ground (
          arith,
          spoken,
          same_connection,
          str_eq_iff match.connection_id o.connection.connection_id,
          str_eq_iff match.connection_id c.connection_id,
        ) in
        rw here (too ∙ in_them)

    by_rows : keep (has_provider_id o) (identity_rows c.connection_id ids tables) ≡ match ∷ []
    by_rows =
        keep-sort_by_sole oldest_first (is_identified c.connection_id (identities_kept [] ids))
          (has_provider_id o) tables.matches match sole
        ∙ rw is_asked refl

    matching_sole :
        (ms : List TransactionMatch) → matching_provider_ids ms o ≡ keep (has_provider_id o) ms
    unfolding matching_provider_ids
    matching_sole ms =
        let named : is_empty o.provider_transaction_id ≡ false = ground arith in rw named refl

    strong_sole : strong_matches (loaded_window c window ids tables) o ≡ match ∷ []
    unfolding loaded_window list_matches_by_transaction_ids list_identity_matches
    strong_sole =
        let s = loaded_window c window ids tables in
        let rows = identity_rows c.connection_id ids tables in
        let p =
          is_match_of (trim_space c.connection_id)
            (non_empty_trimmed (transaction_ids s.transactions)) in
        let first : matching_provider_ids s.matches o ≡ keep p (match ∷ []) =
          matching_sole s.matches
          ∙ keep-sort_by_sole oldest_first p (has_provider_id o) tables.matches match sole in
        let second : matching_provider_ids s.identity_matches o ≡ match ∷ [] =
          matching_sole s.identity_matches
          ∙ ap (keep (has_provider_id o)) (rows-identity_items tables rows)
          ∙ keep-keep (has_row tables) (has_provider_id o) rows
          ∙ ap (keep (has_row tables)) by_rows
          ∙ rw shown refl in
        ap (λ ms. append_unique_matches ms (matching_provider_ids s.identity_matches o)) first
        ∙ ap (append_unique_matches (keep p (match ∷ []))) second
        ∙ append_unique_sole match p

    in_window-All :
        All
          (λ u. u.id ≡ match.transaction_id → u ≡ t)
          (loaded_window c window ids tables).transactions
    unfolding loaded_window list_provider_transactions_in_window
    in_window-All =
        let accounts = mapped_finance_account_ids (loaded_window c window ids tables).accounts in
        let p = is_in_window (non_empty_trimmed accounts) window in
        let P : (Transaction → Type 0) = λ u. u.id ≡ match.transaction_id → u ≡ t in
        sort_by-All P latest_first (keep p tables.transactions)
          (All-kept P p tables.transactions only)

    by_query :
        snapshot_transaction
          (loaded_window c window ids tables).identity_transactions
          match.transaction_id
        ≡ some t
    unfolding loaded_window list_identity_matches
    by_query = by_identity (identity_rows c.connection_id ids tables) by_rows

    identified :
        identified_transaction (loaded_window c window ids tables) match.transaction_id ≡ some t
    unfolding identified_transaction
    identified =
        let s = loaded_window c window ids tables in
        elim (Option-cases (snapshot_transaction s.transactions match.transaction_id)) [
          | inl absent ↦ rw (absent, identified_transaction) by_query
          | inr (u, there) ↦
              rw (there, identified_transaction)
                (ap some (found_or_absent s.transactions u in_window-All there))
        ]

    -- An observation whose transaction is known is planned as an update of it.
    pub plan_known :
        plan_transaction_action (loaded_window c window ids tables) o
        ≡ update_action provider_id o t
    unfolding plan_transaction_action
    plan_known =
        ap (plan_strong (loaded_window c window ids tables) o) strong_sole
        ∙ strong_found (loaded_window c window ids tables) o match t identified
