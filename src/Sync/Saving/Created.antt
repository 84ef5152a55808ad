-- ===== src/Sync/Saving/Created.antt =====
-- What is known of a created transaction after the later writes of a window.
use sumweave.Base.{
  ℕ, suc, ◌≤◌, ◌<◌, ◌≡◌, ◌≢◌, refl, sym, ◌∙◌, subst, inl, inr, true, false, arith, All, All-map,
}
use sumweave.Base.Text.{Str, str_eq, str_eq_refl}
use sumweave.Sync.Types.{Time, Transaction, TransactionObservation}
use sumweave.Sync.Diff.{has_provider_id}
use sumweave.Sync.Saving.{SaveContext, SaveState, created_transaction, built_match, save_rows}
use sumweave.Sync.Saving.Rows.{
  keep-save_match_other, keep-save_match_new, save_transaction-new, save_transaction_other,
  save_transaction-All, save_match-All,
}
use sumweave.Sync.Saving.Rounds.{IsUnknown, IsAfter, Unused, IsDrawn}

module _ (c : SaveContext) (injective : (n k : ℕ) → c.new_id n ≡ c.new_id k → n ≡ k) where
  IsDrawn-Unused : (d n : ℕ) (id : Str) → IsDrawn c d n id → Unused c n id
  IsDrawn-Unused d n id (inl (unused, e)) k h = unused k (omega arith)
  IsDrawn-Unused d n id (inr (drawn, e)) k h =
      λ same. omega (arith, e, h, injective d k (sym drawn ∙ same))

  Unused-later : (n k : ℕ) (id : Str) → n ≤ k → Unused c n id → Unused c k id
  Unused-later n k id h unused j le = unused j (omega (arith, h, le))

  IsDrawn-later : (d n : ℕ) (id : Str) → IsDrawn c d n id → d ≤ n
  IsDrawn-later d n id (inl (unused, e)) = omega (arith, e)
  IsDrawn-later d n id (inr (drawn, e)) = omega (arith, e)

  IsDrawn-apart : (d n j : ℕ) (id : Str) → IsDrawn c d n id → j < d → id ≢ c.new_id j
  IsDrawn-apart d n j id (inl (unused, e)) h = unused j (omega arith)
  IsDrawn-apart d n j id (inr (drawn, e)) h =
      λ same. omega (arith, h, injective d j (sym drawn ∙ same))

  pub save_rows-IsUnknown :
      (o p : TransactionObservation) (st : SaveState) (t : Transaction) (n : ℕ)
      (drawn : Str × Time × ℕ)
      → str_eq p.provider_transaction_id o.provider_transaction_id ≡ false
      → IsUnknown c o st
      → IsDrawn c st.drawn n t.id
      → IsDrawn c n drawn.2 drawn.0
      → IsUnknown c o (save_rows c p t drawn st)
  save_rows-IsUnknown o p st t n (id, at, k) other before from_t from_m =
      let late : n ≤ k = IsDrawn-later n k id from_m in
      let later : st.drawn ≤ k = omega (arith, IsDrawn-later st.drawn n t.id from_t, late) in
      record {
        transactions_unused =
            save_transaction-All (Unused c k) t st.tables.transactions
              (Unused-later n k t.id late (IsDrawn-Unused st.drawn n t.id from_t))
              (All-map (λ u. Unused c st.drawn u.id) (λ u. Unused c k u.id)
                (λ u. Unused-later st.drawn k u.id later) st.tables.transactions
                before.transactions_unused);
        matches_unused =
            save_match-All (Unused c k) (built_match c p t (id, at, k)) st.tables.matches
              (IsDrawn-Unused n k id from_m)
              (All-map (λ m. Unused c st.drawn m.id) (λ m. Unused c k m.id)
                (λ m. Unused-later st.drawn k m.id later) st.tables.matches before.matches_unused);
        absent =
            keep-save_match_other o (built_match c p t (id, at, k)) st.tables.matches other
              (subst (All (λ r. r.id ≢ id)) (sym before.absent) tt)
            ∙ before.absent;
      }

  pub save_rows-IsAfter :
      (o p : TransactionObservation) (u : Transaction) (st : SaveState) (t : Transaction) (n : ℕ)
      (drawn : Str × Time × ℕ)
      → str_eq p.provider_transaction_id o.provider_transaction_id ≡ false
      → IsAfter c o u st
      → IsDrawn c st.drawn n t.id
      → IsDrawn c n drawn.2 drawn.0
      → IsAfter c o u (save_rows c p t drawn st)
  save_rows-IsAfter o p u st t n (id, at, k) other after from_t from_m =
      let late : n ≤ k = IsDrawn-later n k id from_m in
      let later : st.drawn ≤ n = IsDrawn-later st.drawn n t.id from_t in
      let new_transaction =
        IsDrawn-apart st.drawn n after.nth t.id from_t after.transaction_drawn in
      let new_match =
        IsDrawn-apart n k after.mth id from_m (omega (arith, later, after.match_drawn)) in
      let apart : after.match.id ≢ id = λ e. new_match (sym e ∙ after.match_id) in
      record {
        nth = after.nth;
        mth = after.mth;
        match = after.match;
        transaction_drawn = omega (arith, late, later, after.transaction_drawn);
        match_drawn = omega (arith, late, later, after.match_drawn);
        is_row =
            save_transaction_other u t (c.new_id after.nth) st.tables.transactions new_transaction
              after.is_row;
        sole =
            keep-save_match_other o (built_match c p t (id, at, k)) st.tables.matches other
              (subst (All (λ r. r.id ≢ id)) (sym after.sole) (apart, tt))
            ∙ after.sole;
        named = after.named;
        match_id = after.match_id;
      }

  pub created_rows :
      (o : TransactionObservation) (st : SaveState) (account : Str)
      → o.connection.connection_id ≡ c.connection.connection_id
      → IsUnknown c o st
      → IsAfter c o (created_transaction c o (c.new_id st.drawn) account) (
          save_rows c o
            (created_transaction c o (c.new_id st.drawn) account)
            (c.new_id (suc st.drawn), c.now, suc (suc st.drawn))
            st)
  created_rows o st account same before =
      let t = created_transaction c o (c.new_id st.drawn) account in
      let m = built_match c o t (c.new_id (suc st.drawn), c.now, suc (suc st.drawn)) in
      let speaks : has_provider_id o m ≡ true = rw (sym same) (
        rw
          (
            str_eq_refl o.connection.connection_id,
            str_eq_refl o.provider_account_id,
            str_eq_refl o.provider_transaction_id,
          )
          refl) in
      record {
        nth = st.drawn;
        mth = suc st.drawn;
        match = m;
        transaction_drawn = omega arith;
        match_drawn = omega arith;
        is_row = save_transaction-new t st.tables.transactions (
            All-map (λ u. Unused c st.drawn u.id) (λ u. u.id ≢ t.id)
              (λ u h. h st.drawn (omega arith)) st.tables.transactions before.transactions_unused);
        sole =
            keep-save_match_new o m st.tables.matches speaks
              (All-map (λ r. Unused c st.drawn r.id) (λ r. r.id ≢ m.id)
                (λ r h. h (suc st.drawn) (omega arith)) st.tables.matches before.matches_unused)
              before.absent;
        named = refl;
        match_id = refl;
      }
