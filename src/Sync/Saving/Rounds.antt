-- ===== src/Sync/Saving/Rounds.antt =====
-- What a round of the loop of saves has done, and where its identifiers come from.
use sumweave.Base.{
  ℕ, suc, ◌≤◌, ◌≡◌, ◌≢◌, refl, sym, ap, subst, ◌⊎◌, inl, inr, false, Option, none, some, List, ◌∷◌,
}
use sumweave.Base.Text.{Str, str_eq}
use sumweave.Sync.Saving.Rows.{IsRow}
use sumweave.Sync.Diff.{has_provider_id}
use sumweave.Base.{[], ◌∷◌, ◌<◌, All, keep}
use sumweave.Sync.Types.{TransactionMatch}
use sumweave.Sync.Types.{Transaction, TransactionObservation, ProviderAccount}
use sumweave.Sync.Diff.{MatchStrategy, create_action}
use sumweave.Sync.Apply.{TransactionWrite}
use sumweave.Sync.Saving.{
  SaveContext, SaveState, Saved, saved, save_failed, build_from, build_transaction_write,
  created_transaction, match_identity, existing_snapshot_match, save_rows, saved_unless, save_built,
  save_then, created_in, resolve_provider_account, save_write, save_transaction_writes,
}

pub saved_injective : (a b : SaveState) → saved a ≡ saved b → a ≡ b
saved_injective a b e = cc

save_then-saved :
    (s : Saved) (f : SaveState → Saved) (st' : SaveState)
    → save_then s f ≡ saved st'
    → (next : SaveState) × (s ≡ saved next) × (f next ≡ saved st')
save_then-saved (save_failed e) f st' h = cc
save_then-saved (saved st) f st' h = (st, refl, h)

abbrev id_in : Str → Option (Transaction × ℕ) → Str
id_in id none = id
id_in id (some (t, n)) = t.id

abbrev drawn_in : ℕ → Option (Transaction × ℕ) → ℕ
drawn_in n none = n
drawn_in n (some (t, k)) = k

abbrev transaction_in : Transaction → Option (Transaction × ℕ) → Transaction
transaction_in u none = u
transaction_in u (some (t, n)) = t

pub created_in_lem :
    (c : SaveContext) (o : TransactionObservation) (d n : ℕ) (a : Option ProviderAccount)
    (t : Transaction)
    → created_in c o d a ≡ some (t, n)
    → (b : ProviderAccount) × (t ≡ created_transaction c o (c.new_id d) b.finance_account_id)
      × (n ≡ suc d)
created_in_lem c o d n none t e = cc
created_in_lem c o d n (some b) t e = (b, sym (ap (transaction_in t) e), sym (ap (drawn_in n) e))

saved_unless_lem :
    (f g : Option Str) (st st' : SaveState) → saved_unless f g st ≡ saved st' → st ≡ st'
saved_unless_lem (some e) g st st' h = cc
saved_unless_lem none (some e) st st' h = cc
saved_unless_lem none none st st' h = saved_injective st st' h

-- The write `create` of an observation.
abbrev pub create_write : MatchStrategy → TransactionObservation → TransactionWrite
create_write s o = record { action = create_action s o; merged_transaction = none }

module _ (c : SaveContext) where
  -- What a round that succeeds has done.
  abbrev pub Round : TransactionWrite → SaveState → SaveState → Type 0
  Round w st st' =
      (t : Transaction) × (n : ℕ) × (build_transaction_write c w st.drawn ≡ some (t, n))
      × (save_rows c w.action.observation t
            (match_identity c (existing_snapshot_match w.action c.snapshot_matches) n) st
          ≡ st')

  save_built-Round :
      (k : ℕ) (w : TransactionWrite) (st st' : SaveState) (r : Option (Transaction × ℕ))
      → build_transaction_write c w st.drawn ≡ r
      → save_built c k w r st ≡ saved st'
      → Round w st st'
  save_built-Round k w st st' none e h = cc
  save_built-Round k w st st' (some (t, n)) e h =
      (t, n, e, saved_unless_lem (c.transaction_fault k) (c.match_fault k) _ st' h)

  save_write-Round :
      (k : ℕ) (w : TransactionWrite) (st st' : SaveState)
      → save_write c k w st ≡ saved st'
      → Round w st st'
  unfolding save_write
  save_write-Round k w st st' h =
      save_built-Round k w st st' (build_transaction_write c w st.drawn) refl h

  pub rest_saved :
      (k : ℕ) (w : TransactionWrite) (ws : List TransactionWrite) (st st' : SaveState)
      → save_transaction_writes c k (w ∷ ws) st ≡ saved st'
      → (next : SaveState) × Round w st next
        × (save_transaction_writes c (suc k) ws next ≡ saved st')
  unfolding save_transaction_writes
  rest_saved k w ws st st' h =
      let (next, went, rest) =
        save_then-saved (save_write c k w st) (λ s. save_transaction_writes c (suc k) ws s) st' h in
      (next, save_write-Round k w st next went, rest)

  -- An identifier that is not drawn from the nth on.
  abbrev pub Unused : ℕ → Str → Type 0
  Unused n id = (k : ℕ) → n ≤ k → id ≢ c.new_id k

  -- Where an identifier comes from: from a row, or drawn as the next.
  abbrev pub IsDrawn : ℕ → ℕ → Str → Type 0
  IsDrawn d n id = (Unused 0 id × (n ≡ d)) ⊎ ((id ≡ c.new_id d) × (n ≡ suc d))

  abbrev pub MergedUnused : Option Transaction → Type 0
  MergedUnused none = Unit
  MergedUnused (some t) = Unused 0 t.id

  -- Rows and writes that the generator cannot hit, and that are of other transactions than the observation's.
  abbrev pub IsOther : TransactionObservation → TransactionWrite → Type 0
  IsOther o w =
      (str_eq w.action.observation.provider_transaction_id o.provider_transaction_id ≡ false)
      × MergedUnused w.merged_transaction

  -- Before the observation's write: nothing is known of it, and no row has an identifier still to be drawn.
  pub record IsUnknown (o : TransactionObservation) (st : SaveState) : Type 0 where
    pub transactions_unused : All (λ t. Unused st.drawn t.id) st.tables.transactions
    pub matches_unused : All (λ m. Unused st.drawn m.id) st.tables.matches
    pub absent : keep (has_provider_id o) st.tables.matches ≡ []

  -- After it: the row of its transaction and its match are there, under identifiers drawn by now.
  pub record IsAfter (o : TransactionObservation) (t : Transaction) (st : SaveState) : Type 0 where
    pub nth : ℕ
    pub mth : ℕ
    pub match : TransactionMatch
    pub transaction_drawn : nth < st.drawn
    pub match_drawn : mth < st.drawn
    pub is_row : IsRow (c.new_id nth) t st.tables.transactions
    pub sole : keep (has_provider_id o) st.tables.matches ≡ match ∷ []
    pub named : match.transaction_id ≡ c.new_id nth
    pub match_id : match.id ≡ c.new_id mth

  pub build-IsDrawn :
      (o : TransactionObservation) (d n : ℕ) (merged : Option Transaction) (t : Transaction)
      → MergedUnused merged
      → build_from c o d merged ≡ some (t, n)
      → IsDrawn d n t.id
  build-IsDrawn o d n (some u) t unused e =
      inl (subst (Unused 0) (ap (id_in u.id) e) unused, sym (ap (drawn_in n) e))
  build-IsDrawn o d n none t unused e =
      let (b, same, next) =
        created_in_lem c o d n (resolve_provider_account c.accounts o.provider_account_id) t e in
      inr (ap (λ x. x.id) same, next)
