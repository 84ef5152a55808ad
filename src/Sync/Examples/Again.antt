-- ===== src/Sync/Examples/Again.antt =====
-- The theorem on saving and loading again, where two transactions are created.
use sumweave.Base.{ℕ, zero, suc, ◌≡◌, refl, ap, none, [], ◌∷◌, true, false, arith, length}
use sumweave.Base.Text.{Str, bytes, str_eq}
use sumweave.Base.Dict.{lookup, insert}
use sumweave.Sync.Types.{TransactionObservation, ProviderAccount, WindowSnapshot}
use sumweave.Sync.Diff.{new, provider_id, plan_transaction_action, update_action}
use sumweave.Sync.Apply.{build_provider_original}
use sumweave.Sync.Executor.{in_identities, identity_of}
use sumweave.Sync.Orchestrator.{returns}
use sumweave.Sync.Loading.{LoadFaults, load_existing_window, loaded_window}
use sumweave.Sync.Saving.{
  SaveContext, SaveState, Saved, saved, save_failed, save_transaction_writes, save_write,
  save_transaction, save_provider_transaction_match, existing_snapshot_match, created_transaction,
}
use sumweave.Sync.Saving.Rounds.{create_write}
use sumweave.Sync.Saving.Again.{plan_created_again}
use sumweave.Sync.Examples.{connection, target, observed}

-- The generator's nth text has n letters.
abbrev names : ℕ → Str
names zero = []
names (suc n) = b'x' ∷ names n

length-names : (n : ℕ) → length (names n) ≡ n
length-names zero = refl
length-names (suc n) = ap suc (length-names n)

names_injective : (n k : ℕ) → names n ≡ names k → n ≡ k
names_injective n k e = omega (arith, length-names n, length-names k, ap length e)

abbrev earlier : TransactionObservation
earlier = record observed { provider_transaction_id = bytes "x0" }

abbrev mapped : ProviderAccount
mapped = record {
  id = bytes "m";
  connection_id = bytes "c1";
  provider_account_id = bytes "p1";
  finance_account_id = bytes "a1";
  name = [];
  currency = bytes "EUR";
  iban = [];
  masked_pan = [];
  last_successful_sync_at = none;
  created_at = 1;
  updated_at = 1;
}

abbrev context : SaveContext
context = record {
  connection = connection;
  tenant_id = bytes "tenant";
  accounts = (bytes "p1", mapped) ∷ [];
  snapshot_matches = [];
  new_id = names;
  now = 5020;
  transaction_fault = λ n. none;
  match_fault = λ n. none;
}

abbrev at_first : SaveState
at_first = record {
  tables = record { accounts = mapped ∷ []; transactions = []; matches = [] };
  drawn = 0;
  saved_transactions = [];
}

abbrev state_in : Saved → SaveState
state_in (saved st) = st
state_in (save_failed e) = at_first

abbrev at_last : SaveState
at_last = state_in (
    save_transaction_writes context 0 (create_write new earlier ∷ create_write new observed ∷ [])
      at_first)

abbrev no_faults : LoadFaults
no_faults = record {
  accounts_fault = none;
  transactions_fault = none;
  matches_fault = none;
  identities_fault = none;
  identity_transactions_fault = none;
}

abbrev loaded : WindowSnapshot
loaded = loaded_window connection target (identity_of observed ∷ []) at_last.tables

saves :
    save_transaction_writes context 0
      (create_write new earlier ∷ create_write new observed ∷ [])
      at_first
    ≡ saved at_last
unfolding save_transaction_writes save_write save_transaction save_provider_transaction_match
    existing_snapshot_match lookup insert str_eq build_provider_original
saves = refl

loads :
    load_existing_window no_faults connection target (identity_of observed ∷ []) at_last.tables
    ≡ returns loaded
unfolding load_existing_window
loads = refl

is_asked : in_identities (identity_of observed) (identity_of observed ∷ []) ≡ true
unfolding in_identities str_eq
is_asked = refl

is_other : str_eq (bytes "x0") (bytes "x1") ≡ false
unfolding str_eq
is_other = refl

plan_created_again_example :
    (n : ℕ) × (a : Str) × (plan_transaction_action loaded observed
      ≡ update_action provider_id observed (created_transaction context observed (names n) a))
plan_created_again_example =
    plan_created_again context observed new (create_write new earlier ∷ []) [] at_first at_last
      no_faults connection target (identity_of observed ∷ []) loaded names_injective tt
      ((is_other, tt), tt) tt
      (record { transactions_unused = tt; matches_unused = tt; absent = refl }) refl refl refl
      is_asked saves loads
