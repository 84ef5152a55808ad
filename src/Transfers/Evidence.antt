-- ===== src/Transfers/Evidence.antt =====
-- The evidence of a transaction: finance/fx_evidence.go, and the extraction in
-- finance/internal/monobank/transfer_matching_evidence.go and
-- finance/internal/pko/transfer_matching_evidence.go.
pub mod Fx
pub mod Amounts
pub mod Monobank
pub mod Pko
pub mod Rates
pub mod Printing
use sumweave.Base.{Option, none, List, [], ◌∷◌}
use sumweave.Transfers.Types.{TransferMatchingTransaction, IndexedTransaction}
use sumweave.Transfers.Fx.{Currencies}
use sumweave.Transfers.Evidence.Fx.{extract_fx_evidence}
use sumweave.Transfers.Evidence.Monobank.{MonobankCodec, transfer_matching_monobank_evidence_for}
use sumweave.Transfers.Evidence.Pko.{PkoCodec, transfer_matching_pko_evidence_for}

-- The code that the repository only calls: the currency library and the two JSON decoders.
pub record Libraries : Type 0 where
  pub currencies : Currencies
  pub monobank : MonobankCodec
  pub pko : PkoCodec

-- What the loop of `transferMatchingIndex` builds for a transaction.
unfoldable pub index_transaction : Libraries → TransferMatchingTransaction → IndexedTransaction
unfolding extract_fx_evidence transfer_matching_monobank_evidence_for
    transfer_matching_pko_evidence_for
index_transaction l t = record {
  transaction = t;
  evidence = extract_fx_evidence l.currencies t.description;
  monobank_evidence = transfer_matching_monobank_evidence_for l.monobank t;
  pko_evidence = transfer_matching_pko_evidence_for l.pko t;
}

unfoldable pub index_transactions :
    Libraries → List TransferMatchingTransaction → List IndexedTransaction
unfolding index_transaction
index_transactions l [] = []
index_transactions l (t ∷ ts) = index_transaction l t ∷ index_transactions l ts
