-- ===== src/Transfers/Evidence/Monobank.antt =====
-- `ExtractTransferMatchingEvidence` of finance/internal/monobank/transfer_matching_evidence.go, and
-- `transferMatchingMonobankEvidenceFor` of finance/service_transfer_matching.go. What `json.Unmarshal` makes of
-- a document is a parameter.
use sumweave.Base.{Bool, true, Option, none, some, [], ◌&&◌, not, if◌then◌else◌, ◌>>=◌, ◌>>◌, guard}
use sumweave.Base.Text.{Str, str_eq, bytes, is_empty}
use sumweave.Base.Int.{ℤ, pos, ◌==ℤ◌, ltb_ℤ}
use sumweave.Transfers.Types.{TransferMatchingTransaction, MonobankEvidence, min_int64}

pub record MonobankSnapshot : Type 0 where
  pub amount : Option ℤ
  pub operation_amount : Option ℤ
  pub currency_code : Option ℤ
  pub mcc : Option ℤ
  pub original_mcc : Option ℤ

pub record MonobankCodec : Type 0 where
  pub decode : Str → Option MonobankSnapshot

-- `currencyCodeToISO` of connector.go.
abbrev pub currency_code_to_iso : ℤ → Str
currency_code_to_iso code =
    if code ==ℤ pos 980
    then bytes "UAH"
    else if code ==ℤ pos 978
    then bytes "EUR"
    else if code ==ℤ pos 840
    then bytes "USD"
    else []

pub record MonobankInput : Type 0 where
  pub connector_id : Str
  pub current_amount_minor : ℤ
  pub current_currency : Str
  pub provider_original_amount_minor : Option ℤ
  pub provider_original_currency : Option Str
  pub snapshot_json : Str

abbrev pub monobank_transfer_matching_mcc : ℤ
monobank_transfer_matching_mcc = pos 4829

abbrev pub is_usable_amount : ℤ → Bool
is_usable_amount amount = not (amount ==ℤ pos 0) && not (amount ==ℤ min_int64)

abbrev pub is_transfer_mcc : Option ℤ → Bool
is_transfer_mcc none = true
is_transfer_mcc (some mcc) = mcc ==ℤ monobank_transfer_matching_mcc

abbrev pub is_negative : ℤ → Bool
is_negative amount = ltb_ℤ amount (pos 0)

abbrev pub same_sign : ℤ → ℤ → Bool
same_sign a b = if is_negative a then is_negative b else not (is_negative b)

module _ (codec : MonobankCodec) where
  open codec use {decode}

  unfoldable pub extract_monobank_evidence : MonobankInput → Option MonobankEvidence
  extract_monobank_evidence input = do
    guard (str_eq input.connector_id (bytes "monobank"))
    original_amount ← input.provider_original_amount_minor
    original_currency ← input.provider_original_currency
    guard (not (is_empty input.snapshot_json))
    snapshot ← decode input.snapshot_json
    amount ← snapshot.amount
    operation_amount ← snapshot.operation_amount
    code ← snapshot.currency_code
    mcc ← snapshot.mcc
    guard (is_usable_amount amount && is_usable_amount operation_amount)
    guard (is_transfer_mcc (some mcc) && is_transfer_mcc snapshot.original_mcc)
    guard (not (is_empty (currency_code_to_iso code)))
    guard (not (str_eq (currency_code_to_iso code) input.current_currency))
    guard (original_amount ==ℤ amount && str_eq original_currency input.current_currency)
    guard (input.current_amount_minor ==ℤ original_amount)
    guard (same_sign input.current_amount_minor operation_amount)
    some (record {
      amount_minor = amount;
      operation_amount_minor = operation_amount;
      operation_currency = currency_code_to_iso code;
    })

  unfoldable pub transfer_matching_monobank_evidence_for :
      TransferMatchingTransaction → Option MonobankEvidence
  unfolding extract_monobank_evidence
  transfer_matching_monobank_evidence_for t = do
    connection ← t.connection_id
    connector ← t.connector_id
    snapshot ← t.snapshot_json
    extract_monobank_evidence (record {
      connector_id = connector;
      current_amount_minor = t.amount_minor;
      current_currency = t.currency;
      provider_original_amount_minor = t.provider_original_amount_minor;
      provider_original_currency = t.provider_original_currency;
      snapshot_json = snapshot;
    })
