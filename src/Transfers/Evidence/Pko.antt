-- ===== src/Transfers/Evidence/Pko.antt =====
-- `ExtractTransferMatchingEvidence` of finance/internal/pko/transfer_matching_evidence.go, and
-- `transferMatchingPKOEvidenceFor` of finance/service_transfer_matching.go. What `json.Unmarshal` makes of a
-- document is a parameter.
use sumweave.Base.{
  ℕ, ◌-◌, Bool, true, false, Option, none, some, List, [], ◌∷◌, ◌&&◌, ◌||◌, not, leb, if◌then◌else◌,
  is_nil, ◌>>=◌, ◌>>◌, guard,
}
use sumweave.Base.Text.{Str, str_eq, bytes, is_empty}
use sumweave.Base.Int.{ℤ, pos, ◌==ℤ◌, ltb_ℤ}
use sumweave.Transfers.Types.{TransferMatchingTransaction, PkoEvidence, min_int64, negate}
use sumweave.Transfers.Evidence.Amounts.{parse_amount_minor}

-- A nested object is `none` where it is null or missing.
pub record PkoSnapshot : Type 0 where
  pub amount : Option Str
  pub currency : Option Str
  pub credit_debit_indicator : Option Str
  pub remittance_information : List Str
  pub debtor_account : Option (Option Str)
  pub creditor_account : Option (Option Str)

pub record PkoCodec : Type 0 where
  pub decode : Str → Option PkoSnapshot

pub record PkoInput : Type 0 where
  pub provider_id : Str
  pub connector_id : Str
  pub tracked_account_iban : Str
  pub current_amount_minor : ℤ
  pub current_currency : Str
  pub provider_original_amount_minor : Option ℤ
  pub provider_original_currency : Option Str
  pub snapshot_json : Str

abbrev pub has_required_input : PkoInput → Bool
has_required_input input =
    str_eq input.provider_id (bytes "pko")
    && str_eq input.connector_id (bytes "enable-banking")
    && not (is_empty input.tracked_account_iban)
    && not (is_nil input.provider_original_amount_minor)
    && not (is_nil input.provider_original_currency)
    && not (is_empty input.snapshot_json)

-- What `decodeSnapshot` has checked to be there.
pub record DecodedSnapshot : Type 0 where
  pub amount : Str
  pub currency : Str
  pub direction : Str
  pub remittance_information : List Str
  pub debtor_iban : Str
  pub creditor_account : Option (Option Str)

abbrev pub non_empty : Option Str → Option Str
non_empty none = none
non_empty (some s) = if is_empty s then none else some s

abbrev pub iban_of : Option (Option Str) → Option Str
iban_of none = none
iban_of (some iban) = non_empty iban

abbrev is_letter : ℕ → Bool
is_letter b = (leb b'A' b && leb b b'Z') || (leb b'a' b && leb b b'z')

abbrev to_upper : ℕ → ℕ
to_upper b = if leb b'a' b && leb b b'z' then b - 32 else b

unfoldable pub canonical_provider_currency : Str → Option Str
canonical_provider_currency (a ∷ b ∷ c ∷ []) =
    if is_letter a && is_letter b && is_letter c
    then some (to_upper a ∷ to_upper b ∷ to_upper c ∷ [])
    else none
canonical_provider_currency s = none

unfoldable pub snapshot_amount_minor : DecodedSnapshot → Str → Option ℤ
unfolding canonical_provider_currency
snapshot_amount_minor snapshot currency = do
  amount ← parse_amount_minor snapshot.amount
  snapshot_currency ← canonical_provider_currency snapshot.currency
  guard (not (amount ==ℤ pos 0) && not (amount ==ℤ min_int64) && str_eq snapshot_currency currency)
  some amount

unfoldable pub equal_strings : List Str → List Str → Bool
equal_strings [] [] = true
equal_strings [] (t ∷ ts) = false
equal_strings (s ∷ ss) [] = false
equal_strings (s ∷ ss) (t ∷ ts) = str_eq s t && equal_strings ss ts

abbrev pub debit : Str
debit = bytes "DBIT"

abbrev pub credit : Str
credit = bytes "CRDT"

pub record ExchangeRoute : Type 0 where
  pub direction : Str
  pub source_iban : Str
  pub destination_iban : Str
  pub amount : ℤ

abbrev pub debit_route : PkoInput → DecodedSnapshot → ℤ → Option ExchangeRoute
debit_route input snapshot amount = do
  guard (equal_strings snapshot.remittance_information (bytes "EXCHANGE" ∷ bytes "TRANSFER" ∷ []))
  creditor ← iban_of snapshot.creditor_account
  guard (str_eq input.tracked_account_iban snapshot.debtor_iban)
  some (record {
    direction = snapshot.direction;
    source_iban = snapshot.debtor_iban;
    destination_iban = creditor;
    amount = if ltb_ℤ (pos 0) amount then negate amount else amount;
  })

abbrev pub credit_route : PkoInput → DecodedSnapshot → ℤ → Option ExchangeRoute
credit_route input snapshot amount = do
  guard
      (equal_strings snapshot.remittance_information (bytes "EXCHANGE" ∷ bytes "TRANSFER-IN" ∷ []))
  guard (not (ltb_ℤ amount (pos 0)))
  some (record {
    direction = snapshot.direction;
    source_iban = snapshot.debtor_iban;
    destination_iban = input.tracked_account_iban;
    amount = amount;
  })

unfoldable pub exchange_route : PkoInput → DecodedSnapshot → ℤ → Option ExchangeRoute
unfolding equal_strings
exchange_route input snapshot amount =
    if str_eq snapshot.direction debit
    then debit_route input snapshot amount
    else if str_eq snapshot.direction credit
    then credit_route input snapshot amount
    else none

module _ (codec : PkoCodec) where
  open codec use {decode}

  unfoldable pub decode_snapshot : Str → Option DecodedSnapshot
  decode_snapshot value = do
    snapshot ← decode value
    amount ← snapshot.amount
    currency ← snapshot.currency
    direction ← snapshot.credit_debit_indicator
    debtor ← iban_of snapshot.debtor_account
    some (record {
      amount = amount;
      currency = currency;
      direction = direction;
      remittance_information = snapshot.remittance_information;
      debtor_iban = debtor;
      creditor_account = snapshot.creditor_account;
    })

  unfoldable pub extract_pko_evidence : PkoInput → Option PkoEvidence
  unfolding decode_snapshot snapshot_amount_minor exchange_route
  extract_pko_evidence input = do
    guard (has_required_input input)
    snapshot ← decode_snapshot input.snapshot_json
    parsed ← snapshot_amount_minor snapshot input.current_currency
    route ← exchange_route input snapshot parsed
    guard (input.current_amount_minor ==ℤ route.amount)
    original_amount ← input.provider_original_amount_minor
    original_currency ← input.provider_original_currency
    guard (original_amount ==ℤ route.amount && str_eq original_currency input.current_currency)
    some (record {
      direction = route.direction;
      source_iban = route.source_iban;
      destination_iban = route.destination_iban;
      amount_minor = route.amount;
      currency = input.current_currency;
    })

  unfoldable pub transfer_matching_pko_evidence_for :
      TransferMatchingTransaction → Option PkoEvidence
  unfolding extract_pko_evidence
  transfer_matching_pko_evidence_for t = do
    connection ← t.connection_id
    provider ← t.provider_id
    connector ← t.connector_id
    iban ← t.tracked_account_iban
    snapshot ← t.snapshot_json
    extract_pko_evidence (record {
      provider_id = provider;
      connector_id = connector;
      tracked_account_iban = iban;
      current_amount_minor = t.amount_minor;
      current_currency = t.currency;
      provider_original_amount_minor = t.provider_original_amount_minor;
      provider_original_currency = t.provider_original_currency;
      snapshot_json = snapshot;
    })
