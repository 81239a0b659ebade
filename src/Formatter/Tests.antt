-- ===== src/Formatter/Tests.antt =====
-- A small instance of Long and web3-utils, and concrete formatted objects.
use Prim.Native.String.{count}
use package.text.Mathlib.TextLemmas.{length-cons}
use chain_indexer_framework.Prelude.{
  ℕ, zero, suc, ◌≡◌, refl, ap, ◌∙◌, String, true, none, some, [], ◌∷◌, arith,
}
use chain_indexer_framework.Formatter.Types.{
  Amount, number, text, Web3Block, Web3Log, Web3Receipt, Web3Transaction, Libraries,
}
use chain_indexer_framework.Formatter.Format.{
  format_transaction_receipt, format_transaction_object, hex_if_given, long_if_given,
}
use chain_indexer_framework.Formatter.Laws.{Documented, IsSafeReceipt, IsSafeTransaction}
use chain_indexer_framework.Formatter.Reading.{
  read_transaction, transaction_meaning, read_receipt, receipt_meaning,
  format_transaction_object-read,
}

-- A number is written with as many strokes.
abbrev strokes : ℕ → String
strokes zero = ""
strokes (suc n) = String.◌∷◌ "1" (strokes n)

strokes_count : (n : ℕ) → count (strokes n) ≡ n
strokes_count zero = refl
strokes_count (suc n) = length-cons "1" (strokes n) ∙ ap suc (strokes_count n)

abbrev amount_number : Amount → ℕ
amount_number (number n) = n
amount_number (text t) = count t

abbrev amount_strokes : Amount → String
amount_strokes (number n) = strokes n
amount_strokes (text t) = t

amount_strokes_count : (a : Amount) → count (amount_strokes a) ≡ amount_number a
amount_strokes_count (number n) = strokes_count n
amount_strokes_count (text t) = refl

abbrev pub sample_transaction : String → Web3Transaction
sample_transaction hash = record {
  hash = hash;
  nonce = 2;
  block_hash = some "0xb";
  block_number = some 7;
  transaction_index = some 0;
  from_address = "0xf";
  to_address = none;
  value = text "111";
  gas_price = number 3;
  gas = 21000;
  input = "0x";
  max_fee_per_gas = some (number 0);
  max_priority_fee_per_gas = none;
  chain_id = "0x1";
  v = "0x0";
  r = "0x1";
  s = "0x2";
  kind = 0;
}

abbrev pub sample_log : Web3Log
sample_log = record {
  address = "0xc";
  contents = "0x";
  log_index = 0;
  topics = "0xt" ∷ [];
  transaction_hash = "0xa";
  transaction_index = 0;
  block_hash = "0xb";
  block_number = 7;
  removed = none;
}

abbrev pub sample_receipt : String → Web3Receipt
sample_receipt hash = record {
  transaction_hash = hash;
  transaction_index = 0;
  from_address = "0xf";
  to_address = "0xc";
  block_number = 7;
  block_hash = "0xb";
  contract_address = none;
  gas_used = 21000;
  cumulative_gas_used = 42000;
  logs = sample_log ∷ [];
  logs_bloom = "0x";
  status = true;
  effective_gas_price = some (text "11");
}

abbrev pub sample_block : Web3Block
sample_block = record {
  parts = record {
    logs_bloom = "0x";
    hash = "0xb";
    parent_hash = "0xa";
    receipts_root = "0x";
    sha3_uncles = "0x";
    state_root = "0x";
    transactions_root = "0x";
    miner = "0x";
    extra_data = "0x";
  };
  nonce = "0x";
  difficulty = number 0;
  total_difficulty = number 1;
  timestamp = 1600000000;
  number = 7;
  base_fee_per_gas = some (number 0);
  size = number 1;
  gas_limit = 30000000;
  gas_used = 21000;
  transactions = sample_transaction "0xa" ∷ [];
}

abbrev pub sample_libraries : Libraries
sample_libraries = record {
  Long = ℕ;
  from_value = amount_number;
  to_number = λ n. n;
  to_hex = amount_strokes;
  hex_to_number = count;
  hex_to_number_string = λ t. t;
  parse_int = count;
  output_log_formatter = λ log. sample_log;
  output_transaction_formatter = λ raw. sample_transaction raw.hash;
  output_block_formatter = λ raw. sample_block;
}

sample_laws : Documented sample_libraries
sample_laws = record {
  meaning = amount_number;
  hex_value = count;
  number_means = λ n. refl;
  long_number = λ n h. refl;
  hex_means = amount_strokes_count;
}

sample_transaction-IsSafe : IsSafeTransaction (sample_transaction "0xa")
sample_transaction-IsSafe = record {
  nonce = omega arith;
  gas = omega arith;
  block_number = omega arith;
  transaction_index = omega arith;
  max_fee_per_gas = tt;
  max_priority_fee_per_gas = tt;
}

sample_receipt-IsSafe : IsSafeReceipt (sample_receipt "0xa")
sample_receipt-IsSafe = record {
  transaction_index = omega arith;
  block_number = omega arith;
  gas_used = omega arith;
  cumulative_gas_used = omega arith;
  logs = (
    record { log_index = omega arith; transaction_index = omega arith; block_number = omega arith },
    tt,
  );
  effective_gas_price = refl;
}

format_transaction_object-read_example :
    let own =
      format_transaction_object sample_libraries
        (sample_transaction "0xa")
        (format_transaction_receipt sample_libraries (sample_receipt "0xa")) in
    (read_transaction sample_libraries sample_laws own
      ≡ transaction_meaning sample_libraries sample_laws (sample_transaction "0xa"))
    × (read_receipt sample_libraries sample_laws own.receipt
        ≡ receipt_meaning sample_libraries sample_laws (sample_receipt "0xa"))
format_transaction_object-read_example =
    format_transaction_object-read sample_libraries sample_laws (sample_transaction "0xa")
      (sample_receipt "0xa") sample_transaction-IsSafe sample_receipt-IsSafe

-- An amount of 0 is kept, and an empty text counts as missing.
zero_kept :
    (hex_if_given sample_libraries (some (number 0)) ≡ some "")
    × (hex_if_given sample_libraries (some (text "")) ≡ none)
    × (long_if_given sample_libraries (some 0) ≡ some 0)
zero_kept = (refl, refl, refl)
