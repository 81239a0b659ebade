-- ===== src/Formatter/Reading.antt =====
-- What a reader of the formatted objects of internal/formatters/block_formatter.ts gets back: the numbers
-- and amounts of the node's objects, and the fields that are copied.
use chain_indexer_framework.Prelude.{
  ℕ, ◌≡◌, refl, ap, ap₂, Option, none, some, List, [], ◌∷◌, map, All,
}
use chain_indexer_framework.Formatter.Types.{
  Amount, number, text, Receipt, Transaction, Web3Log, Web3Receipt, Web3Transaction, Libraries,
  OwnLog, OwnReceipt, OwnTransaction,
}
use chain_indexer_framework.Formatter.Format.{
  hex_if_given, long_if_given, format_log, format_transaction_receipt, format_transaction_object,
}
use chain_indexer_framework.Formatter.Laws.{
  Documented, map_option, IsSafe, IsAmount, IsSafeLog, IsSafeReceipt, IsSafeTransaction,
}

module _ (lib : Libraries) (laws : Documented lib) where
  -- The node's objects with each amount as the number that it means.
  abbrev pub receipt_meaning : Web3Receipt → Receipt ℕ ℕ Web3Log
  receipt_meaning receipt = record {
    transaction_hash = receipt.transaction_hash;
    transaction_index = receipt.transaction_index;
    from_address = receipt.from_address;
    to_address = receipt.to_address;
    block_number = receipt.block_number;
    block_hash = receipt.block_hash;
    contract_address = receipt.contract_address;
    gas_used = receipt.gas_used;
    cumulative_gas_used = receipt.cumulative_gas_used;
    logs = receipt.logs;
    logs_bloom = receipt.logs_bloom;
    status = receipt.status;
    effective_gas_price = map_option laws.meaning receipt.effective_gas_price;
  }

  abbrev pub transaction_meaning : Web3Transaction → Transaction ℕ ℕ ℕ
  transaction_meaning t = record {
    hash = t.hash;
    nonce = t.nonce;
    block_hash = t.block_hash;
    block_number = t.block_number;
    transaction_index = t.transaction_index;
    from_address = t.from_address;
    to_address = t.to_address;
    value = laws.meaning t.value;
    gas_price = laws.meaning t.gas_price;
    gas = t.gas;
    input = t.input;
    max_fee_per_gas = map_option laws.meaning t.max_fee_per_gas;
    max_priority_fee_per_gas = map_option laws.meaning t.max_priority_fee_per_gas;
    chain_id = t.chain_id;
    v = t.v;
    r = t.r;
    s = t.s;
    kind = t.kind;
  }

  abbrev pub read_log : OwnLog lib → Web3Log
  read_log log = record {
    address = log.address;
    contents = log.contents;
    log_index = lib.to_number log.log_index;
    topics = log.topics;
    transaction_hash = log.transaction_hash;
    transaction_index = lib.to_number log.transaction_index;
    block_hash = log.block_hash;
    block_number = lib.to_number log.block_number;
    removed = log.removed;
  }

  abbrev pub read_receipt : OwnReceipt lib → Receipt ℕ ℕ Web3Log
  read_receipt receipt = record {
    transaction_hash = receipt.transaction_hash;
    transaction_index = lib.to_number receipt.transaction_index;
    from_address = receipt.from_address;
    to_address = receipt.to_address;
    block_number = lib.to_number receipt.block_number;
    block_hash = receipt.block_hash;
    contract_address = receipt.contract_address;
    gas_used = lib.to_number receipt.gas_used;
    cumulative_gas_used = lib.to_number receipt.cumulative_gas_used;
    logs = map read_log receipt.logs;
    logs_bloom = receipt.logs_bloom;
    status = receipt.status;
    effective_gas_price = map_option laws.hex_value receipt.effective_gas_price;
  }

  abbrev pub read_transaction : OwnTransaction lib → Transaction ℕ ℕ ℕ
  read_transaction own =
      let t = own.fields in
      record {
        hash = t.hash;
        nonce = lib.to_number t.nonce;
        block_hash = t.block_hash;
        block_number = map_option lib.to_number t.block_number;
        transaction_index = map_option lib.to_number t.transaction_index;
        from_address = t.from_address;
        to_address = t.to_address;
        value = laws.hex_value t.value;
        gas_price = laws.hex_value t.gas_price;
        gas = lib.to_number t.gas;
        input = t.input;
        max_fee_per_gas = map_option laws.hex_value t.max_fee_per_gas;
        max_priority_fee_per_gas = map_option laws.hex_value t.max_priority_fee_per_gas;
        chain_id = t.chain_id;
        v = t.v;
        r = t.r;
        s = t.s;
        kind = t.kind;
      }

  hex_read :
      (a : Option Amount)
      → IsAmount a
      → map_option laws.hex_value (hex_if_given lib a) ≡ map_option laws.meaning a
  hex_read none h = refl
  hex_read (some (number n)) h = ap some (laws.hex_means (number n))
  hex_read (some (text t)) h = rw h (ap some (laws.hex_means (text t)))

  long_read : (n : Option ℕ) → IsSafe n → map_option lib.to_number (long_if_given lib n) ≡ n
  long_read none h = refl
  long_read (some n) h = ap some (laws.long_number n h)

  log_read : (log : Web3Log) → IsSafeLog log → read_log (format_log lib log) ≡ log
  unfolding format_log
  log_read log h =
      rw
        (
          laws.long_number log.log_index h.log_index,
          laws.long_number log.transaction_index h.transaction_index,
          laws.long_number log.block_number h.block_number,
        )
        refl

  logs_read :
      (logs : List Web3Log) → All IsSafeLog logs → map read_log (map (format_log lib) logs) ≡ logs
  logs_read [] h = refl
  logs_read (log ∷ logs) h = ap₂ ◌∷◌ (log_read log h.0) (logs_read logs h.1)

  receipt_read :
      (receipt : Web3Receipt)
      → IsSafeReceipt receipt
      → read_receipt (format_transaction_receipt lib receipt) ≡ receipt_meaning receipt
  unfolding format_transaction_receipt
  receipt_read receipt h =
      rw
        (
          laws.long_number receipt.transaction_index h.transaction_index,
          laws.long_number receipt.block_number h.block_number,
          laws.long_number receipt.gas_used h.gas_used,
          laws.long_number receipt.cumulative_gas_used h.cumulative_gas_used,
          logs_read receipt.logs h.logs,
          hex_read receipt.effective_gas_price h.effective_gas_price,
        )
        refl

  -- A transaction with its receipt that the formatter has made has the fields of those of the node, which
  -- a reader gets back through `toNumber` and the value of a hexadecimal text: each number below 2^53 as
  -- it was, in the logs too, each amount by its value, and what is missing as missing, while 0 is kept.
  pub format_transaction_object-read :
      (t : Web3Transaction) (receipt : Web3Receipt)
      → IsSafeTransaction t
      → IsSafeReceipt receipt
      → let own = format_transaction_object lib t (format_transaction_receipt lib receipt) in
        (read_transaction own ≡ transaction_meaning t)
        × (read_receipt own.receipt ≡ receipt_meaning receipt)
  unfolding format_transaction_object
  format_transaction_object-read t receipt h g = (
    rw
        (
          laws.long_number t.nonce h.nonce,
          laws.long_number t.gas h.gas,
          long_read t.block_number h.block_number,
          long_read t.transaction_index h.transaction_index,
          laws.hex_means t.value,
          laws.hex_means t.gas_price,
          hex_read t.max_fee_per_gas h.max_fee_per_gas,
          hex_read t.max_priority_fee_per_gas h.max_priority_fee_per_gas,
        )
        refl,
    receipt_read receipt g,
  )
