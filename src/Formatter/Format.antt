-- ===== src/Formatter/Format.antt =====
-- The methods of `BlockFormatter` in internal/formatters/block_formatter.ts. The object spread `...x` is
-- the copy of the fields that are not named.
use chain_indexer_framework.Prelude.{
  ℕ, ◌*◌, Bool, false, not, String, Option, none, some, List, map, ◌==◌, if◌then◌else◌,
}
use chain_indexer_framework.Prelude.Text.{str_eq}
use chain_indexer_framework.Formatter.Types.{
  Amount, number, text, RawReceipt, RawTransaction, Web3Block, RawBlock, Web3Log, Web3Receipt,
  Web3Transaction, Libraries, OwnLog, OwnReceipt, OwnTransaction, OwnBlock,
}

module _ (lib : Libraries) where
  -- `Long.fromValue(n, true)` of a number.
  abbrev pub long : ℕ → lib.Long
  long n = lib.from_value (number n)

  -- `x || x === 0 ? utils.toHex(x) : undefined`: an empty text is falsy, and is not 0.
  abbrev pub hex_if_given : Option Amount → Option String
  hex_if_given none = none
  hex_if_given (some (number n)) = some (lib.to_hex (number n))
  hex_if_given (some (text t)) = if str_eq t "" then none else some (lib.to_hex (text t))

  -- `x || x === 0 ? Long.fromValue(x, true) : null`
  abbrev pub long_if_given : Option ℕ → Option lib.Long
  long_if_given none = none
  long_if_given (some n) = some (long n)

  unfoldable pub format_log : Web3Log → OwnLog lib
  format_log log = record {
    address = log.address;
    contents = log.contents;
    log_index = long log.log_index;
    topics = log.topics;
    transaction_hash = log.transaction_hash;
    transaction_index = long log.transaction_index;
    block_hash = log.block_hash;
    block_number = long log.block_number;
    removed = log.removed;
  }

  unfoldable pub format_transaction_receipt : Web3Receipt → OwnReceipt lib
  unfolding format_log
  format_transaction_receipt receipt = record {
    transaction_hash = receipt.transaction_hash;
    transaction_index = long receipt.transaction_index;
    from_address = receipt.from_address;
    to_address = receipt.to_address;
    block_number = long receipt.block_number;
    block_hash = receipt.block_hash;
    contract_address = receipt.contract_address;
    gas_used = long receipt.gas_used;
    cumulative_gas_used = long receipt.cumulative_gas_used;
    logs = map format_log receipt.logs;
    logs_bloom = receipt.logs_bloom;
    status = receipt.status;
    effective_gas_price = hex_if_given receipt.effective_gas_price;
  }

  -- `Boolean(parseInt(receipt.status))`, and `false` for no status.
  abbrev pub status_of : Option String → Bool
  status_of none = false
  status_of (some status) = not (lib.parse_int status == 0)

  unfoldable pub format_some_receipt : RawReceipt → OwnReceipt lib
  unfolding format_transaction_receipt
  format_some_receipt raw =
      let receipt = raw.base in
      format_transaction_receipt (record {
        transaction_hash = receipt.transaction_hash;
        transaction_index = lib.hex_to_number receipt.transaction_index;
        from_address = receipt.from_address;
        to_address = receipt.to_address;
        block_number = lib.hex_to_number receipt.block_number;
        block_hash = receipt.block_hash;
        contract_address = receipt.contract_address;
        gas_used = lib.hex_to_number receipt.gas_used;
        cumulative_gas_used = lib.hex_to_number receipt.cumulative_gas_used;
        logs = map lib.output_log_formatter receipt.logs;
        logs_bloom = receipt.logs_bloom;
        status = status_of raw.raw_status;
        effective_gas_price = receipt.effective_gas_price;
      })

  -- A receipt that is missing gives `undefined`. One that is no object does not have this type.
  unfoldable pub format_raw_receipt : Option RawReceipt → Option (OwnReceipt lib)
  unfolding format_some_receipt
  format_raw_receipt none = none
  format_raw_receipt (some raw) = some (format_some_receipt raw)

  unfoldable pub format_transaction_object : Web3Transaction → OwnReceipt lib → OwnTransaction lib
  format_transaction_object t receipt = record {
    fields = record {
      hash = t.hash;
      nonce = long t.nonce;
      block_hash = t.block_hash;
      block_number = long_if_given t.block_number;
      transaction_index = long_if_given t.transaction_index;
      from_address = t.from_address;
      to_address = t.to_address;
      value = lib.to_hex t.value;
      gas_price = lib.to_hex t.gas_price;
      gas = long t.gas;
      input = t.input;
      max_fee_per_gas = hex_if_given t.max_fee_per_gas;
      max_priority_fee_per_gas = hex_if_given t.max_priority_fee_per_gas;
      chain_id = t.chain_id;
      v = t.v;
      r = t.r;
      s = t.s;
      kind = t.kind;
    };
    receipt = receipt;
  }

  unfoldable pub format_raw_transaction_object :
      RawTransaction → OwnReceipt lib → OwnTransaction lib
  unfolding format_transaction_object
  format_raw_transaction_object t receipt =
      format_transaction_object (lib.output_transaction_formatter t) receipt

  unfoldable pub format_block_with_transactions :
      Web3Block → List (OwnTransaction lib) → OwnBlock lib
  format_block_with_transactions block transactions = record {
    parts = block.parts;
    nonce = lib.from_value (text (lib.hex_to_number_string block.nonce));
    difficulty = lib.to_hex block.difficulty;
    total_difficulty = lib.to_hex block.total_difficulty;
    timestamp = long (block.timestamp * 1000);
    number = long block.number;
    base_fee_per_gas = hex_if_given block.base_fee_per_gas;
    size = lib.to_hex block.size;
    transactions = transactions;
    gas_limit = long block.gas_limit;
    gas_used = long block.gas_used;
  }

  unfoldable pub format_raw_block : RawBlock → List (OwnTransaction lib) → OwnBlock lib
  unfolding format_block_with_transactions
  format_raw_block block transactions =
      format_block_with_transactions (lib.output_block_formatter block) transactions
