-- ===== src/Errors/Codes.antt =====
-- internal/errors/error_codes.ts.
use chain_indexer_framework.Prelude.Int.{ℤ, pos}

abbrev pub base_error : ℤ
base_error = pos 100

abbrev pub unknown_coder_err : ℤ
unknown_coder_err = pos 1000

abbrev pub invalid_path_proto : ℤ
invalid_path_proto = pos 1001

abbrev pub decoding_error : ℤ
decoding_error = pos 1003

abbrev pub encoding_verification_failed : ℤ
encoding_verification_failed = pos 1004

abbrev pub unknown_consumer_err : ℤ
unknown_consumer_err = pos 2000

abbrev pub consumer_observer_invalid : ℤ
consumer_observer_invalid = pos 2001

abbrev pub invalid_coder_config : ℤ
invalid_coder_config = pos 2002

abbrev pub unknown_producer_err : ℤ
unknown_producer_err = pos 3000

abbrev pub delivery_timed_out : ℤ
delivery_timed_out = pos 3001

abbrev pub unknown_block_producer_err : ℤ
unknown_block_producer_err = pos 4000

abbrev pub receipt_not_found : ℤ
receipt_not_found = pos 4001

abbrev pub reorg_encountered : ℤ
reorg_encountered = pos 4003

abbrev pub rpc_err : ℤ
rpc_err = pos 4004

abbrev pub unknown_event_consumer_err : ℤ
unknown_event_consumer_err = pos 5000

abbrev pub server_error : ℤ
server_error = pos 500
