-- ===== src/Services/Calls.antt =====
-- internal/rpc/json_rpc_client.ts. Axios and the clock are outside.
use chain_indexer_framework.Prelude.{ℕ, String, Option, List, [], or_default}
use chain_indexer_framework.Store.{Outcome}

-- `IRPCPayload`
pub record RpcPayload : Type 0 where
  pub method : String
  pub params : Option (List String)

-- What is posted.
pub record RpcRequest : Type 0 where
  pub url : String
  pub jsonrpc : String
  pub id : ℕ
  pub method : String
  pub params : List String

-- `call`, with the time and what the node answers: the result of the response, or the error of axios.
unfoldable pub request_of : (url : String) (now : ℕ) → RpcPayload → RpcRequest
request_of url now payload = record {
  url = url;
  jsonrpc = "2.0";
  id = now;
  method = payload.method;
  params = or_default payload.params [];
}

unfoldable pub call :
    {A : Type 0} → (RpcRequest → Outcome A) → (url : String) (now : ℕ) → RpcPayload → Outcome A
unfolding request_of
call post url now payload = post (request_of url now payload)
