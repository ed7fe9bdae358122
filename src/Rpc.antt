-- ===== src/Rpc.antt =====
-- crates/cng-core/src/rpc.rs: the protocol between the daemon and its clients, one JSON text a line.
pub mod Calls
mod Examples
use codex_no.Proxy.Errors.{redact_error, Redactor}
use codex_no.Base.{
  ℕ, ◌+◌, Bool, true, false, not, Option, none, some, List, [], ◌∷◌, ◌++◌, ◌==◌, if◌then◌else◌,
}
use codex_no.Base.Text.{Text, codes, decimal}
use codex_no.Base.Results.{Result, ok, err, or_fail, ◌>>=◌, context}

abbrev pub rpc_api_version : ℕ
rpc_api_version = 1

pub record RpcRequest (V : Type 0) : Type 0 where
  pub version : ℕ
  pub id : ℕ
  pub method : Text
  pub params : V

pub record RpcError : Type 0 where
  pub code : Text
  pub message : Text

pub record RpcResponse (V : Type 0) : Type 0 where
  pub version : ℕ
  pub id : ℕ
  pub result : Option V
  pub error : Option RpcError

-- The `serde_json` crate: its values, whose numbers are integers in this protocol, and the printing
-- and the parsing of the two messages.
pub record Json : Type 1 where
  pub Value : Type 0
  pub is_null : Value → Bool
  pub print_request : RpcRequest Value → Result Text
  pub parse_request : Text → Result (RpcRequest Value)
  pub print_response : RpcResponse Value → Result Text
  pub parse_response : Text → Result (RpcResponse Value)

-- A handler takes a method and its parameters, and may change the daemon's state.
abbrev pub Handler : Json → Type 0 → Type 0
Handler J S = S → Text → J.Value → Result J.Value × S

-- What a call of `read_line` gives; the end of the list is the end of the stream.
pub data LineRead : Type 0 where
  line_read : Text → LineRead
  broken : LineRead

module _ (J : Json) where
  abbrev pub failure : ℕ → Text → Text → RpcResponse J.Value
  failure id code message = record {
    version = rpc_api_version;
    id = id;
    result = none;
    error = some (record { code = code; message = message });
  }

  abbrev pub success : ℕ → J.Value → RpcResponse J.Value
  success id value = record {
    version = rpc_api_version;
    id = id;
    result = some value;
    error = none;
  }

  module _ {S : Type 0} (handle : Handler J S) (r : Redactor) where
    -- The answer to what the handler returned.
    unfoldable pub answer_of : ℕ → Result J.Value → RpcResponse J.Value
    answer_of id (ok value) = success id value
    answer_of id (err e) = failure id (codes "request_failed") (redact_error r e)

    unfoldable pub answer_request : S → RpcRequest J.Value → RpcResponse J.Value × S
    unfolding decimal answer_of
    answer_request s request =
        if request.version == rpc_api_version
        then (let (outcome, s') = handle s request.method request.params in
            (answer_of request.id outcome, s'))
        else (
          failure request.id (codes "unsupported_version") (
              codes "client requested RPC v"
              ++ (decimal request.version
                  ++ (codes ", daemon supports v" ++ decimal rpc_api_version))),
          s,
        )

    unfoldable pub process_line : S → Text → RpcResponse J.Value × S
    unfolding answer_request
    process_line s line = elim (J.parse_request line) [
      | err e ↦ (failure 0 (codes "invalid_request") e, s)
      | ok request ↦ answer_request s request
    ]

    -- The texts that are written, where `can_write` says whether the write with a number succeeds.
    unfoldable pub serve_stream : (ℕ → Bool) → ℕ → S → List LineRead → List Text × S
    unfolding process_line
    serve_stream can_write n s [] = ([], s)
    serve_stream can_write n s (broken ∷ reads) = ([], s)
    serve_stream can_write n s (line_read line ∷ reads) =
        let (response, s') = process_line s line in
        elim (J.print_response response) [
          | err e ↦ ([], s')
          | ok encoded ↦ elim (can_write n) [
            | false ↦ ([], s')
            | true ↦
                let (written, s'') = serve_stream can_write (n + 1) s' reads in
                ((encoded ++ 10 ∷ []) ∷ written, s'')
          ]
        ]

  abbrev pub request_of : Text → J.Value → RpcRequest J.Value
  request_of method params = record {
    version = rpc_api_version;
    id = 1;
    method = method;
    params = params;
  }

  -- What a client makes of the line that it reads.
  unfoldable pub read_answer : Text → Result J.Value
  read_answer line = do
    response ← context (J.parse_response line) (codes "parse daemon response")
    elim response.error [
      | some e ↦ err (e.code ++ (codes ": " ++ e.message))
      | none ↦ or_fail response.result (codes "daemon response did not include a result")
    ]

  -- A call, over a peer that takes the line that is sent and returns the line that it answers, or an
  -- error of the transport.
  unfoldable pub call_stream : (Text → Result Text) → Text → J.Value → Result J.Value
  call_stream exchange method params = do
    encoded ← J.print_request (request_of method params)
    line ← exchange (encoded ++ 10 ∷ [])
    read_answer line
