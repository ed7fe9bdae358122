-- ===== src/Rpc/Calls.antt =====
-- crates/cng-core/src/rpc.rs: what a client gets for a call.
use mathlib.Core.Bool.{false≢true}
use codex_no.Proxy.Errors.{redact_error, Redactor}
use codex_no.Rpc.{
  line_read, request_of, call_stream, serve_stream, read_answer, answer_request, process_line,
  answer_of, Redactor, RpcResponse, Handler, RpcRequest, Json,
}
use codex_no.Base.{
  Option, if◌then◌else◌, ℕ, ◌≡◌, refl, sym, ap, ◌∙◌, ◌≢◌, ◌⊎◌, inl, inr, true, none, some, List, [],
  ◌∷◌, ◌++◌, ◌==◌, ==_iff, Bool-cases,
}
use codex_no.Base.Text.{Text, codes}
use codex_no.Base.Results.{Result, ok, err, Result-cases}

-- The `Option<Value>` that is read of the one that was written: a null is read as absent.
abbrev pub result_read : (J : Json) → Option J.Value → Option J.Value
result_read J none = none
result_read J (some value) = if J.is_null value then none else some value

-- Printing and parsing a message gives the message, but that a result `null` is read as absent.
pub record JsonLaws (J : Json) : Type 0 where
  pub request_back :
      (q : RpcRequest J.Value) (t : Text)
      → J.print_request q ≡ ok t
      → J.parse_request (t ++ 10 ∷ []) ≡ ok q
  pub response_back :
      (p : RpcResponse J.Value) (t : Text)
      → J.print_response p ≡ ok t
      → J.parse_response (t ++ 10 ∷ []) ≡ ok (record p { result = result_read J p.result })

module _ (J : Json) {S : Type 0} (handle : Handler J S) (r : Redactor) where
  -- The request was answered by the handler, and the state is the handler's.
  abbrev pub IsHandled : S → RpcRequest J.Value → RpcResponse J.Value × S → Type 0
  IsHandled s request (response, s') =
      (request.version ≡ 1)
      × (response.id ≡ request.id)
      × ((handle s request.method request.params).1 ≡ s')
      × (((value : J.Value) × ((handle s request.method request.params).0 ≡ ok value)
            × (response.result ≡ some value)
            × (response.error ≡ none))
          ⊎ ((e : Text) × ((handle s request.method request.params).0 ≡ err e)
              × (response.result ≡ none)
              × (response.error
                  ≡ some (record { code = codes "request_failed"; message = redact_error r e }))))

  -- The request was refused, and the state is as it was.
  abbrev pub IsRefused : S → Text → ℕ → RpcResponse J.Value × S → Type 0
  IsRefused s code id (response, s') =
      (response.id ≡ id)
      × (s' ≡ s)
      × (response.result ≡ none)
      × ((message : Text) × (response.error ≡ some (record { code = code; message = message })))

  abbrev pub IsAnswer : S → Text → RpcResponse J.Value × S → Type 0
  IsAnswer s line answer =
      ((e : Text) × (J.parse_request line ≡ err e) × IsRefused s (codes "invalid_request") 0 answer)
      ⊎ ((request : RpcRequest J.Value) × (J.parse_request line ≡ ok request)
          × (((request.version ≢ 1) × IsRefused s (codes "unsupported_version") request.id answer)
              ⊎ IsHandled s request answer))

  handled_lem :
      (s : S) (request : RpcRequest J.Value) (out : Result J.Value × S)
      → handle s request.method request.params ≡ out
      → request.version ≡ 1
      → IsHandled s request (answer_of J handle r request.id out.0, out.1)
  unfolding answer_of
  handled_lem s request (ok value, s') e v =
      (v, refl, ap (λ o. o.1) e, inl (value, ap (λ o. o.0) e, refl, refl))
  handled_lem s request (err reason, s') e v =
      (v, refl, ap (λ o. o.1) e, inr (reason, ap (λ o. o.0) e, refl, refl))

  request-IsAnswer :
      (s : S) (request : RpcRequest J.Value)
      → ((request.version ≢ 1)
          × IsRefused s
              (codes "unsupported_version")
              request.id
              (answer_request J handle r s request))
        ⊎ IsHandled s request (answer_request J handle r s request)
  unfolding answer_request
  request-IsAnswer s request = elim (Bool-cases (request.version == 1)) [
    | inl e ↦ inr (
        rw (e, answer_request)
          (handled_lem s request (handle s request.method request.params) refl
            ((==_iff request.version 1).0 e)))
    | inr e ↦ inl (
        rw (e, answer_request)
          (
            (λ v. false≢true (sym e ∙ (==_iff request.version 1).1 v)),
            (refl, refl, refl, (_, refl)),
          ))
  ]

  -- Every line gets exactly one answer. A line that is no request, or a request of another protocol
  -- version, is refused with its code, changes no state and never reaches the handler; any other
  -- request is answered with its own id and with what the handler returned, an error being redacted,
  -- and leaves the state that the handler left.
  pub process_line-IsAnswer :
      (s : S) (line : Text) → IsAnswer s line (process_line J handle r s line)
  unfolding process_line
  process_line-IsAnswer s line = elim (Result-cases (J.parse_request line)) [
    | inr (reason, e) ↦ inl (reason, e, rw (e, process_line) (refl, refl, refl, (_, refl)))
    | inl (request, e) ↦ inr (request, e, rw (e, process_line) (request-IsAnswer s request))
  ]

  -- What a call of the handler looks like from the other side of the wire.
  abbrev pub seen_by_client : Result J.Value → Result J.Value
  seen_by_client (ok value) =
      if J.is_null value then err (codes "daemon response did not include a result") else ok value
  seen_by_client (err e) = err (codes "request_failed: " ++ redact_error r e)

  module _ (laws : JsonLaws J) where
    read_answer-back :
        (id : ℕ) (outcome : Result J.Value) (t : Text)
        → J.print_response (answer_of J handle r id outcome) ≡ ok t
        → read_answer J (t ++ 10 ∷ []) ≡ seen_by_client outcome
    unfolding read_answer answer_of
    read_answer-back id (ok value) t e = elim (Bool-cases (J.is_null value)) [
      | inl n ↦ rw (laws.response_back _ t e, read_answer, n) refl
      | inr n ↦ rw (laws.response_back _ t e, read_answer, n) refl
    ]
    read_answer-back id (err reason) t e = rw (laws.response_back _ t e, read_answer) refl

    -- A peer that serves one line from a state: the client reads the line that is written, or an
    -- empty one if none is.
    abbrev pub served : S → Text → List Text × S
    served s line = serve_stream J handle r (λ n. true) 0 s (line_read line ∷ [])

    abbrev pub first_written : List Text → Result Text
    first_written [] = ok []
    first_written (t ∷ ts) = ok t

    accepted_lem :
        (s : S) (request : RpcRequest J.Value) (line : Text)
        → request.version ≡ 1
        → J.parse_request line ≡ ok request
        → process_line J handle r s line ≡ (
          answer_of J handle r request.id (handle s request.method request.params).0,
          (handle s request.method request.params).1,
        )
    unfolding process_line answer_request
    accepted_lem s request line v p = rw (p, process_line, (==_iff request.version 1).1 v) refl

    written_lem :
        (s s' : S) (line u : Text) (response : RpcResponse J.Value)
        → process_line J handle r s line ≡ (response, s')
        → J.print_response response ≡ ok u
        → served s line ≡ ((u ++ 10 ∷ []) ∷ [], s')
    unfolding serve_stream
    written_lem s s' line u response p q =
        rw (serve_stream, p, q) (ap (λ o. ((u ++ 10 ∷ []) ∷ [], o.1)) p)

    served_lem :
        (s : S) (request : RpcRequest J.Value) (t u : Text)
        → request.version ≡ 1
        → J.print_request request ≡ ok t
        → J.print_response
            (answer_of J handle r request.id (handle s request.method request.params).0)
          ≡ ok u
        → served s (t ++ 10 ∷ [])
          ≡ ((u ++ 10 ∷ []) ∷ [], (handle s request.method request.params).1)
    served_lem s request t u v p q =
        written_lem s _ (t ++ 10 ∷ []) u _
          (accepted_lem s request (t ++ 10 ∷ []) v (laws.request_back request t p)) q

    -- A call whose messages can be printed comes to what the handler returned: its value, or its error
    -- behind `request_failed: ` and redacted; but a value that is `null` comes as the error that there
    -- was no result. The daemon's state is the one that the handler left after this one call. This
    -- assumes that parsing a printed message gives the message, with a result `null` read as absent.
    pub call_stream-serve_stream :
        (s : S) (method : Text) (params : J.Value) (t u : Text)
        → J.print_request (request_of J method params) ≡ ok t
        → J.print_response (answer_of J handle r 1 (handle s method params).0) ≡ ok u
        → (call_stream J (λ line. first_written (served s line).0) method params
            ≡ seen_by_client (handle s method params).0)
          × ((served s (t ++ 10 ∷ [])).1 ≡ (handle s method params).1)
    unfolding call_stream
    call_stream-serve_stream s method params t u p q =
        let served_one = served_lem s (request_of J method params) t u refl p q in
        (
          rw (p, call_stream, served_one) (read_answer-back 1 (handle s method params).0 u q),
          ap (λ o. o.1) served_one,
        )
