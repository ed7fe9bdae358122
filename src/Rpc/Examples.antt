-- ===== src/Rpc/Examples.antt =====
-- crates/cng-core/src/rpc.rs: the theorems on calls, with numbers for values and a toy printer, which
-- prints all requests and those answers that hold a result; zero is its null.
use codex_no.Proxy.Errors.{Redactor}
use codex_no.Rpc.Calls.{
  result_read, call_stream-serve_stream, process_line-IsAnswer, served, first_written, IsAnswer,
  JsonLaws,
}
use codex_no.Rpc.{
  answer_of, process_line, call_stream, Json, Handler, RpcResponse, RpcError, RpcRequest,
}
use codex_no.Base.{
  ◌==◌, if◌then◌else◌, ℕ, ◌+◌, ◌≡◌, refl, ap, subst, Option, none, some, [], ◌∷◌, ◌++◌, arith,
}
use codex_no.Base.Text.{Text, codes}
use codex_no.Base.Results.{Result, ok, err}

drop_last : Text → Text
drop_last [] = []
drop_last (c ∷ []) = []
drop_last (c ∷ d ∷ s) = c ∷ drop_last (d ∷ s)

abbrev toy_parse_request : Text → Result (RpcRequest ℕ)
toy_parse_request (v ∷ i ∷ p ∷ m) =
    ok (record { version = v; id = i; method = drop_last m; params = p })
toy_parse_request _ = err (codes "no request")

abbrev toy_print_response : RpcResponse ℕ → Result Text
toy_print_response p = elim p.error [
  | some e ↦ err (codes "not printed")
  | none ↦ elim p.result [
    | none ↦ err (codes "not printed")
    | some value ↦ ok (p.version ∷ p.id ∷ value ∷ [])
  ]
]

abbrev toy_parse_response : Text → Result (RpcResponse ℕ)
toy_parse_response (v ∷ i ∷ x ∷ r) =
    ok (record { version = v; id = i; result = if x == 0 then none else some x; error = none })
toy_parse_response _ = err (codes "no answer")

abbrev toy : Json
toy = record {
  Value = ℕ;
  is_null = λ v. v == 0;
  print_request = λ q. ok (q.version ∷ q.id ∷ q.params ∷ q.method);
  parse_request = toy_parse_request;
  print_response = toy_print_response;
  parse_response = toy_parse_response;
}

drop_last-append : (m : Text) → drop_last (m ++ 10 ∷ []) ≡ m
unfolding drop_last
drop_last-append [] = refl
drop_last-append (c ∷ []) = refl
drop_last-append (c ∷ d ∷ m) = ap (λ t. c ∷ t) (drop_last-append (d ∷ m))

request_back_lem :
    (q : RpcRequest ℕ) (t : Text)
    → ok (q.version ∷ q.id ∷ q.params ∷ q.method) ≡ ok t
    → toy_parse_request (t ++ 10 ∷ []) ≡ ok q
request_back_lem q t e =
    let same : q.version ∷ q.id ∷ q.params ∷ q.method ≡ t = ground arith in
    subst (λ u. toy_parse_request (u ++ 10 ∷ []) ≡ ok q) same
      (ap (λ m. ok (record q { method = m })) (drop_last-append q.method))

response_back_lem :
    (v i : ℕ) (result : Option ℕ) (error : Option RpcError) (t : Text)
    → toy_print_response (record { version = v; id = i; result = result; error = error }) ≡ ok t
    → toy_parse_response (t ++ 10 ∷ [])
      ≡ ok (record { version = v; id = i; result = result_read toy result; error = error })
response_back_lem v i result (some x) t e = cc
response_back_lem v i none none t e = cc
response_back_lem v i (some x) none t e =
    let same : v ∷ i ∷ x ∷ [] ≡ t = ground arith in
    subst
      (λ u.
        toy_parse_response (u ++ 10 ∷ [])
        ≡ ok (record { version = v; id = i; result = result_read toy (some x); error = none }))
      same refl

toy_laws : JsonLaws toy
toy_laws = record {
  request_back = request_back_lem;
  response_back = λ p t e. response_back_lem p.version p.id p.result p.error t e;
}

-- A daemon that counts its calls.
abbrev counting : Handler toy ℕ
counting s method params = (ok (s + params), s + 1)

abbrev redactor : Redactor
redactor = record { hide_credentials = λ t. t; home_dir = none }

answer_lem : toy_print_response (answer_of toy counting redactor 1 (ok 10)) ≡ ok (1 ∷ 1 ∷ 10 ∷ [])
unfolding answer_of
answer_lem = refl

call_stream-serve_stream_example :
    (call_stream toy
        (λ line.
          first_written toy counting redactor toy_laws
            (served toy counting redactor toy_laws 3 line).0)
        (codes "status")
        7
      ≡ ok 10)
    × ((served toy counting redactor toy_laws 3 (1 ∷ 1 ∷ 7 ∷ codes "status" ++ 10 ∷ [])).1 ≡ 4)
call_stream-serve_stream_example =
    call_stream-serve_stream toy counting redactor toy_laws 3 (codes "status") 7
      (1 ∷ 1 ∷ 7 ∷ codes "status") (1 ∷ 1 ∷ 10 ∷ []) refl answer_lem

process_line-IsAnswer_example :
    IsAnswer toy counting redactor 3
      (9 ∷ 5 ∷ 7 ∷ codes "status")
      (process_line toy counting redactor 3 (9 ∷ 5 ∷ 7 ∷ codes "status"))
process_line-IsAnswer_example =
    process_line-IsAnswer toy counting redactor 3 (9 ∷ 5 ∷ 7 ∷ codes "status")
