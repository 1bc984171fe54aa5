-- ===== src/Frame/Runs.antt =====
-- Request and response frames at concrete inputs.
use fluss_go_client.Prelude.{ℕ, ◌≡◌, ◌≤◌, ◌+◌, ◌++◌, refl, [], ◌∷◌, length, take, arith}
use fluss_go_client.Result.{ok, err}
use fluss_go_client.Bytes.{Bytes, be_bytes, be_uint, be_value}
use fluss_go_client.Frame.{
  ResponseType, ResponseFrame, Error, encode_request, read_full, parse_body, read_response,
}
use fluss_go_client.Frame.Responses.{
  response_bytes, read_response-response_bytes, read_response_takes,
}

abbrev answer : ResponseFrame
answer = record { kind = ResponseType.error; request_id = 258; payload = 9 ∷ 8 ∷ [] }

abbrev answer_bytes : Bytes
answer_bytes = 0 ∷ 0 ∷ 0 ∷ 7 ∷ 1 ∷ 0 ∷ 0 ∷ 1 ∷ 2 ∷ 9 ∷ 8 ∷ []

encode_request_test :
    encode_request (record { api_key = 1012; api_version = 0; request_id = 1; payload = 5 ∷ [] })
    ≡ 0 ∷ 0 ∷ 0 ∷ 9 ∷ 3 ∷ 244 ∷ 0 ∷ 0 ∷ 0 ∷ 0 ∷ 0 ∷ 1 ∷ 5 ∷ []
unfolding encode_request be_bytes
encode_request_test = refl

answer_read : read_response (answer_bytes ++ (4 ∷ [])) ≡ ok (answer, 4 ∷ [])
unfolding read_response read_full parse_body be_uint be_value
answer_read = refl

wrong_kind : read_response (0 ∷ 0 ∷ 0 ∷ 1 ∷ 7 ∷ []) ≡ err (Error.unknown_type 7)
unfolding read_response read_full parse_body be_uint be_value
wrong_kind = refl

read_response-response_bytes_example :
    read_response (response_bytes answer ++ (4 ∷ [])) ≡ ok (answer, 4 ∷ [])
read_response-response_bytes_example =
    read_response-response_bytes answer (4 ∷ []) (omega arith) (unfold be_bytes in omega arith)

read_response_takes_example :
    (length (answer_bytes ++ (4 ∷ []))
      ≡ 4 + be_uint 4 (take 4 (answer_bytes ++ (4 ∷ []))) + length {A = ℕ} (4 ∷ []))
    × (1 ≤ be_uint 4 (take 4 (answer_bytes ++ (4 ∷ []))))
read_response_takes_example =
    read_response_takes (answer_bytes ++ (4 ∷ [])) (4 ∷ []) answer answer_read
