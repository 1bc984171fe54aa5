-- ===== src/Frame/Responses.antt =====
-- frame.go: the wire format of a response, and ReadResponse on it.
use fluss_go_client.Prelude.{
  ℕ, ◌+◌, ◌^◌, ◌<◌, ◌≤◌, ◌≡◌, refl, ap, false, ltb, le→ltb, arith, [], ◌∷◌, ◌++◌, length,
  length-append, take, take-append, drop-append, append_assoc, append-nil, suc, length-drop,
}
use fluss_go_client.Result.{ok, ok_injective, reject, >>=-eq-ok}
use fluss_go_client.Bytes.{Bytes, be_bytes, be_uint}
use fluss_go_client.Bytes.Fixed.{length-be_bytes, be_uint-be_bytes_four, drop_bytes}
use fluss_go_client.Frame.{
  ResponseType, ResponseFrame, Error, with_id, read_full, parse_body, read_response,
}

-- The wire format of a response: a type byte, an id unless it is a failure, the payload.
abbrev pub response_body : ResponseFrame → Bytes
response_body f = elim f.kind [
  | ResponseType.success ↦ 0 ∷ (be_bytes 4 f.request_id ++ f.payload)
  | ResponseType.error ↦ 1 ∷ (be_bytes 4 f.request_id ++ f.payload)
  | ResponseType.failure ↦ 2 ∷ f.payload
]

abbrev pub response_bytes : ResponseFrame → Bytes
response_bytes f = be_bytes 4 (length (response_body f)) ++ response_body f

-- A failure has no id, and the reader leaves it at 0.
abbrev pub IsResponse : ResponseFrame → Type 0
IsResponse f = elim f.kind [ ResponseType.failure ↦ f.request_id ≡ 0 | _ ↦ f.request_id < 2 ^ 32 ]

id_read :
    (kind : ResponseType) (tag id : ℕ) (payload : Bytes)
    → id < 2 ^ 32
    → with_id kind (tag ∷ (be_bytes 4 id ++ payload))
      ≡ ok (record { kind = kind; request_id = id; payload = payload })
id_read kind tag id payload h =
    let size = length-append (be_bytes 4 id) payload in
    let long : ltb (suc (length (be_bytes 4 id ++ payload))) 5 ≡ false =
      le→ltb (suc (length (be_bytes 4 id ++ payload))) 5
        (omega (arith, size, length-be_bytes 4 id)) in
    rw long (
      rw (be_uint-be_bytes_four id payload h)
        (rw (drop_bytes 4 (be_bytes 4 id) payload (length-be_bytes 4 id))))

parse_with_id :
    (kind : ResponseType) (id : ℕ) (payload : Bytes)
    → IsResponse (record { kind = kind; request_id = id; payload = payload })
    → parse_body (response_body (record { kind = kind; request_id = id; payload = payload }))
      ≡ ok (record { kind = kind; request_id = id; payload = payload })
unfolding parse_body
parse_with_id ResponseType.success id payload h = id_read ResponseType.success 0 id payload h
parse_with_id ResponseType.error id payload h = id_read ResponseType.error 1 id payload h
parse_with_id ResponseType.failure id payload h = rw h refl

read_full-append : (n : ℕ) (xs ys : Bytes) → length xs ≡ n → read_full n (xs ++ ys) ≡ ok (xs, ys)
unfolding read_full
read_full-append n xs ys e =
    let long : ltb (length (xs ++ ys)) (length xs) ≡ false =
      le→ltb _ (length xs) (omega (arith, length-append xs ys)) in
    rw (← e) (rw long (rw (take-append xs ys) (rw (drop-append xs ys))))

body_not_empty : (f : ResponseFrame) → 1 ≤ length (response_body f)
body_not_empty f = ground arith

-- ReadResponse reads a response in the wire format with a body of fewer than 2^32 bytes (an id below
-- 2^32, and none for a failure) and leaves the reader behind it.
pub read_response-response_bytes :
    (f : ResponseFrame) (rest : Bytes)
    → IsResponse f
    → length (response_body f) < 2 ^ 32
    → read_response (response_bytes f ++ rest) ≡ ok (f, rest)
unfolding read_response
read_response-response_bytes f rest h fits =
    let n = length (response_body f) in
    let size : be_uint 4 (be_bytes 4 n) ≡ n =
      rw (append-nil (be_bytes 4 n)) at (be_uint-be_bytes_four n [] fits) in
    let positive : ltb n 1 ≡ false = le→ltb n 1 (body_not_empty f) in
    rw (append_assoc (be_bytes 4 n) (response_body f) rest) (
      rw (read_full-append 4 (be_bytes 4 n) (response_body f ++ rest) (length-be_bytes 4 n)) (
        rw size (
          rw positive (
            rw (read_full-append n (response_body f) rest refl)
              (rw (parse_with_id f.kind f.request_id f.payload h))))))

read_full-eq-ok :
    (n : ℕ) (reader body rest : Bytes)
    → read_full n reader ≡ ok (body, rest)
    → (body ≡ take n reader) × (length reader ≡ n + length rest)
unfolding read_full
read_full-eq-ok n reader body rest h = ground (arith, length-drop n reader)

at_least_one : (n : ℕ) → reject (ltb n 1) Error.invalid_length ≡ ok tt → 1 ≤ n
at_least_one n h = ground arith

-- Every frame ReadResponse returns took exactly its length field and that many bytes from the reader,
-- one at least.
pub read_response_takes :
    (reader rest : Bytes) (f : ResponseFrame)
    → read_response reader ≡ ok (f, rest)
    → (length reader ≡ 4 + be_uint 4 (take 4 reader) + length rest)
      × (1 ≤ be_uint 4 (take 4 reader))
unfolding read_response
read_response_takes reader rest f h =
    let ((head, reader'), e1, e2) = >>=-eq-ok (read_full 4 reader) _ h in
    let (u, e3, e4) = >>=-eq-ok (reject (ltb (be_uint 4 head) 1) Error.invalid_length) _ e2 in
    let ((body, reader''), e5, e6) = >>=-eq-ok (read_full (be_uint 4 head) reader') _ e4 in
    let (g, e7, e8) = >>=-eq-ok (parse_body body) _ e6 in
    let a = read_full-eq-ok 4 reader head reader' e1 in
    let b = read_full-eq-ok (be_uint 4 head) reader' body reader'' e5 in
    let same : length reader'' ≡ length rest = ap (λ p. length (p.1)) (ok_injective e8) in
    let size : be_uint 4 head ≡ be_uint 4 (take 4 reader) = ap (be_uint 4) a.0 in
    (omega (arith, a.1, b.1, same, size), omega (arith, at_least_one _ e3, size))
