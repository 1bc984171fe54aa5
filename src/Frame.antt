-- ===== src/Frame.antt =====
-- internal/codec/frame/frame.go: request and response frames. The reader is the bytes that are still to
-- come; io.ReadFull of more than there are fails.
pub mod Responses
mod Runs
use fluss_go_client.Prelude.{
  ℕ, ◌+◌, ◌%◌, ◌^◌, Bool, ltb, ◌==◌, if◌then◌else◌, [], ◌∷◌, ◌++◌, length, get_or, take, drop,
  arith, ◌≡◌, ◌<◌, refl,
}
use fluss_go_client.Result.{Result, ok, err, ◌>>=◌, ◌>>◌, reject}
use fluss_go_client.Bytes.{Bytes, be_bytes, be_uint}

-- int32 and int16 fields are bit patterns.
pub record RequestFrame : Type 0 where
  pub api_key : ℕ
  pub api_version : ℕ
  pub request_id : ℕ
  pub payload : Bytes

-- The values of flusspb.ResponseType that ReadResponse accepts.
pub data ResponseType : Type 0 where
  success error failure : ResponseType

pub record ResponseFrame : Type 0 where
  pub kind : ResponseType
  pub request_id : ℕ
  pub payload : Bytes

pub data Error : Type 0 where
  eof invalid_length too_short : Error
  unknown_type : ℕ → Error

unfoldable pub encode_request : RequestFrame → Bytes
encode_request f =
    be_bytes 4 ((8 + length f.payload) % 2 ^ 32)
    ++ (be_bytes 2 (f.api_key % 2 ^ 16)
        ++ (be_bytes 2 f.api_version ++ (be_bytes 4 f.request_id ++ f.payload)))

-- io.ReadFull: `n` bytes, and the reader behind them.
unfoldable pub read_full : ℕ → Bytes → Result Error (Bytes × Bytes)
read_full n reader = do reject (ltb (length reader) n) Error.eof; ok (take n reader, drop n reader)

-- The body of a success or error response: a request id and the payload.
abbrev pub with_id : ResponseType → Bytes → Result Error ResponseFrame
with_id kind body = do
  reject (ltb (length body) 5) Error.too_short
  ok (record { kind = kind; request_id = be_uint 4 (drop 1 body); payload = drop 5 body })

-- The switch on the first byte of the body.
unfoldable pub parse_body : Bytes → Result Error ResponseFrame
parse_body body =
    let kind = get_or body 0 0 in
    if kind == 0
    then with_id ResponseType.success body
    else if kind == 1
    then with_id ResponseType.error body
    else if kind == 2
    then ok (record { kind = ResponseType.failure; request_id = 0; payload = drop 1 body })
    else err (Error.unknown_type kind)

-- The frame, and the reader behind it.
unfoldable pub read_response : Bytes → Result Error (ResponseFrame × Bytes)
read_response reader = do
  (size_bytes, reader') ← read_full 4 reader
  let size = be_uint 4 size_bytes
  reject (ltb size 1) Error.invalid_length
  (body, reader'') ← read_full size reader'
  frame ← parse_body body
  ok (frame, reader'')
