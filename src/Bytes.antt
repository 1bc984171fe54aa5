-- ===== src/Bytes.antt =====
-- Byte slices as lists of numbers below 256, and what the client uses of Go's encoding/binary: fixed
-- integers in both byte orders, and unsigned varints. A w-bit integer, signed or not, is its bit
-- pattern, a number below 2 ^ w; so Go's conversions between int32 and uint32 change nothing.
pub mod Fixed
pub mod Equal
pub mod Uvarint
use fluss_go_client.Prelude.{ℕ, zero, suc, ◌+◌, ◌*◌, ◌/◌, ◌%◌, ◌<◌, ◌^◌, Bool, ltb, if◌then◌else◌}
use fluss_go_client.Prelude.{List, [], ◌∷◌, ◌++◌, take, ◌&&◌, ◌==◌, All, length, Option, none, some}

abbrev pub Byte : Type 0
Byte = ℕ

abbrev pub Bytes : Type 0
Bytes = List ℕ

abbrev pub IsByte : ℕ → Type 0
IsByte b = b < 256

-- The `k` bytes that binary.LittleEndian.PutUint16, PutUint32 and PutUint64 write.
unfoldable pub le_bytes : ℕ → ℕ → Bytes
le_bytes zero v = []
le_bytes (suc k) v = (v % 256) ∷ le_bytes k (v / 256)

-- The number that bytes stand for, lowest byte first.
unfoldable pub le_value : Bytes → ℕ
le_value [] = 0
le_value (b ∷ bs) = b + 256 * le_value bs

-- binary.LittleEndian.Uint16, Uint32, Uint64 on the first `k` bytes of a slice that has them.
unfoldable pub le_uint : ℕ → Bytes → ℕ
unfolding le_value
le_uint k bs = le_value (take k bs)

-- The same for binary.BigEndian: highest byte first.
unfoldable pub be_bytes : ℕ → ℕ → Bytes
be_bytes zero v = []
be_bytes (suc k) v = (v / 256 ^ k % 256) ∷ be_bytes k v

unfoldable pub be_value : ℕ → Bytes → ℕ
be_value acc [] = acc
be_value acc (b ∷ bs) = be_value (acc * 256 + b) bs

unfoldable pub be_uint : ℕ → Bytes → ℕ
unfolding be_value
be_uint k bs = be_value 0 (take k bs)

-- binary.PutUvarint, with the rounds that are left: 9 are enough for 64 bits. `byte(v) | 0x80` is
-- `v % 128 + 128`.
unfoldable pub uvarint_bytes : ℕ → ℕ → Bytes
uvarint_bytes zero v = (v % 256) ∷ []
uvarint_bytes (suc k) v =
    let rest = uvarint_bytes k (v / 128) in if ltb v 128 then v ∷ [] else (v % 128 + 128) ∷ rest

unfoldable pub put_uvarint : ℕ → Bytes
unfolding uvarint_bytes
put_uvarint v = uvarint_bytes 9 v

-- binary.Uvarint: `i` bytes are read, `x` is their value and `s` the next shift. The bits of `x` and
-- of the shifted group do not meet, so `|` is `+`. `none` stands for a count of 0 or below, which
-- the client treats alike.
unfoldable pub uvarint_loop : Bytes → ℕ → ℕ → ℕ → Option (ℕ × ℕ)
uvarint_loop [] i x s = none
uvarint_loop (b ∷ bs) i x s =
    let more = uvarint_loop bs (i + 1) ((x + b % 128 * 2 ^ s) % 2 ^ 64) (s + 7) in
    if i == 10
    then none
    else if ltb b 128
    then (if (i == 9) && ltb 1 b then none else some (x + b * 2 ^ s, i + 1))
    else more

unfoldable pub uvarint : Bytes → Option (ℕ × ℕ)
unfolding uvarint_loop
uvarint bs = uvarint_loop bs 0 0 0
