-- ===== src/Row/Crc.antt =====
-- hash/crc32 with the Castagnoli table, bit by bit: the polynomial 0x1EDC6F41 in reflected order.
use Prim.Native.Nat.{bit_xor}
use fluss_go_client.Prelude.{
  ℕ, zero, suc, ◌/◌, ◌%◌, ◌<◌, ◌^◌, ◌≡◌, refl, arith, ◌==◌, if◌then◌else◌, [], ◌∷◌,
}
use fluss_go_client.Bytes.{Bytes}

crc_bits : ℕ → ℕ → ℕ
crc_bits zero c = c
crc_bits (suc k) c = crc_bits k (if c % 2 == 1 then bit_xor (c / 2) 0x82f6_3b78 else c / 2)

crc_loop : ℕ → Bytes → ℕ
unfolding crc_bits
crc_loop c [] = c
crc_loop c (b ∷ bs) = crc_loop (crc_bits 8 (bit_xor c b)) bs

-- `crc32.Checksum(data, crc32.MakeTable(crc32.Castagnoli))`, a uint32.
unfoldable pub checksum : Bytes → ℕ
unfolding crc_loop
checksum bs = bit_xor (crc_loop 0xffff_ffff bs) 0xffff_ffff % 2 ^ 32

pub checksum-lt : (bs : Bytes) → checksum bs < 2 ^ 32
unfolding checksum
checksum-lt bs = omega arith

-- The check value of CRC-32C: the digits 1 to 9.
check_value :
    checksum (0x31 ∷ 0x32 ∷ 0x33 ∷ 0x34 ∷ 0x35 ∷ 0x36 ∷ 0x37 ∷ 0x38 ∷ 0x39 ∷ []) ≡ 0xe306_9283
unfolding checksum
check_value = refl
