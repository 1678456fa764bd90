-- ===== src/Crc16.antt =====
-- src/kernel/crc16.c: the CRC-16 over which the superblock, the descriptors and the boot header are
-- checked. A block of memory is the list of its bytes.
use native_smart_card_os.Common.{
  List, [], arith, bit_and, bit_xor, if◌then◌else◌, length, suc, take, take-append, zero, ℕ, ◌!=◌,
  ◌%◌, ◌*◌, ◌++◌, ◌<◌, ◌∷◌, ◌≡◌, ◌≤◌,
}

-- One round of the inner loop: the shift drops bit 15 and folds it back in as the polynomial.
unfoldable pub crc16_bit : ℕ → ℕ
crc16_bit crc =
    if bit_and crc 0x8000 != 0 then bit_xor (crc * 2 % 65536) 0x1021 % 65536 else crc * 2 % 65536

-- The inner loop, over the bits left.
unfoldable pub crc16_bits : ℕ → ℕ → ℕ
unfolding crc16_bit
crc16_bits zero crc = crc
crc16_bits (suc n) crc = crc16_bits n (crc16_bit crc)

-- The body of the outer loop.
unfoldable pub crc16_byte : ℕ → ℕ → ℕ
unfolding crc16_bits
crc16_byte crc b = crc16_bits 8 (bit_xor crc (b * 256 % 65536) % 65536)

-- The outer loop, over the bytes left.
unfoldable pub crc16_loop : ℕ → List ℕ → ℕ
unfolding crc16_byte
crc16_loop crc [] = crc
crc16_loop crc (b ∷ bs) = crc16_loop (crc16_byte crc b) bs

unfoldable pub crc16 : List ℕ → ℕ → ℕ
unfolding crc16_loop
crc16 block len = crc16_loop 0xFFFF (take len block)

crc16_bit-lt : (crc : ℕ) → crc16_bit crc < 65536
unfolding crc16_bit
crc16_bit-lt crc = ground arith

crc16_bits-lt : (n crc : ℕ) → crc < 65536 → crc16_bits n crc < 65536
unfolding crc16_bits
crc16_bits-lt zero crc h = h
crc16_bits-lt (suc n) crc h = crc16_bits-lt n (crc16_bit crc) (crc16_bit-lt crc)

crc16_byte-lt : (crc b : ℕ) → crc16_byte crc b < 65536
unfolding crc16_byte
crc16_byte-lt crc b = crc16_bits-lt 8 _ (omega arith)

crc16_loop-lt : (block : List ℕ) (crc : ℕ) → crc < 65536 → crc16_loop crc block < 65536
unfolding crc16_loop
crc16_loop-lt [] crc h = h
crc16_loop-lt (b ∷ bs) crc h = crc16_loop-lt bs (crc16_byte crc b) (crc16_byte-lt crc b)

-- A CRC fits the two bytes that store it.
pub crc16-lt : (block : List ℕ) (len : ℕ) → crc16 block len < 65536
unfolding crc16
crc16-lt block len = crc16_loop-lt (take len block) 0xFFFF (omega arith)

-- Bytes behind the block that is checked do not show in its CRC.
pub crc16-append :
    (xs ys : List ℕ) (len : ℕ) → len ≤ length xs → crc16 (xs ++ ys) len ≡ crc16 xs len
unfolding crc16
crc16-append xs ys len h = rw (take-append len xs ys h)
