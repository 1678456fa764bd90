-- ===== src/OsMem.antt =====
-- src/kernel/os_mem.c: the memory primitives. A destination is a region of bytes and a position in it.
pub mod Compare
use native_smart_card_os.Common.{
  Bool, List, Option, bit_or, bit_xor, drop, false, get_or, if◌then◌else◌, ltb, none, replicate,
  some, splice, suc, take, true, zero, ℕ, ◌==◌,
}

-- `os_memset`, over `len` bytes from `at` on.
unfoldable pub os_memset : List ℕ → ℕ → ℕ → ℕ → List ℕ
unfolding splice
os_memset region at value len = splice at (replicate len value) region

-- Whether the copy was made, and the region after it. `none` is a NULL source.
unfoldable pub os_memcpy_checked : List ℕ → ℕ → ℕ → Option (List ℕ) → ℕ → Bool × List ℕ
unfolding splice
os_memcpy_checked region at dst_cap none len = (len == 0, region)
os_memcpy_checked region at dst_cap (some src) len =
    if len == 0
    then (true, region)
    else if ltb dst_cap len
    then (false, region)
    else (true, splice at (take len src) region)

-- The accumulating loop of `os_memeq_ct`, over the bytes left: no early exit.
unfoldable pub diff_loop : ℕ → ℕ → List ℕ → List ℕ → ℕ
diff_loop zero diff a b = diff
diff_loop (suc n) diff a b =
    diff_loop n (bit_or diff (bit_xor (get_or a 0 0) (get_or b 0 0))) (drop 1 a) (drop 1 b)

unfoldable pub os_memeq_ct : Option (List ℕ) → Option (List ℕ) → ℕ → Bool
unfolding diff_loop
os_memeq_ct none b len = false
os_memeq_ct (some a) none len = false
os_memeq_ct (some a) (some b) len = diff_loop len 0 a b == 0
