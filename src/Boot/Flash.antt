-- ===== src/Boot/Flash.antt =====
-- src/boot/cflash.c: code flash, which is erased by the page to 0xFF and programmed by clearing bits.
-- A region is the list of its bytes.
use native_smart_card_os.Common.{
  Bool, List, [], bit_and, drop, false, get_or, if◌then◌else◌, leb, length, not, replicate, splice,
  suc, true, zero, ℕ, ◌!=◌, ◌%◌, ◌+◌, ◌/◌, ◌==◌, ◌||◌, ◌∷◌,
}

pub data CfError : Type 0 where
  cf_err_param cf_err_range cf_err_align cf_err_not_erased : CfError

pub data CfResult : Type 0 where
  cf_ok : List ℕ → CfResult
  cf_err : CfError → CfResult

abbrev pub cf_in_range : ℕ → ℕ → ℕ → Bool
cf_in_range size off n = leb (off + n) size

unfoldable pub cf_erase_page : List ℕ → ℕ → ℕ → CfResult
unfolding splice
cf_erase_page base page_size off =
    if length base == 0 || page_size == 0
    then cf_err cf_err_param
    else if off % page_size != 0
    then cf_err cf_err_align
    else if not (cf_in_range (length base) off page_size)
    then cf_err cf_err_range
    else cf_ok (splice off (replicate page_size 0xFF) base)

-- The loop over the pages from `off` on, of which `n` are left.
unfoldable pub erase_pages : ℕ → List ℕ → ℕ → ℕ → CfResult
erase_pages zero base page_size off = cf_ok base
erase_pages (suc n) base page_size off = elim (cf_erase_page base page_size off) [
  | cf_err e ↦ cf_err e
  | cf_ok base' ↦ erase_pages n base' page_size (off + page_size)
]

-- A region is a whole number of pages, so the loop has `size / page_size` rounds.
unfoldable pub cf_erase_all : List ℕ → ℕ → CfResult
cf_erase_all base page_size =
    if length base == 0 || page_size == 0
    then cf_err cf_err_param
    else if length base % page_size != 0
    then cf_err cf_err_range
    else erase_pages (length base / page_size) base page_size 0

-- Whether every byte can be programmed by clearing bits alone.
unfoldable pub programmable : List ℕ → List ℕ → Bool
programmable old [] = true
programmable old (nw ∷ src) =
    let rest = programmable (drop 1 old) src in
    if bit_and (get_or old 0 0) nw != nw then false else rest

unfoldable pub cf_program : List ℕ → ℕ → List ℕ → CfResult
unfolding splice
cf_program base off src =
    if length base == 0
    then cf_err cf_err_param
    else if not (cf_in_range (length base) off (length src))
    then cf_err cf_err_range
    else if programmable (drop off base) src
    then cf_ok (splice off src base)
    else cf_err cf_err_not_erased

unfoldable pub cf_is_erased : List ℕ → Bool
cf_is_erased [] = true
cf_is_erased (b ∷ base) = let rest = cf_is_erased base in if b != 0xFF then false else rest
