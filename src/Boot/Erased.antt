-- ===== src/Boot/Erased.antt =====
-- cflash.c: erased flash, and what is programmed into it from the front.
use native_smart_card_os.Boot.Flash.{
  cf_erase_all, cf_erase_page, cf_ok, cf_program, erase_pages, programmable,
}
use native_smart_card_os.Common.{
  All, List, [], ap, append-nil, append_assoc, arith, bit_and, drop-append_self, length,
  length-append, length-replicate, length-splice, overwrite, passes_below, passes_below_lem, refl,
  replicate, splice, suc, sym, take, take-all, take-splice_end, true, zero, ==→eq, ℕ, ◌%◌, ◌*◌,
  ◌++◌, ◌+◌, ◌-◌, ◌/◌, ◌<◌, ◌==◌, ◌∷◌, ◌≡◌, ◌≤◌,
}

pub replicate-add : (m n x : ℕ) → replicate (m + n) x ≡ replicate m x ++ replicate n x
replicate-add zero n x = let e : 0 + n ≡ n = omega arith in rw e
replicate-add (suc m) n x =
    let e : suc m + n ≡ suc (m + n) = omega arith in rw e (ap (λ t. x ∷ t) (replicate-add m n x))

-- A page within the region, on its boundary.
cf_erase_page_lem :
    (base : List ℕ) (page off : ℕ)
    → 0 < page
    → off % page ≡ 0
    → off + page ≤ length base
    → cf_erase_page base page off ≡ cf_ok (splice off (replicate page 0xFF) base)
unfolding cf_erase_page
cf_erase_page_lem base page off some_bytes aligned room = ground arith

next_page : (page off : ℕ) → 0 < page → off % page ≡ 0 → (off + page) % page ≡ 0
next_page page off some_bytes aligned = grind arith

suc-mul : (n page : ℕ) → suc n * page ≡ page + n * page
suc-mul n page = grind arith

-- Up to the end of a page that is written.
page_front :
    (off n : ℕ) (src base : List ℕ)
    → length src ≡ n
    → off + n ≤ length base
    → take (off + n) (splice off src base) ≡ take off base ++ src
page_front off n src base size room =
    rw⁻¹ size (take-splice_end off src base (omega (arith, room, size)))

erase_pages_lem :
    (n : ℕ) (base : List ℕ) (page off : ℕ)
    → 0 < page
    → off % page ≡ 0
    → off + n * page ≡ length base
    → erase_pages n base page off ≡ cf_ok (take off base ++ replicate (n * page) 0xFF)
unfolding erase_pages
erase_pages_lem zero base page off some_bytes aligned whole =
    let none_left : 0 * page ≡ 0 = omega arith in
    let all : take off base ≡ base = take-all off base (omega (arith, whole)) in
    rw (none_left, all) (ap cf_ok (sym (append-nil base)))
erase_pages_lem (suc n) base page off some_bytes aligned whole =
    let blank_page : List ℕ = replicate page 0xFF in
    let base' : List ℕ = splice off blank_page base in
    let size : length blank_page ≡ page = length-replicate page 0xFF in
    let more : off + page + n * page ≡ length base = omega (arith, whole, suc-mul n page) in
    let front : take (off + page) base' ≡ take off base ++ blank_page =
      page_front off page blank_page base size (omega (arith, more)) in
    let rest =
      erase_pages_lem n base' page (off + page) some_bytes (next_page page off some_bytes aligned)
        (omega (arith, more, length-splice off blank_page base)) in
    let joined : (take off base ++ blank_page) ++ replicate (n * page) 0xFF
        ≡ take off base ++ replicate (suc n * page) 0xFF =
      rw (append_assoc, suc-mul n page, replicate-add page (n * page) 0xFF) in
    ground (
      arith,
      cf_erase_page_lem base page off some_bytes aligned (omega (arith, more)),
      rest,
      front,
      joined,
    )

whole_pages : (n page : ℕ) → n % page ≡ 0 → 0 + n / page * page ≡ n
whole_pages n page aligned = grind arith

-- An erase of the whole region leaves 0xFF everywhere.
pub cf_erase_all_lem :
    (base : List ℕ) (page : ℕ)
    → 0 < page
    → 0 < length base
    → length base % page ≡ 0
    → cf_erase_all base page ≡ cf_ok (replicate (length base) 0xFF)
unfolding cf_erase_all
cf_erase_all_lem base page some_bytes full aligned =
    let rounds : 0 + length base / page * page ≡ length base =
      whole_pages (length base) page aligned in
    let none_before : take 0 base ≡ [] = refl in
    let same : length base / page * page ≡ length base = omega (arith, rounds) in
    ground (
      arith,
      aligned,
      erase_pages_lem (length base / page) base page 0 some_bytes (omega arith) rounds,
      same,
    )

byte_table : passes_below (λ b. bit_and 0xFF b == b) 256 ≡ true
unfolding passes_below
byte_table = refl

byte_clears : (b : ℕ) → b < 256 → bit_and 0xFF b ≡ b
byte_clears b h =
    ==→eq _ b (passes_below_lem (λ c. bit_and 0xFF c == c) {bound = 256} b h byte_table)

-- Bytes can be programmed where the flash is erased.
programmable-erased :
    (src : List ℕ) (m : ℕ)
    → All (λ b. b < 256) src
    → length src ≤ m
    → programmable (replicate m 0xFF) src ≡ true
unfolding programmable
programmable-erased [] m bytes room = refl
programmable-erased (b ∷ src) zero bytes room = absurd (omega (arith, room))
programmable-erased (b ∷ src) (suc m) (byte, bytes) room =
    ground (arith, byte_clears b byte, programmable-erased src m bytes (omega (arith, room)))

splice-front :
    (src : List ℕ) (m x : ℕ)
    → length src ≤ m
    → splice 0 src (replicate m x) ≡ src ++ replicate (m - length src) x
unfolding splice overwrite
splice-front [] m x room = let e : m - 0 ≡ m = omega arith in rw e refl
splice-front (b ∷ src) zero x room = absurd (omega (arith, room))
splice-front (b ∷ src) (suc m) x room =
    let e : suc m - suc (length src) ≡ m - length src = omega arith in
    rw e (ap (λ t. b ∷ t) (splice-front src m x (omega (arith, room))))

pub splice-append :
    (p src : List ℕ) (m x : ℕ)
    → length src ≤ m
    → splice (length p) src (p ++ replicate m x) ≡ p ++ (src ++ replicate (m - length src) x)
unfolding splice
splice-append [] src m x room = splice-front src m x room
splice-append (y ∷ p) src m x room = ap (λ t. y ∷ t) (splice-append p src m x room)

-- Bytes that are programmed behind what is programmed already.
pub cf_program-erased :
    (p src : List ℕ) (m : ℕ)
    → All (λ b. b < 256) src
    → 0 < m
    → length src ≤ m
    → cf_program (p ++ replicate m 0xFF) (length p) src
      ≡ cf_ok (p ++ (src ++ replicate (m - length src) 0xFF))
unfolding cf_program
cf_program-erased p src m bytes some_bytes room = ground (
  arith,
  length-append p (replicate m 0xFF),
  length-replicate {A = ℕ} m 0xFF,
  drop-append_self p (replicate m 0xFF),
  programmable-erased src m bytes room,
  splice-append p src m 0xFF room,
)
