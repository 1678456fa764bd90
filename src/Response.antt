-- ===== src/Response.antt =====
-- src/apdu/apdu_resp.c: the response builder. The buffer is the region that the caller owns, and
-- `none` is NULL.
pub mod Contents
pub mod Grown
use native_smart_card_os.Common.{
  Bool, List, Option, [], false, if◌then◌else◌, leb, ltb, none, some, splice, true, ℕ, ◌%◌, ◌+◌,
  ◌-◌, ◌/◌, ◌==◌, ◌∷◌,
}
use native_smart_card_os.OsMem.{os_memcpy_checked}
use native_smart_card_os.Sw.{sw1, sw2, sw_no_precise_diagnosis}

pub record ApduResponse : Type 0 where
  pub buf : Option (List ℕ)
  pub cap : ℕ
  pub len : ℕ
  pub overflow : Bool

unfoldable pub apdu_rsp_init : Option (List ℕ) → ℕ → ApduResponse
apdu_rsp_init none cap = record { buf = none; cap = 0; len = 0; overflow = false }
apdu_rsp_init (some buf) cap = record { buf = some buf; cap = cap; len = 0; overflow = false }

-- The room for payload: two bytes stay reserved for the status word.
abbrev pub available : ApduResponse → ℕ
available r = if leb 2 r.cap then r.cap - 2 else 0

-- The copy into the buffer, once the room is known to be there.
unfoldable pub put_bytes : ApduResponse → Option (List ℕ) → List ℕ → ℕ → Bool × ApduResponse
unfolding os_memcpy_checked
put_bytes r none src n = (false, record r { overflow = true })
put_bytes r (some buf) src n =
    let (copied, buf') = os_memcpy_checked buf r.len (r.cap - r.len) (some src) n in
    if copied
    then (true, record r { buf = some buf'; len = (r.len + n) % 65536 })
    else (false, record r { overflow = true })

unfoldable pub apdu_rsp_put : ApduResponse → Option (List ℕ) → ℕ → Bool × ApduResponse
unfolding put_bytes
apdu_rsp_put r none n = if n == 0 then (true, r) else (false, record r { overflow = true })
apdu_rsp_put r (some src) n =
    if n == 0
    then (true, r)
    else if ltb (available r) (r.len + n)
    then (false, record r { overflow = true })
    else put_bytes r r.buf src n

unfoldable pub apdu_rsp_put_u8 : ApduResponse → ℕ → Bool × ApduResponse
unfolding apdu_rsp_put
apdu_rsp_put_u8 r b = apdu_rsp_put r (some (b ∷ [])) 1

unfoldable pub apdu_rsp_put_u16 : ApduResponse → ℕ → Bool × ApduResponse
unfolding apdu_rsp_put
apdu_rsp_put_u16 r v = apdu_rsp_put r (some (v / 256 % 256 ∷ v % 256 ∷ [])) 2

-- The status word behind the payload, or alone after an overflow.
unfoldable pub finish_bytes : ApduResponse → List ℕ → ℕ → ℕ × ApduResponse
unfolding splice
finish_bytes r buf sw =
    let status = if r.overflow then sw_no_precise_diagnosis else sw in
    let at = if r.overflow then 0 else r.len in
    let end = (at + 2) % 65536 in
    (end, record r { buf = some (splice at (sw1 status ∷ sw2 status ∷ []) buf); len = end })

unfoldable pub apdu_rsp_finish : ApduResponse → ℕ → ℕ × ApduResponse
unfolding finish_bytes
apdu_rsp_finish r sw = elim r.buf [
  | none ↦ (0, r)
  | some buf ↦ if ltb r.cap 2 then (0, r) else finish_bytes r buf sw
]
