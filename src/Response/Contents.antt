-- ===== src/Response/Contents.antt =====
-- apdu_resp.c: the builder as a list of bytes that grows at its end.
use mathlib.Core.List.{append-nil}
use native_smart_card_os.Response.{
  ApduResponse, apdu_rsp_finish, apdu_rsp_init, apdu_rsp_put, put_bytes,
}
use native_smart_card_os.Sw.{sw1, sw2, sw_no_precise_diagnosis}
use native_smart_card_os.Common.{
  Bool, Bool-cases, List, [], arith, if◌then◌else◌, inl, inr, leb, length, length-append,
  length-splice, length-take, none, not, refl, some, take, take-splice_end, true, ℕ, ◌++◌, ◌+◌, ◌<◌,
  ◌==◌, ◌||◌, ◌∷◌, ◌≡◌, ◌≤◌,
}

-- The bytes of the caller's buffer.
abbrev pub buffer_of : ApduResponse → List ℕ
buffer_of r = elim r.buf [ none ↦ [] | some buf ↦ buf ]

-- A builder over a buffer of its full capacity, with room left for the status word.
pub record IsResponse (r : ApduResponse) : Type 0 where
  pub buffer : r.buf ≡ some (buffer_of r)
  pub sized : length (buffer_of r) ≡ r.cap
  pub narrow : r.cap < 65536
  pub reserved : r.len + 2 ≤ r.cap

-- The payload gathered so far.
abbrev pub contents : ApduResponse → List ℕ
contents r = take r.len (buffer_of r)

-- Whether `n` more bytes leave room for the status word.
abbrev pub fits : ApduResponse → ℕ → Bool
fits r n = leb (r.len + n + 2) r.cap

put_bytes-IsResponse :
    (r : ApduResponse) (src : List ℕ) (n : ℕ)
    → IsResponse r
    → 0 < n
    → n ≤ length src
    → fits r n ≡ true
    → let (done, r') = put_bytes r r.buf src n in
      (done ≡ true) × IsResponse r' × (contents r' ≡ contents r ++ take n src)
unfolding put_bytes
put_bytes-IsResponse r src n h pos enough room = ground (
  arith,
  length-take n src,
  length-splice r.len (take n src) (buffer_of r),
  take-splice_end r.len (take n src) (buffer_of r),
)

-- A builder that starts over a buffer of at least two bytes is well formed and empty.
pub apdu_rsp_init-IsResponse :
    (buf : List ℕ)
    → 2 ≤ length buf
    → length buf < 65536
    → let r = apdu_rsp_init (some buf) (length buf) in IsResponse r × (contents r ≡ [])
unfolding apdu_rsp_init
apdu_rsp_init-IsResponse buf h k =
    (record { buffer = refl; sized = refl; narrow = k; reserved = omega arith }, refl)

-- A put keeps the builder well formed. If the bytes fit they are appended to the payload; if not, the
-- payload is unchanged and the overflow is recorded.
pub apdu_rsp_put-IsResponse :
    (r : ApduResponse) (src : List ℕ) (n : ℕ)
    → IsResponse r
    → n ≤ length src
    → let (done, r') = apdu_rsp_put r (some src) n in
      (done ≡ fits r n)
      × IsResponse r'
      × (contents r' ≡ (if fits r n then contents r ++ take n src else contents r))
      × (r'.overflow ≡ (r.overflow || not (fits r n)))
unfolding apdu_rsp_put
apdu_rsp_put-IsResponse r src n h enough = elim (Bool-cases (n == 0)) [
  | inl empty ↦ ground (arith, append-nil (contents r))
  | inr some_bytes ↦ ground (arith, put_bytes-IsResponse r src n h)
]

-- The builder before and after a command's puts: well formed again, over the same capacity.
abbrev pub Keeps : ApduResponse → ApduResponse → Type 0
Keeps r r' = IsResponse r' × (r'.cap ≡ r.cap)

pub apdu_rsp_put-Keeps :
    (r : ApduResponse) (src : List ℕ) (n : ℕ)
    → IsResponse r
    → n ≤ length src
    → Keeps r (apdu_rsp_put r (some src) n).1
apdu_rsp_put-Keeps r src n h enough =
    ((apdu_rsp_put-IsResponse r src n h enough).1, unfold apdu_rsp_put put_bytes in ground arith)

-- Finishing a well-formed builder answers with the payload and the status word, or after an overflow
-- with 6F00 alone.
pub apdu_rsp_finish_lem :
    (r : ApduResponse) (sw : ℕ)
    → IsResponse r
    → let (total, r') = apdu_rsp_finish r sw in
      let answer =
        if r.overflow
        then sw1 sw_no_precise_diagnosis ∷ sw2 sw_no_precise_diagnosis ∷ []
        else contents r ++ sw1 sw ∷ sw2 sw ∷ [] in
      (take total (buffer_of r') ≡ answer) × (total ≡ length answer) × (total ≤ r.cap)
unfolding apdu_rsp_finish
apdu_rsp_finish_lem r sw h = ground (
  arith,
  length-take r.len (buffer_of r),
  length-append (contents r) (sw1 sw ∷ sw2 sw ∷ []),
  take-splice_end r.len (sw1 sw ∷ sw2 sw ∷ []) (buffer_of r),
  take-splice_end 0 (sw1 sw_no_precise_diagnosis ∷ sw2 sw_no_precise_diagnosis ∷ []) (buffer_of r),
)
