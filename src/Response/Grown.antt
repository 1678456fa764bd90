-- ===== src/Response/Grown.antt =====
-- apdu_resp.c: bytes that fit the response, one put after the other.
use native_smart_card_os.Response.{ApduResponse, apdu_rsp_put, apdu_rsp_put_u8, put_bytes}
use native_smart_card_os.Response.Contents.{IsResponse, apdu_rsp_put-IsResponse, contents, fits}
use native_smart_card_os.Common.{
  List, [], ap, append_assoc, arith, length, length-append, some, take-all, true, ℕ, ◌++◌, ◌+◌, ◌∷◌,
  ◌∙◌, ◌≡◌,
}

-- The builder after bytes that fit.
pub record Grown (r : ApduResponse) (more : List ℕ) (r' : ApduResponse) : Type 0 where
  pub built : IsResponse r'
  pub grown : contents r' ≡ contents r ++ more
  pub same_overflow : r'.overflow ≡ r.overflow
  pub longer : r'.len ≡ r.len + length more
  pub same_cap : r'.cap ≡ r.cap

-- Bytes that are appended one after the other.
pub Grown-then :
    {r r1 r2 : ApduResponse} {a b : List ℕ} → Grown r a r1 → Grown r1 b r2 → Grown r (a ++ b) r2
Grown-then {r} {r1} {r2} {a} {b} g k = record {
  built = k.built;
  grown = k.grown ∙ ap (λ xs. xs ++ b) (g.grown) ∙ append_assoc (contents r) a b;
  same_overflow = k.same_overflow ∙ g.same_overflow;
  longer = omega (arith, g.longer, k.longer, length-append a b);
  same_cap = k.same_cap ∙ g.same_cap;
}

-- Bytes that fit are appended.
pub put-Grown :
    (r : ApduResponse) (src : List ℕ)
    → IsResponse r
    → fits r (length src) ≡ true
    → let (done, r') = apdu_rsp_put r (some src) (length src) in (done ≡ true) × Grown r src r'
unfolding apdu_rsp_put put_bytes
put-Grown r src h room =
    let (done, built, more, over) = apdu_rsp_put-IsResponse r src (length src) h (omega arith) in
    (
      done ∙ room,
      record {
        built = built;
        grown = ground (arith, more, room, take-all (length src) src (omega arith));
        same_overflow = ground (arith, over, room);
        longer = ground (arith, h, room);
        same_cap = ground (arith, h, room);
      },
    )

pub u8-Grown :
    (r : ApduResponse) (b : ℕ)
    → IsResponse r
    → fits r 1 ≡ true
    → let (done, r') = apdu_rsp_put_u8 r b in (done ≡ true) × Grown r (b ∷ []) r'
unfolding apdu_rsp_put_u8
u8-Grown r b h room = put-Grown r (b ∷ []) h room
