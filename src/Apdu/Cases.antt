-- ===== src/Apdu/Cases.antt =====
-- apdu_parse.c: what the parser accepts, against the four cases of ISO/IEC 7816-4.
use native_smart_card_os.Common.{
  Bool-cases, List, Option, [], ap, arith, false, get_or, get_or-append, inl, inr, length,
  length-append, length-take, none, refl, some, suc, take, take-all, take-append, take-append_self,
  true, zero, ℕ, ◌++◌, ◌<◌, ◌==◌, ◌∷◌, ◌≡◌, ◌≢◌,
}
use native_smart_card_os.Apdu.{
  case_1, case_2, case_3, case_4, ApduCommand, parse_ok, cleared_command, wire_le, apdu_parse,
}

-- The wire form of each case. An Le byte stands for itself, and 0 stands for 256.
pub data Wire : Type 0 where
  wire_1 : Wire
  wire_2 : ℕ → Wire
  wire_3 : List ℕ → Wire
  wire_4 : List ℕ → ℕ → Wire

abbrev pub encode : ℕ → ℕ → ℕ → ℕ → Wire → List ℕ
encode cla ins p1 p2 wire_1 = cla ∷ ins ∷ p1 ∷ p2 ∷ []
encode cla ins p1 p2 (wire_2 le) = cla ∷ ins ∷ p1 ∷ p2 ∷ le ∷ []
encode cla ins p1 p2 (wire_3 body) = cla ∷ ins ∷ p1 ∷ p2 ∷ length body ∷ body
encode cla ins p1 p2 (wire_4 body le) = cla ∷ ins ∷ p1 ∷ p2 ∷ length body ∷ (body ++ le ∷ [])

-- A short body has at least one byte.
abbrev pub IsShort : Wire → Type 0
IsShort wire_1 = Unit
IsShort (wire_2 le) = Unit
IsShort (wire_3 body) = 0 < length body
IsShort (wire_4 body le) = 0 < length body

abbrev pub meant : ℕ → ℕ → ℕ → ℕ → Wire → ApduCommand
meant cla ins p1 p2 w = elim w [
  | wire_1 ↦ record {
    cla = cla;
    ins = ins;
    p1 = p1;
    p2 = p2;
    payload = none;
    lc = 0;
    le = 0;
    le_present = false;
    acase = case_1;
  }
  | wire_2 le ↦ record {
    cla = cla;
    ins = ins;
    p1 = p1;
    p2 = p2;
    payload = none;
    lc = 0;
    le = wire_le le;
    le_present = true;
    acase = case_2;
  }
  | wire_3 body ↦ record {
    cla = cla;
    ins = ins;
    p1 = p1;
    p2 = p2;
    payload = some body;
    lc = length body;
    le = 0;
    le_present = false;
    acase = case_3;
  }
  | wire_4 body le ↦ record {
    cla = cla;
    ins = ins;
    p1 = p1;
    p2 = p2;
    payload = some body;
    lc = length body;
    le = wire_le le;
    le_present = true;
    acase = case_4;
  }
]

last_byte : (body : List ℕ) (x : ℕ) → get_or (body ++ x ∷ []) (length body) 0 ≡ x
last_byte [] x = refl
last_byte (b ∷ body) x = last_byte body x

-- Every well-formed short command, in any of the four cases, is parsed to exactly its own fields,
-- with an Le of 0 read as 256.
pub apdu_parse-encode :
    (cla ins p1 p2 : ℕ) (w : Wire)
    → IsShort w
    → apdu_parse (some (encode cla ins p1 p2 w)) (length (encode cla ins p1 p2 w))
      ≡ (parse_ok, meant cla ins p1 p2 w)
unfolding apdu_parse
apdu_parse-encode cla ins p1 p2 wire_1 h = refl
apdu_parse-encode cla ins p1 p2 (wire_2 le) h = refl
apdu_parse-encode cla ins p1 p2 (wire_3 []) h = absurd (omega arith)
apdu_parse-encode cla ins p1 p2 (wire_3 (b ∷ body)) h =
    ground (arith, take-all (length body) body (omega arith))
apdu_parse-encode cla ins p1 p2 (wire_4 [] le) h = absurd (omega arith)
apdu_parse-encode cla ins p1 p2 (wire_4 (b ∷ body) le) h =
    ground (arith, length-append body (le ∷ []), take-append_self body (le ∷ []), last_byte body le)

-- The parser never reads past the length that it is given: bytes behind the command change nothing.
apdu_parse-bounded :
    (buf behind : List ℕ)
    → apdu_parse (some (buf ++ behind)) (length buf) ≡ apdu_parse (some buf) (length buf)
unfolding apdu_parse
apdu_parse-bounded [] behind = refl
apdu_parse-bounded (a ∷ []) behind = refl
apdu_parse-bounded (a ∷ b ∷ []) behind = refl
apdu_parse-bounded (a ∷ b ∷ c ∷ []) behind = refl
apdu_parse-bounded (a ∷ b ∷ c ∷ d ∷ []) behind = ground arith
apdu_parse-bounded (a ∷ b ∷ c ∷ d ∷ e ∷ buf) behind =
    ground (arith, take-append e buf behind, get_or-append buf behind e 0)

take-last : (n : ℕ) (xs : List ℕ) → length xs ≡ suc n → take n xs ++ get_or xs n 0 ∷ [] ≡ xs
take-last n [] h = absurd (omega arith)
take-last zero (x ∷ []) h = refl
take-last zero (x ∷ y ∷ xs) h = absurd (omega arith)
take-last (suc n) (x ∷ xs) h = ap (λ t. x ∷ t) (take-last n xs (omega arith))

-- Whatever is accepted is the encoding of one of the four cases, and every field that the parser gives is
-- the one of that encoding: the header, the data, Lc, Le and the case.
pub apdu_parse-accepts :
    (buf : List ℕ) (c : ApduCommand)
    → apdu_parse (some buf) (length buf) ≡ (parse_ok, c)
    → (w : Wire) × IsShort w
      × (buf ≡ encode c.cla c.ins c.p1 c.p2 w)
      × (c ≡ meant c.cla c.ins c.p1 c.p2 w)
unfolding apdu_parse
apdu_parse-accepts [] c h = cc
apdu_parse-accepts (a ∷ []) c h = cc
apdu_parse-accepts (a ∷ b ∷ []) c h = cc
apdu_parse-accepts (x ∷ b ∷ y ∷ []) c h = cc
apdu_parse-accepts (x ∷ b ∷ y ∷ d ∷ []) c h = (wire_1, tt, ground arith, ground arith)
apdu_parse-accepts (x ∷ b ∷ y ∷ d ∷ e ∷ []) c h = (wire_2 e, tt, ground arith, ground arith)
apdu_parse-accepts (x ∷ b ∷ y ∷ d ∷ e ∷ z ∷ buf) c h = elim (Bool-cases (suc (length buf) == e)) [
  | inl t ↦ (
    wire_3 (z ∷ buf),
    omega arith,
    ground arith,
    ground (arith, take-all e (z ∷ buf) (ground arith)),
  )
  | inr f ↦ elim (Bool-cases (length buf == e)) [
    | inl t ↦ (
      wire_4 (take e (z ∷ buf)) (get_or (z ∷ buf) e 0),
      ground (arith, length-take e (z ∷ buf)),
      ground (arith, length-take e (z ∷ buf), take-last e (z ∷ buf)),
      ground (arith, length-take e (z ∷ buf)),
    )
    | inr g ↦ absurd (ground arith)
  ]
]

-- A command that is refused leaves no field behind.
pub apdu_parse-refused :
    (buf : Option (List ℕ)) (len : ℕ)
    → (apdu_parse buf len).0 ≢ parse_ok
    → (apdu_parse buf len).1 ≡ cleared_command
unfolding apdu_parse
apdu_parse-refused none len h = refl
apdu_parse-refused (some buf) len h = ground arith
