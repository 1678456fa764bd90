-- ===== src/Link/Bounds.antt =====
-- transport.c and hal_arm_io.c: what a line hands up fits the room.
use native_smart_card_os.Kernel.{LinkEvent, link_down, received}
use native_smart_card_os.Link.{Delivery, LineResult, next_line, returns}
use native_smart_card_os.Link.Hex.{hex_nibble}
use native_smart_card_os.Link.Simulator.{
  Control, after_control, decode_loop, decoded, fgets, handle_control, handled, hex_decode,
  not_control, reader_reset, shut_down, take_line,
}
use native_smart_card_os.Link.Uart.{Frame, is_half, scan_char, scan_data, scan_digit, take_frame}
use native_smart_card_os.Common.{
  Bool-cases, List, Option, Option-cases, [], arith, get_or, if-holds, inl, inr, leb, length,
  length-append, none, not, refl, some, suc, zero, ℕ, ◌&&◌, ◌*◌, ◌++◌, ◌+◌, ◌<◌, ◌==◌, ◌||◌, ◌∷◌,
  ◌≡◌, ◌≤◌, ◌⊎◌,
}

-- A command fits the room.
abbrev pub Fits : ℕ → LinkEvent → Type 0
Fits room (received bytes) = length bytes ≤ room
Fits room _ = Unit

-- A call that returns has read something, unless the link is down, and what it hands up fits.
abbrev pub IsDelivered : ℕ → List ℕ → Delivery → Type 0
IsDelivered room input d =
    ((d.event ≡ link_down) ⊎ (length d.rest < length input)) × Fits room d.event

decode_loop-bounded :
    (room : ℕ) (text out : List ℕ) (hi : Option ℕ) (bytes : List ℕ)
    → length out ≤ room
    → decode_loop room text out hi ≡ some bytes
    → length bytes ≤ room
unfolding decode_loop
decode_loop-bounded room [] out none bytes h e = ground (arith, e)
decode_loop-bounded room [] out (some hi) bytes h e = absurd (ground (arith, e))
decode_loop-bounded room (c ∷ text) out hi bytes h e = elim (Option-cases (hex_nibble c)) [
  | inl f ↦ ground (arith, e, f, decode_loop-bounded room text out hi bytes h)
  | inr (v, f) ↦ elim (Option-cases hi) [
    | inl g ↦ ground (
      arith,
      e,
      f,
      g,
      decode_loop-bounded room text out hi bytes h,
      decode_loop-bounded room text out (some v) bytes h,
    )
    | inr (w, g) ↦ elim (Bool-cases (leb room (length out))) [
      | inl full ↦ ground (arith, e, f, g, full, decode_loop-bounded room text out hi bytes h)
      | inr free ↦ ground (
        arith,
        e,
        f,
        g,
        free,
        decode_loop-bounded room text out hi bytes h,
        decode_loop-bounded room text (out ++ (w * 16 + v) ∷ []) none bytes
            (ground (arith, free, length-append out ((w * 16 + v) ∷ []))),
      )
    ]
  ]
]

pub fgets_rest : (n : ℕ) (input : List ℕ) → length (fgets n input).1 ≤ length input
unfolding fgets
fgets_rest zero input = omega arith
fgets_rest (suc n) [] = omega arith
fgets_rest (suc n) (c ∷ input) = ground (arith, fgets_rest n input)

pub fgets_step :
    (n c : ℕ) (input : List ℕ) → length (fgets (suc n) (c ∷ input)).1 < length (c ∷ input)
unfolding fgets
fgets_step n c input = ground (arith, fgets_rest n input)

-- A turn that returns hands up what fits.
abbrev pub DoneFits : ℕ → LineResult → Type 0
DoneFits room (next_line text) = Unit
DoneFits room (returns event text) = Fits room event

decoded-DoneFits :
    (room : ℕ) (o : Option (List ℕ))
    → ((bytes : List ℕ) → o ≡ some bytes → length bytes ≤ room)
    → DoneFits room (decoded o)
unfolding decoded
decoded-DoneFits room none h = tt
decoded-DoneFits room (some bytes) h = h bytes refl

after_control-DoneFits :
    (room : ℕ) (line : List ℕ) (control : Control) (text : List ℕ)
    → DoneFits room (after_control room line control text)
unfolding after_control hex_decode
after_control-DoneFits room line handled text = tt
after_control-DoneFits room line shut_down text = tt
after_control-DoneFits room line reader_reset text = tt
after_control-DoneFits room line not_control text =
    decoded-DoneFits room (hex_decode room line)
      (λ bytes e. decode_loop-bounded room line [] none bytes (omega arith) e)

pub take_line-DoneFits : (room : ℕ) (line : List ℕ) → DoneFits room (take_line room line)
unfolding take_line
take_line-DoneFits room [] = tt
take_line-DoneFits room (c ∷ text) =
    after_control-DoneFits room (c ∷ text) (handle_control (c ∷ text)).0
      (handle_control (c ∷ text)).1

pub take_frame-DoneFits :
    (atr : List ℕ) (room : ℕ) (f : Frame) → length f.bytes ≤ room → DoneFits room (take_frame atr f)
unfolding take_frame
take_frame-DoneFits atr room f h =
    let P = DoneFits room in
    if-holds P (f.seen == 0) tt (
      if-holds P f.is_control
        (if-holds P (get_or f.control 0 0 == b'#') tt (
          if-holds P (get_or f.control 1 0 == b'q') tt (
            if-holds P (get_or f.control 1 0 == b'a') tt
              (if-holds P (get_or f.control 1 0 == b'r') tt tt))))
        (if-holds P (length f.bytes == 0 && not f.bad && not (is_half f.hi)) tt
          (if-holds P (f.bad || is_half f.hi) tt h)))

pub scan_char-bounded :
    (room c : ℕ) (f : Frame) → length f.bytes ≤ room → length (scan_char room c f).bytes ≤ room
unfolding scan_char scan_data scan_digit
scan_char-bounded room c f h = elim (Option-cases (hex_nibble c)) [
  | inl e ↦ ground (arith, e, h)
  | inr (v, e) ↦ elim (Option-cases f.hi) [
    | inl first ↦ ground (arith, e, first, h)
    | inr (w, second) ↦ ground (arith, e, second, h, length-append f.bytes ((w * 16 + v) ∷ []))
  ]
]
