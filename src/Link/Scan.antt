-- ===== src/Link/Scan.antt =====
-- hal_arm_io.c: the scan of a line of data is the decoding of transport.c.
use native_smart_card_os.Link.Hex.{bad_char, digit_char, is_separator, sep_char, symbol}
use native_smart_card_os.Link.Simulator.{decode_loop, hex_decode, is_skipped}
use native_smart_card_os.Link.Uart.{
  Frame, is_control_at, is_half, is_line_end, new_frame, scan_char, scan_data, scan_digit,
}
use native_smart_card_os.Common.{
  All, Bool-cases, List, Option, Option-cases, [], arith, false, get_or, if◌then◌else◌, inl, inr,
  leb, length, none, refl, some, true, ℕ, ◌==◌, ◌||◌, ◌∷◌, ◌≡◌,
}

-- A line between two line ends.
abbrev pub IsLine : List ℕ → Type 0
IsLine = All (λ c. is_line_end c ≡ false)

-- The UART's frame after the characters of a line.
unfoldable pub scan_line : ℕ → List ℕ → Frame → Frame
scan_line room [] f = f
scan_line room (c ∷ text) f = scan_line room text (scan_char room c f)

-- The frame's bytes, where the line is well formed.
unfoldable pub verdict : Frame → Option (List ℕ)
verdict f = if f.bad || is_half f.hi then none else some f.bytes

-- A frame past its first character, in a line of data.
abbrev pub IsData : Frame → Type 0
IsData f = (f.is_control ≡ false) × ((f.seen == 0) ≡ false)

control_data : (c : ℕ) (f : Frame) → IsData f → is_control_at c f ≡ false
unfolding is_control_at
control_data c f h = ground (arith, h)

scan_char-IsData :
    (room c : ℕ) (f : Frame) → is_control_at c f ≡ false → IsData (scan_char room c f)
unfolding scan_char scan_data scan_digit
scan_char-IsData room c f h = elim (Option-cases f.hi) [
  | inl e ↦ (ground (arith, h, e), ground (arith, h, e))
  | inr (v, e) ↦ (ground (arith, h, e), ground (arith, h, e))
]

scan_char_bad :
    (room c : ℕ) (f : Frame)
    → is_control_at c f ≡ false
    → f.bad ≡ true
    → (scan_char room c f).bad ≡ true
unfolding scan_char scan_data scan_digit
scan_char_bad room c f h bad = ground (arith, h, bad)

-- A line that is bad stays bad.
scan_line_bad :
    (room : ℕ) (text : List ℕ) (f : Frame)
    → IsData f
    → f.bad ≡ true
    → verdict (scan_line room text f) ≡ none
unfolding scan_line verdict
scan_line_bad room [] f h bad = ground (arith, bad)
scan_line_bad room (c ∷ text) f h bad =
    scan_line_bad room text (scan_char room c f) (scan_char-IsData room c f (control_data c f h))
      (scan_char_bad room c f (control_data c f h) bad)

skipped : (c : ℕ) → is_line_end c ≡ false → is_skipped c ≡ is_separator c
unfolding is_line_end is_skipped is_separator
skipped c h = ground (arith, h)

-- The scan of a text from a frame that is not bad is the decoding from its bytes.
abbrev pub Scans : ℕ → List ℕ → Type 0
Scans room text =
    (f : Frame)
    → IsData f
    → f.bad ≡ false
    → verdict (scan_line room text f) ≡ decode_loop room text f.bytes f.hi

-- One character does to the frame what it does to the decoder's state.
scan_step :
    (room c : ℕ) (text : List ℕ) (f : Frame)
    → is_line_end c ≡ false
    → is_control_at c f ≡ false
    → f.bad ≡ false
    → Scans room text
    → verdict (scan_line room text (scan_char room c f)) ≡ decode_loop room (c ∷ text) f.bytes f.hi
unfolding decode_loop scan_char scan_data scan_digit
scan_step room c text f inside h good rest =
    let g = scan_char room c f in
    let data_g = scan_char-IsData room c f h in
    let shown = skipped c inside in
    elim (symbol c) [
      | sep_char e ↦ ground (arith, e, shown, rest g data_g (ground (arith, h, good, e)), h)
      | bad_char e none_e ↦
          ground (
            arith,
            shown,
            e,
            none_e,
            scan_line_bad room text g data_g (ground (arith, h, e, none_e)),
          )
      | digit_char v e v_e small ↦ elim (Option-cases f.hi) [
        | inl first ↦
            ground (
              arith,
              e,
              v_e,
              first,
              shown,
              h,
              rest g data_g (ground (arith, h, good, e, v_e, first)),
            )
        | inr (hi, second) ↦ elim (Bool-cases (leb room (length f.bytes))) [
          | inl full ↦ ground (
            arith,
            e,
            v_e,
            second,
            shown,
            full,
            scan_line_bad room text g data_g (ground (arith, h, e, v_e, second, full)),
          )
          | inr free ↦ ground (
            arith,
            e,
            v_e,
            second,
            shown,
            free,
            h,
            rest g data_g (ground (arith, h, good, e, v_e, second, free)),
          )
        ]
      ]
    ]

scan_line-Scans : (room : ℕ) (text : List ℕ) → IsLine text → Scans room text
unfolding scan_line verdict decode_loop
scan_line-Scans room [] line f h good = elim (Option-cases f.hi) [
  | inl e ↦ ground (arith, good, e)
  | inr (v, e) ↦ ground (arith, good, e)
]
scan_line-Scans room (c ∷ text) line f h good =
    scan_step room c text f line.0 (control_data c f h) good (scan_line-Scans room text line.1)

-- A line that starts with none of the characters of the transport's own lines.
abbrev pub IsDataLine : List ℕ → Type 0
IsDataLine text = IsLine text × (is_control_at (get_or text 0 0) new_frame ≡ false)

pub scan_data_line :
    (room : ℕ) (text : List ℕ)
    → IsDataLine text
    → verdict (scan_line room text new_frame) ≡ hex_decode room text
unfolding hex_decode scan_line new_frame verdict decode_loop
scan_data_line room [] h = refl
scan_data_line room (c ∷ text) h =
    scan_step room c text new_frame h.0.0 h.1 refl (scan_line-Scans room text h.0.1)

scan_line-IsData :
    (room : ℕ) (text : List ℕ) (f : Frame) → IsData f → IsData (scan_line room text f)
unfolding scan_line
scan_line-IsData room [] f h = h
scan_line-IsData room (c ∷ text) f h =
    scan_line-IsData room text (scan_char room c f) (scan_char-IsData room c f (control_data c f h))

pub line-IsData :
    (room c : ℕ) (text : List ℕ)
    → IsDataLine (c ∷ text)
    → IsData (scan_line room (c ∷ text) new_frame)
unfolding scan_line
line-IsData room c text h =
    scan_line-IsData room text (scan_char room c new_frame) (scan_char-IsData room c new_frame h.1)
