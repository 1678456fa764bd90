-- ===== src/Tlv/Bounds.antt =====
-- tlv.c: the reader stays within its buffer and always ends.
use mathlib.Core.Path.{subst}
use native_smart_card_os.Tlv.{
  skip_loop, TlvObject, TlvReader, tlv_next, tlv_ok, read_length, read_tag, read_object, tlv_end,
  skip_padding, read_body, read_value, TlvStatus, tlv_find, find_loop, tlv_reader_init,
}
use native_smart_card_os.Tlv.Padding.{
  is_padding, skip_loop_bounds, skip_loop_end, skip_loop_padding,
}
use native_smart_card_os.Common.{
  Bool, List, [], Option, arith, bit_and, false, get_or, if-split, if◌then◌else◌, inl, inr, leb,
  ltb, none, refl, slice, some, suc, true, zero, ℕ, ◌==◌, ◌+◌, ◌-◌, ◌<◌, ◌≡◌, ◌≢◌, ◌≤◌, ◌⊎◌,
}

-- How many bytes a tag takes, by its first byte, and a length, by its first byte.
abbrev pub tag_bytes : ℕ → ℕ
tag_bytes t = if bit_and t 0x1F == 0x1F then 2 else 1

abbrev pub length_bytes : ℕ → ℕ
length_bytes l = if ltb l 0x80 then 1 else 1 + bit_and l 0x7F

-- Where the length and the value of the object stand that starts at a position.
abbrev pub length_at : List ℕ → ℕ → ℕ
length_at buf start = start + tag_bytes (get_or buf start 0)

abbrev pub value_from : List ℕ → ℕ → ℕ
value_from buf start = length_at buf start + length_bytes (get_or buf (length_at buf start) 0)

read_tag_bounds :
    (buf : List ℕ) (len pos : ℕ)
    → let (st, tag, constructed, p) = read_tag buf len pos in
      (st ≡ tlv_ok) × (p ≡ length_at buf pos) ⊎ (st ≢ tlv_ok) × (st ≢ tlv_end)
unfolding read_tag
read_tag_bounds buf len pos = ground arith

-- A length ends within the buffer.
read_length_bounds :
    (buf : List ℕ) (len pos : ℕ)
    → let (st, size, p) = read_length buf len pos in
      (st ≡ tlv_ok) × (p ≡ pos + length_bytes (get_or buf pos 0)) × (p ≤ len)
      ⊎ (st ≢ tlv_ok) × (st ≢ tlv_end)
unfolding read_length
read_length_bounds buf len pos = ground arith

-- The value is the bytes from a position on, and ends at another one.
abbrev pub Holds : List ℕ → TlvObject → ℕ → ℕ → Type 0
Holds buf obj from end =
    (end ≡ from + obj.size)
    × (obj.value ≡ (if obj.size == 0 then none else some (slice from obj.size buf)))

read_value_bounds :
    (buf : List ℕ) (len tag : ℕ) (constructed : Bool) (st : TlvStatus) (size p v : ℕ)
    → (st ≡ tlv_ok) × (p ≡ v) × (p ≤ len) ⊎ (st ≢ tlv_ok) × (st ≢ tlv_end)
    → let (st', p', obj) = read_value buf len tag constructed (st, size, p) in
      (st' ≡ tlv_ok) × Holds buf obj v p' × (p' ≤ len)
      ⊎ (st' ≢ tlv_ok) × (st' ≢ tlv_end) × (p' ≡ len)
unfolding read_value
read_value_bounds buf len tag constructed tlv_ok size p v h = ground arith
read_value_bounds buf len tag constructed _ size p v h = ground arith

read_body_bounds :
    (buf : List ℕ) (len : ℕ) (st : TlvStatus) (tag : ℕ) (constructed : Bool) (p pos : ℕ)
    → (st ≡ tlv_ok) × (p ≡ length_at buf pos) ⊎ (st ≢ tlv_ok) × (st ≢ tlv_end)
    → let (st', p', obj) = read_body buf len (st, tag, constructed, p) in
      (st' ≡ tlv_ok) × Holds buf obj (value_from buf pos) p' × (p' ≤ len)
      ⊎ (st' ≢ tlv_ok) × (st' ≢ tlv_end) × (p' ≡ len)
unfolding read_body
read_body_bounds buf len tlv_ok tag constructed p pos (inr (bad, x)) = absurd (bad refl)
read_body_bounds buf len tlv_ok tag constructed p pos (inl (good, at)) =
    let (st, size, p') = read_length buf len p in
    let read =
      subst
        (λ k.
          (st ≡ tlv_ok) × (p' ≡ k + length_bytes (get_or buf k 0)) × (p' ≤ len)
          ⊎ (st ≢ tlv_ok) × (st ≢ tlv_end))
        at (read_length_bounds buf len p) in
    read_value_bounds buf len tag constructed st size p' (value_from buf pos) read
read_body_bounds buf len _ tag constructed p pos h = ground arith

read_object_bounds :
    (buf : List ℕ) (len pos : ℕ)
    → let (st, p, obj) = read_object buf len pos in
      (st ≡ tlv_ok) × Holds buf obj (value_from buf pos) p × (p ≤ len)
      ⊎ (st ≢ tlv_ok) × (st ≢ tlv_end) × (p ≡ len)
unfolding read_object
read_object_bounds buf len pos =
    let (st, tag, constructed, p) = read_tag buf len pos in
    read_body_bounds buf len st tag constructed p pos (read_tag_bounds buf len pos)

-- The reader within its buffer, as `tlv_reader_init` makes it.
pub record IsReader (r : TlvReader) : Type 0 where
  pub present : r.buf ≢ none
  pub within : r.pos ≤ r.len

abbrev pub bytes_of : TlvReader → List ℕ
bytes_of r = elim r.buf [ none ↦ [] | some buf ↦ buf ]

-- The object stands behind padding: its tag starts at the first byte that is neither 00 nor FF, its value
-- behind the tag and the length, and it ends at the new position.
pub record IsFound (buf : List ℕ) (pos : ℕ) (obj : TlvObject) (end : ℕ) : Type 0 where
  pub start : ℕ
  pub ahead : pos ≤ start
  pub padding : (i : ℕ) → pos ≤ i → i < start → is_padding (get_or buf i 0) ≡ true
  pub no_padding : is_padding (get_or buf start 0) ≡ false
  pub holds : Holds buf obj (value_from buf start) end

IsFound-at :
    (buf : List ℕ) (len pos : ℕ) (obj : TlvObject) (end : ℕ)
    → pos ≤ len
    → leb len (skip_padding buf len pos) ≡ false
    → Holds buf obj (value_from buf (skip_padding buf len pos)) end
    → IsFound buf pos obj end
unfolding skip_padding
IsFound-at buf len pos obj end within more holds =
    let start = skip_loop (len - pos) buf pos in
    let bounds = skip_loop_bounds (len - pos) buf pos in
    record {
      start = start;
      ahead = bounds.0;
      padding = λ i lo hi. skip_loop_padding (len - pos) buf pos i lo hi;
      no_padding = skip_loop_end (len - pos) buf pos (ground (arith, more));
      holds = holds;
    }

-- What a call does to a reader.
abbrev pub Reads : TlvReader → TlvStatus × TlvReader × TlvObject → Type 0
Reads r (st, r', obj) =
    IsReader r'
    × (r'.len ≡ r.len)
    × (r'.buf ≡ r.buf)
    × ((st ≡ tlv_ok) × IsFound (bytes_of r) r.pos obj r'.pos ⊎ (st ≢ tlv_ok) × (r'.pos ≡ r.len))

Reads-at :
    (o : Option (List ℕ)) (len pos : ℕ)
    → let r : TlvReader = record { buf = o; len = len; pos = pos } in
      IsReader r → Reads r (tlv_next r)
unfolding tlv_next
Reads-at none len pos h = absurd (h.present refl)
Reads-at (some buf) len pos h =
    let start = skip_padding buf len pos in
    let (st, end, obj) = read_object buf len start in
    let r : TlvReader = record { buf = some buf; len = len; pos = pos } in
    if-split (Reads r) (leb len start)
      (λ done.
        (record { present = h.present; within = omega arith }, refl, refl, inr (λ e. cc, refl)))
      (λ more. elim (read_object_bounds buf len start) [
        | inr (bad, not_end, at_end) ↦
            (record { present = h.present; within = omega arith }, refl, refl, inr (bad, at_end))
        | inl (good, holds, inside) ↦ (
          record { present = h.present; within = inside },
          refl,
          refl,
          inl (good, IsFound-at buf len pos obj end h.within more holds),
        )
      ])

pub tlv_next-IsReader : (r : TlvReader) → IsReader r → Reads r (tlv_next r)
tlv_next-IsReader r h = Reads-at r.buf r.len r.pos h

find_loop_total :
    (fuel : ℕ) (r : TlvReader) (tag : ℕ)
    → IsReader r
    → r.len < fuel + r.pos
    → find_loop fuel r tag ≢ none
unfolding find_loop
find_loop_total zero r tag h enough = absurd (omega (arith, h.within))
find_loop_total (suc fuel) r tag h enough =
    ground (arith, tlv_next-IsReader r h, find_loop_total fuel (tlv_next r).1 tag)

-- The search for a tag ends on every input, however the lengths in it are chosen: `len + 1` rounds
-- are enough.
tlv_find-ne-none : (buf : Option (List ℕ)) (len tag : ℕ) → tlv_find buf len tag ≢ none
unfolding tlv_find
tlv_find-ne-none none len tag = λ e. cc
tlv_find-ne-none (some buf) len tag =
    find_loop_total (len + 1) (tlv_reader_init (some buf) len) tag
      (record { present = λ e. cc; within = omega arith }) (omega arith)
