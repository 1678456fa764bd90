-- ===== src/Tlv.antt =====
-- include/apdu/tlv.h and src/apdu/tlv.c: the BER-TLV reader and writer. A pointer into a buffer is the
-- list of the bytes that may be read through it, and NULL is `none`.
pub mod Padding
pub mod Bounds
use native_smart_card_os.Common.{
  Bool, List, Option, [], bit_and, false, get_or, if◌then◌else◌, leb, length, ltb, none, slice,
  some, splice, suc, true, zero, ℕ, ◌!=◌, ◌%◌, ◌&&◌, ◌*◌, ◌+◌, ◌-◌, ◌/◌, ◌==◌, ◌^◌, ◌||◌, ◌∷◌,
}
use native_smart_card_os.OsMem.{os_memcpy_checked}

abbrev pub tlv_max_len_bytes : ℕ
tlv_max_len_bytes = 2

pub data TlvStatus : Type 0 where
  tlv_ok tlv_end tlv_err_param tlv_err_truncated tlv_err_tag tlv_err_length : TlvStatus

pub record TlvReader : Type 0 where
  pub buf : Option (List ℕ)
  pub len : ℕ
  pub pos : ℕ

pub record TlvObject : Type 0 where
  pub tag : ℕ
  pub value : Option (List ℕ)
  pub size : ℕ
  pub constructed : Bool

-- What `os_memset(out, 0, sizeof(*out))` leaves.
abbrev pub cleared_object : TlvObject
cleared_object = record { tag = 0; value = none; size = 0; constructed = false }

unfoldable pub tlv_reader_init : Option (List ℕ) → ℕ → TlvReader
tlv_reader_init none len = record { buf = none; len = 0; pos = 0 }
tlv_reader_init (some buf) len = record { buf = some buf; len = len; pos = 0 }

-- The loop of `skip_padding`, over the bytes that are left.
unfoldable pub skip_loop : ℕ → List ℕ → ℕ → ℕ
skip_loop zero buf pos = pos
skip_loop (suc n) buf pos =
    let next = skip_loop n buf (pos + 1) in
    if get_or buf pos 0 == 0x00 || get_or buf pos 0 == 0xFF then next else pos

unfoldable pub skip_padding : List ℕ → ℕ → ℕ → ℕ
unfolding skip_loop
skip_padding buf len pos = skip_loop (len - pos) buf pos

unfoldable pub tlv_reader_done : TlvReader → Bool
unfolding skip_padding
tlv_reader_done r = elim r.buf [ none ↦ true | some buf ↦ leb r.len (skip_padding buf r.len r.pos) ]

-- The tag that starts at `pos`: the tag, whether it is constructed, and the position behind it.
unfoldable pub read_tag : List ℕ → ℕ → ℕ → TlvStatus × ℕ × Bool × ℕ
read_tag buf len pos =
    let t0 = get_or buf pos 0 in
    let t1 = get_or buf (pos + 1) 0 in
    let constructed = bit_and t0 0x20 != 0 in
    if bit_and t0 0x1F == 0x1F
    then if leb len (pos + 1)
      then (tlv_err_truncated, 0, false, pos)
      else if bit_and t1 0x80 != 0
      then (tlv_err_tag, 0, false, pos)
      else (tlv_ok, t0 * 256 + t1, constructed, pos + 2)
    else (tlv_ok, t0, constructed, pos + 1)

-- The big-endian loop over the `n` bytes from `pos` on; it is also the loop of `tlv_get_uint`.
unfoldable pub read_uint : ℕ → List ℕ → ℕ → ℕ → ℕ
read_uint zero buf pos acc = acc
read_uint (suc n) buf pos acc = read_uint n buf (pos + 1) (acc * 256 % 2 ^ 32 + get_or buf pos 0)

-- The length that starts at `pos`: the length, and the position behind it.
unfoldable pub read_length : List ℕ → ℕ → ℕ → TlvStatus × ℕ × ℕ
unfolding read_uint
read_length buf len pos =
    let l0 = get_or buf pos 0 in
    let nbytes = bit_and l0 0x7F in
    if leb len pos
    then (tlv_err_truncated, 0, pos)
    else if ltb l0 0x80
    then (tlv_ok, l0, pos + 1)
    else if l0 == 0x80
    then (tlv_err_length, 0, pos)
    else if l0 == 0xFF
    then (tlv_err_length, 0, pos)
    else if ltb tlv_max_len_bytes nbytes
    then (tlv_err_length, 0, pos)
    else if ltb len (pos + 1 + nbytes)
    then (tlv_err_truncated, 0, pos)
    else (tlv_ok, read_uint nbytes buf (pos + 1) 0, pos + 1 + nbytes)

-- The object behind its tag and length, and the position behind its value; a refusal exhausts the
-- reader.
unfoldable pub read_value : List ℕ → ℕ → ℕ → Bool → TlvStatus × ℕ × ℕ → TlvStatus × ℕ × TlvObject
read_value buf len tag constructed (tlv_ok, size, p) =
    if ltb len (p + size) then (tlv_err_truncated, len, cleared_object) else (
      tlv_ok,
      p + size,
      record {
        tag = tag;
        value = (if ltb 0 size then some (slice p size buf) else none);
        size = size;
        constructed = constructed;
      },
    )
read_value buf len tag constructed (e, size, p) = (e, len, cleared_object)

unfoldable pub read_body : List ℕ → ℕ → TlvStatus × ℕ × Bool × ℕ → TlvStatus × ℕ × TlvObject
read_body buf len (tlv_ok, tag, constructed, p) =
    read_value buf len tag constructed (read_length buf len p)
read_body buf len (e, tag, constructed, p) = (e, len, cleared_object)

-- The object that starts at `pos`, and the position behind it.
unfoldable pub read_object : List ℕ → ℕ → ℕ → TlvStatus × ℕ × TlvObject
read_object buf len pos = read_body buf len (read_tag buf len pos)

unfoldable pub tlv_next : TlvReader → TlvStatus × TlvReader × TlvObject
tlv_next r = elim r.buf [
  | none ↦ (tlv_err_param, r, cleared_object)
  | some buf ↦
      let start = skip_padding buf r.len r.pos in
      let (st, pos, obj) = read_object buf r.len start in
      if leb r.len start
      then (tlv_end, record r { pos = r.len }, cleared_object)
      else (st, record r { pos = pos }, obj)
]

-- The search loop of `tlv_find` on fuel: every round that goes on moves the reader by two bytes at
-- least. `none` is a search that ran out of fuel.
unfoldable pub find_loop : ℕ → TlvReader → ℕ → Option (TlvStatus × TlvObject)
unfolding tlv_next
find_loop zero r tag = none
find_loop (suc fuel) r tag =
    let (st, r', obj) = tlv_next r in
    let rest = find_loop fuel r' tag in
    elim st [
      | tlv_ok ↦ if obj.tag == tag then some (tlv_ok, obj) else rest
      | tlv_end ↦ some (tlv_end, cleared_object)
      | e ↦ some (e, cleared_object)
    ]

unfoldable pub tlv_find : Option (List ℕ) → ℕ → ℕ → Option (TlvStatus × TlvObject)
unfolding find_loop tlv_reader_init
tlv_find none len tag = some (tlv_err_param, cleared_object)
tlv_find (some buf) len tag = find_loop (len + 1) (tlv_reader_init (some buf) len) tag

unfoldable pub tlv_get_uint : TlvObject → TlvStatus × ℕ
unfolding read_uint
tlv_get_uint obj = elim obj.value [
  | none ↦ (tlv_err_length, 0)
  | some value ↦
      if obj.size == 0
      then (tlv_err_length, 0)
      else if ltb 4 obj.size
      then (tlv_err_length, 0)
      else (tlv_ok, read_uint obj.size value 0 0)
]

abbrev is_null : Option (List ℕ) → Bool
is_null none = true
is_null (some value) = false

-- The tag, in one or two bytes, and the length.
abbrev pub tlv_header : ℕ → ℕ → List ℕ
tlv_header tag size =
    if ltb 0xFF tag
    then tag / 256 % 256 ∷ tag % 256 ∷ size % 256 ∷ []
    else tag % 256 ∷ size % 256 ∷ []

-- Whether the object was written, the buffer, and the position behind the object.
unfoldable pub tlv_put : List ℕ → ℕ → ℕ → ℕ → Option (List ℕ) → ℕ → Bool × List ℕ × ℕ
unfolding os_memcpy_checked splice
tlv_put buf room pos tag value size =
    let head = tlv_header tag size in
    let p = pos + length head in
    let buf' = splice pos head buf in
    let (copied, buf'') = os_memcpy_checked buf' p (room - p) value size in
    if ltb 0 size && is_null value
    then (false, buf, pos)
    else if ltb 127 size
    then (false, buf, pos)
    else if ltb room (pos + (length head + size))
    then (false, buf, pos)
    else if size == 0
    then (true, buf', p)
    else if copied
    then (true, buf'', (p + size) % 65536)
    else (false, buf', pos)
