-- ===== src/Apdu.antt =====
-- include/apdu/apdu.h and src/apdu/apdu_parse.c: the command APDU, its parser and the class check.
-- A pointer into a buffer is the list of the bytes that may be read through it, and NULL is `none`.
pub mod Cases
pub mod Class
use native_smart_card_os.Common.{
  Bool, List, Option, bit_and, false, get_or, if◌then◌else◌, ltb, none, slice, some, true, ℕ, ◌!=◌,
  ◌+◌, ◌-◌, ◌==◌,
}
use native_smart_card_os.Sw.{
  sw_ok, sw_wrong_length, sw_func_not_supported, sw_logical_channel_not_supported,
  sw_secure_messaging_not_supported, sw_chaining_not_supported, sw_cla_not_supported,
}

abbrev pub apdu_header_len : ℕ
apdu_header_len = 4

abbrev pub apdu_short_le_max : ℕ
apdu_short_le_max = 256

-- `enum apdu_case`; `case_none` is the zero that a cleared command holds.
pub data ApduCase : Type 0 where
  case_none case_1 case_2 case_3 case_4 : ApduCase

pub record ApduCommand : Type 0 where
  pub cla : ℕ
  pub ins : ℕ
  pub p1 : ℕ
  pub p2 : ℕ
  pub payload : Option (List ℕ)
  pub lc : ℕ
  pub le : ℕ
  pub le_present : Bool
  pub acase : ApduCase

pub data ApduParseStatus : Type 0 where
  parse_ok parse_too_short parse_bad_length parse_extended : ApduParseStatus

-- What `os_memset(out, 0, sizeof(*out))` leaves.
abbrev pub cleared_command : ApduCommand
cleared_command = record {
  cla = 0;
  ins = 0;
  p1 = 0;
  p2 = 0;
  payload = none;
  lc = 0;
  le = 0;
  le_present = false;
  acase = case_none;
}

-- The four header bytes.
abbrev header_of : List ℕ → ApduCommand
header_of buf = record cleared_command {
  cla = get_or buf 0 0;
  ins = get_or buf 1 0;
  p1 = get_or buf 2 0;
  p2 = get_or buf 3 0;
}

-- An Le byte of 0 on the wire means 256.
abbrev pub wire_le : ℕ → ℕ
wire_le byte = if byte == 0 then apdu_short_le_max else byte

-- `apdu_parse`, behind its check for NULL.
parse_bytes : List ℕ → ℕ → ApduParseStatus × ApduCommand
parse_bytes buf len =
    let header = header_of buf in
    let p3 = get_or buf 4 0 in
    let case3_len = apdu_header_len + 1 + p3 in
    let case4_len = apdu_header_len + 1 + p3 + 1 in
    let body = some (slice (apdu_header_len + 1) p3 buf) in
    if ltb len apdu_header_len
    then (parse_too_short, cleared_command)
    else if len == apdu_header_len
    then (parse_ok, record header { acase = case_1 })
    else if len == apdu_header_len + 1
    then (parse_ok, record header { le = wire_le p3; le_present = true; acase = case_2 })
    else if p3 == 0
    then (parse_extended, cleared_command)
    else if len == case3_len
    then (parse_ok, record header { payload = body; lc = p3; acase = case_3 })
    else if len == case4_len
    then (
      parse_ok,
      record header {
        payload = body;
        lc = p3;
        le = wire_le (get_or buf (case4_len - 1) 0);
        le_present = true;
        acase = case_4;
      },
    )
    else (parse_bad_length, cleared_command)

unfoldable pub apdu_parse : Option (List ℕ) → ℕ → ApduParseStatus × ApduCommand
unfolding parse_bytes
apdu_parse none len = (parse_too_short, cleared_command)
apdu_parse (some buf) len = parse_bytes buf len

unfoldable pub apdu_parse_status_sw : ApduParseStatus → ℕ
apdu_parse_status_sw parse_ok = sw_ok
apdu_parse_status_sw parse_too_short = sw_wrong_length
apdu_parse_status_sw parse_bad_length = sw_wrong_length
apdu_parse_status_sw parse_extended = sw_func_not_supported

pub data ApduClaStatus : Type 0 where
  cla_ok cla_invalid cla_channel_unsupported cla_sm_unsupported cla_chaining_unsupported :
      ApduClaStatus

unfoldable pub apdu_check_cla : ℕ → ApduClaStatus
apdu_check_cla cla =
    if cla == 0xFF
    then cla_invalid
    else if bit_and cla 0xE0 != 0
    then cla_invalid
    else if bit_and cla 0x10 != 0
    then cla_chaining_unsupported
    else if bit_and cla 0x0C != 0
    then cla_sm_unsupported
    else if bit_and cla 0x03 != 0
    then cla_channel_unsupported
    else cla_ok

unfoldable pub apdu_cla_status_sw : ApduClaStatus → ℕ
apdu_cla_status_sw cla_ok = sw_ok
apdu_cla_status_sw cla_channel_unsupported = sw_logical_channel_not_supported
apdu_cla_status_sw cla_sm_unsupported = sw_secure_messaging_not_supported
apdu_cla_status_sw cla_chaining_unsupported = sw_chaining_not_supported
apdu_cla_status_sw cla_invalid = sw_cla_not_supported
