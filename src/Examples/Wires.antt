-- ===== src/Examples/Wires.antt =====
-- The parsers and the response builder at the bytes of commands.
use native_smart_card_os.Apdu.{apdu_check_cla, apdu_cla_status_sw, apdu_parse, parse_ok}
use native_smart_card_os.Apdu.Cases.{
  IsShort, Wire, apdu_parse-accepts, apdu_parse-encode, encode, meant, wire_2, wire_4,
}
use native_smart_card_os.Apdu.Class.{apdu_check_cla-classes, class_sw}
use native_smart_card_os.Cmd.RoundTrip.{Gives, IsListed, parse_fcp-fs_build_fcp, request_of}
use native_smart_card_os.Fs.{FsDescriptor, fs_lc_activated, fs_type_ef_transparent}
use native_smart_card_os.Tree.{fs_build_fcp}
use native_smart_card_os.Response.{ApduResponse, apdu_rsp_put}
use native_smart_card_os.Response.Contents.{IsResponse, apdu_rsp_put-IsResponse, contents, fits}
use native_smart_card_os.Tlv.{TlvReader, tlv_reader_init}
use native_smart_card_os.Common.{
  List, [], arith, false, inl, inr, if◌then◌else◌, length, not, refl, some, take, ℕ, ◌++◌, ◌||◌,
  ◌∷◌, ◌≡◌, ◌≢◌,
}

apdu_parse-encode_example :
    apdu_parse
      (some (encode 0x00 0xA4 0x00 0x00 (wire_4 (0x3F ∷ 0x00 ∷ []) 0)))
      (length (encode 0x00 0xA4 0x00 0x00 (wire_4 (0x3F ∷ 0x00 ∷ []) 0)))
    ≡ (parse_ok, meant 0x00 0xA4 0x00 0x00 (wire_4 (0x3F ∷ 0x00 ∷ []) 0))
apdu_parse-encode_example =
    apdu_parse-encode 0x00 0xA4 0x00 0x00 (wire_4 (0x3F ∷ 0x00 ∷ []) 0) (omega arith)

abbrev read_wire : List ℕ
read_wire = encode 0x00 0xB0 0x00 0x04 (wire_2 0x10)

apdu_parse-accepts_example :
    (w : Wire) × IsShort w
    × (read_wire ≡ encode 0x00 0xB0 0x00 0x04 w)
    × (meant 0x00 0xB0 0x00 0x04 (wire_2 0x10) ≡ meant 0x00 0xB0 0x00 0x04 w)
apdu_parse-accepts_example =
    apdu_parse-accepts read_wire (meant 0x00 0xB0 0x00 0x04 (wire_2 0x10))
      (apdu_parse-encode 0x00 0xB0 0x00 0x04 (wire_2 0x10) tt)

truncated_refused : (apdu_parse (some (0x00 ∷ 0xA4 ∷ [])) 2).0 ≢ parse_ok
unfolding apdu_parse
truncated_refused = λ e. cc

apdu_check_cla-classes_example : apdu_cla_status_sw (apdu_check_cla 0x0C) ≡ class_sw 0x0C
apdu_check_cla-classes_example = apdu_check_cla-classes 0x0C (omega arith)

abbrev builder : ApduResponse
builder = record { buf = some (0 ∷ 0 ∷ 0 ∷ 0 ∷ 0 ∷ []); cap = 5; len = 1; overflow = false }

builder-IsResponse : IsResponse builder
builder-IsResponse = record {
  buffer = refl;
  sized = refl;
  narrow = omega arith;
  reserved = omega arith;
}

apdu_rsp_put-IsResponse_example :
    let (done, r') = apdu_rsp_put builder (some (0x62 ∷ 0x0F ∷ 0x82 ∷ [])) 3 in
    (done ≡ fits builder 3)
    × IsResponse r'
    × (contents r' ≡ (
        if fits builder 3
        then contents builder ++ take 3 (0x62 ∷ 0x0F ∷ 0x82 ∷ [])
        else contents builder))
    × (r'.overflow ≡ (builder.overflow || not (fits builder 3)))
apdu_rsp_put-IsResponse_example =
    apdu_rsp_put-IsResponse builder (0x62 ∷ 0x0F ∷ 0x82 ∷ []) 3 builder-IsResponse (omega arith)

abbrev reader : TlvReader
reader = tlv_reader_init (some (0x00 ∷ 0x83 ∷ 0x02 ∷ 0x2F ∷ 0x00 ∷ 0x80 ∷ [])) 6

-- An EF of 16 bytes with the short identifier 3.
abbrev listed_ef : FsDescriptor
listed_ef = record {
  file_id = 0x2F01;
  ftype = fs_type_ef_transparent;
  lifecycle = fs_lc_activated;
  parent = 0;
  size = 16;
  data_offset = 112;
  ac_read = 0;
  ac_update = 0;
  sfi = 3;
  flags = 0;
}

listed_ef-IsListed : IsListed listed_ef
listed_ef-IsListed = record {
  id_fits = omega arith;
  alive = inr (inr (inl refl));
  typed = inr (refl, omega arith, omega arith, omega arith);
}

parse_fcp-fs_build_fcp_example : Gives (fs_build_fcp listed_ef 32) (request_of listed_ef)
parse_fcp-fs_build_fcp_example = parse_fcp-fs_build_fcp listed_ef listed_ef-IsListed
