-- ===== src/Cmd/Template.antt =====
-- cmd_create.c: the parser of the file control parameters.
use native_smart_card_os.Cmd.Select.{Target, answer, target}
use native_smart_card_os.Fs.{
  FsDescriptor, fs_lc_activated, fs_lc_creation, fs_lc_deactivated, fs_lc_initialised,
  fs_max_ef_size, fs_no_parent, fs_no_sfi, fs_type_df, fs_type_ef_transparent, fs_type_free,
}
use native_smart_card_os.Sw.{sw_func_not_supported, sw_not_enough_space, sw_wrong_data}
use native_smart_card_os.Tlv.{
  TlvObject, TlvReader, tlv_end, tlv_get_uint, tlv_next, tlv_ok, tlv_reader_done, tlv_reader_init,
}
use native_smart_card_os.Common.{
  Bool, List, Option, bit_and, false, get_or, if◌then◌else◌, ltb, none, not, some, suc, true, zero,
  ℕ, ◌!=◌, ◌%◌, ◌&&◌, ◌*◌, ◌+◌, ◌/◌, ◌==◌, ◌||◌,
}

pub data FdbResult : Type 0 where
  fdb_accepted : ℕ → FdbResult
  fdb_malformed fdb_unsupported : FdbResult

-- The file descriptor byte as a file type.
unfoldable pub decode_fdb : ℕ → FdbResult
decode_fdb fdb =
    if bit_and fdb 0x80 != 0
    then fdb_malformed
    else if bit_and fdb 0x38 == 0x38
    then if bit_and fdb 0x07 != 0x00 then fdb_malformed else fdb_accepted fs_type_df
    else if bit_and fdb 0x38 == 0x00 && bit_and fdb 0x07 == 0x01
    then fdb_accepted fs_type_ef_transparent
    else fdb_unsupported

-- What the loop of `parse_fcp` gathers: the request, and which tags have been seen.
pub record Gathered : Type 0 where
  pub req : FsDescriptor
  pub have_fdb : Bool
  pub have_fid : Bool
  pub have_size : Bool
  pub gtype : ℕ

abbrev pub initial_req : FsDescriptor
initial_req = record {
  file_id = 0;
  ftype = 0;
  lifecycle = fs_lc_activated;
  parent = fs_no_parent;
  size = 0;
  data_offset = 0;
  ac_read = 0;
  ac_update = 0;
  sfi = fs_no_sfi;
  flags = 0;
}

abbrev pub nothing_gathered : Gathered
nothing_gathered = record {
  req = initial_req;
  have_fdb = false;
  have_fid = false;
  have_size = false;
  gtype = fs_type_free;
}

abbrev pub value_at : TlvObject → ℕ → ℕ
value_at obj i = elim obj.value [ none ↦ 0 | some bytes ↦ get_or bytes i 0 ]

unfoldable pub take_fdb : TlvObject → Gathered → Target Gathered
take_fdb obj g =
    if g.have_fdb || obj.size != 1
    then answer sw_wrong_data
    else elim (decode_fdb (value_at obj 0)) [
      | fdb_malformed ↦ answer sw_wrong_data
      | fdb_unsupported ↦ answer sw_func_not_supported
      | fdb_accepted t ↦ target (record g { gtype = t; have_fdb = true })
    ]

unfoldable pub take_fid : TlvObject → Gathered → Target Gathered
take_fid obj g =
    if g.have_fid || obj.size != 2
    then answer sw_wrong_data
    else target (record g {
      req = record (g.req) { file_id = (value_at obj 0 * 256 + value_at obj 1) % 65536 };
      have_fid = true;
    })

unfoldable pub take_size : TlvObject → Gathered → Target Gathered
take_size obj g =
    let (st, v) = tlv_get_uint obj in
    if g.have_size then answer sw_wrong_data else elim st [
      | tlv_ok ↦
          if ltb fs_max_ef_size v
          then answer sw_not_enough_space
          else if v == 0
          then answer sw_wrong_data
          else target (record g { req = record (g.req) { size = v }; have_size = true })
      | _ ↦ answer sw_wrong_data
    ]

unfoldable pub take_lifecycle : TlvObject → Gathered → Target Gathered
take_lifecycle obj g =
    let v = value_at obj 0 in
    if obj.size != 1
    then answer sw_wrong_data
    else if v == fs_lc_creation
        || v == fs_lc_initialised
        || v == fs_lc_activated
        || v == fs_lc_deactivated
    then target (record g { req = record (g.req) { lifecycle = v } })
    else answer sw_wrong_data

-- The identifier is stored before its range is tested, as a refused request is dropped whole.
unfoldable pub take_sfi : TlvObject → Gathered → Target Gathered
take_sfi obj g =
    let v = value_at obj 0 in
    if obj.size != 1
    then answer sw_wrong_data
    else if bit_and v 0x07 != 0
    then answer sw_wrong_data
    else if ltb 30 (v / 8)
    then answer sw_wrong_data
    else target (record g { req = record (g.req) { sfi = v / 8 } })

-- The switch over the tag.
unfoldable pub take_object : TlvObject → Gathered → Target Gathered
take_object obj g =
    if obj.tag == 0x82
    then take_fdb obj g
    else if obj.tag == 0x83
    then take_fid obj g
    else if obj.tag == 0x80
    then take_size obj g
    else if obj.tag == 0x8A
    then take_lifecycle obj g
    else if obj.tag == 0x88
    then take_sfi obj g
    else answer sw_wrong_data

-- The loop over the objects on fuel, as in `tlv_find`; `none` is a loop that ran out of fuel.
unfoldable pub gather_loop : ℕ → TlvReader → Gathered → Option (Target Gathered)
gather_loop zero r g = none
gather_loop (suc fuel) r g =
    let (st, r', obj) = tlv_next r in
    let next = take_object obj g in
    elim st [
      | tlv_end ↦ some (target g)
      | tlv_ok ↦ elim next [ answer sw ↦ some (answer sw) | target g' ↦ gather_loop fuel r' g' ]
      | _ ↦ some (answer sw_wrong_data)
    ]

-- The checks behind the loop.
unfoldable pub complete : Gathered → Target FsDescriptor
complete g =
    if not g.have_fdb || not g.have_fid
    then answer sw_wrong_data
    else if g.gtype == fs_type_ef_transparent && not g.have_size
    then answer sw_wrong_data
    else if g.gtype == fs_type_df && g.have_size
    then answer sw_wrong_data
    else if g.gtype == fs_type_df && g.req.sfi != fs_no_sfi
    then answer sw_wrong_data
    else target (record (g.req) { ftype = g.gtype })

-- The objects of a template, in a buffer of `len` bytes.
unfoldable pub parse_objects : Option (List ℕ) → ℕ → Option (Target FsDescriptor)
parse_objects inner len =
    if len == 0
    then some (answer sw_wrong_data)
    else elim (gather_loop (len + 1) (tlv_reader_init inner len) nothing_gathered) [
      | none ↦ none
      | some (answer sw) ↦ some (answer sw)
      | some (target g) ↦ some (complete g)
    ]

-- The template with its wrapper or without it.
unfoldable pub parse_fcp : Option (List ℕ) → ℕ → Option (Target FsDescriptor)
parse_fcp body len =
    let (st, outer, obj) = tlv_next (tlv_reader_init body len) in
    let bare = parse_objects body len in
    elim st [
      | tlv_ok ↦
          if obj.tag == 0x62
          then if not (tlv_reader_done outer)
            then some (answer sw_wrong_data)
            else parse_objects obj.value obj.size
          else bare
      | _ ↦ bare
    ]
