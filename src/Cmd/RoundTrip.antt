-- ===== src/Cmd/RoundTrip.antt =====
-- cmd_create.c and fs.c: what SELECT answers of a file is a template from which CREATE FILE makes the
-- same file.
use native_smart_card_os.Cmd.Select.{target}
use native_smart_card_os.Cmd.Template.{
  complete, decode_fdb, gather_loop, initial_req, parse_fcp, parse_objects, take_fdb, take_fid,
  take_lifecycle, take_object, take_sfi, take_size,
}
use native_smart_card_os.Fs.{
  FsDescriptor, fs_is_df, fs_is_ef, fs_lc_activated, fs_lc_creation, fs_lc_deactivated,
  fs_lc_initialised, fs_max_ef_size, fs_no_sfi, fs_type_df, fs_type_ef_transparent,
}
use native_smart_card_os.Tlv.{
  read_body, read_length, read_object, read_tag, read_value, skip_padding, tlv_get_uint, tlv_next,
  tlv_reader_done, tlv_reader_init,
}
use native_smart_card_os.Tree.{fcp_bytes, fs_build_fcp}
use native_smart_card_os.Common.{
  Bool-cases, List, [], arith, inl, inr, if◌then◌else◌, length, passes_below, passes_below_lem,
  refl, some, true, ℕ, ◌%◌, ◌*◌, ◌+◌, ◌/◌, ◌<◌, ◌==◌, ◌∷◌, ◌≡◌, ◌≤◌, ◌⊎◌, ◌≢◌, ==→eq, bit_and,
}

-- A descriptor with the attributes that a template can carry: the life cycle is one that a client may ask
-- for, and a data file has a size and a short identifier in range.
pub record IsListed (d : FsDescriptor) : Type 0 where
  pub id_fits : d.file_id < 65536
  pub alive :
      (d.lifecycle ≡ fs_lc_creation)
      ⊎ (d.lifecycle ≡ fs_lc_initialised)
      ⊎ (d.lifecycle ≡ fs_lc_activated)
      ⊎ (d.lifecycle ≡ fs_lc_deactivated)
  pub typed :
      (fs_is_df d ≡ true)
      ⊎ ((fs_is_ef d ≡ true) × (0 < d.size) × (d.size ≤ fs_max_ef_size) × (d.sfi ≤ 30))

-- The request for a file with the attributes of another one.
abbrev pub request_of : FsDescriptor → FsDescriptor
request_of d = record initial_req {
  file_id = d.file_id;
  ftype = (if fs_is_ef d then fs_type_ef_transparent else fs_type_df);
  lifecycle = d.lifecycle;
  size = (if fs_is_ef d then d.size else 0);
  sfi = (if fs_is_ef d then d.sfi else fs_no_sfi);
}

-- The low bits of a short identifier on the wire are 0.
sfi_table : passes_below (λ n. bit_and (n * 8 % 256) 0x07 == 0) 31 ≡ true
unfolding passes_below
sfi_table = refl

sfi_bits : (n : ℕ) → n ≤ 30 → bit_and (n * 8 % 256) 0x07 ≡ 0
sfi_bits n h = ==→eq _ 0 (
    passes_below_lem (λ m. bit_and (m * 8 % 256) 0x07 == 0) {bound = 31} n (omega (arith, h))
      sfi_table)

abbrev df_objects : ℕ → ℕ → List ℕ
df_objects fid lc =
    0x82 ∷ 0x01 ∷ 0x38 ∷ 0x83 ∷ 0x02 ∷ fid / 256 % 256 ∷ fid % 256 ∷ 0x8A ∷ 0x01 ∷ lc % 256 ∷ []

parse-df_objects :
    (d : FsDescriptor)
    → IsListed d
    → fs_is_df d ≡ true
    → parse_objects (some (df_objects d.file_id d.lifecycle)) 10 ≡ some (target (request_of d))
unfolding parse_objects complete tlv_reader_init gather_loop tlv_next skip_padding read_object
    read_body read_tag read_length read_value take_object take_fdb take_fid take_lifecycle
    decode_fdb
parse-df_objects d h df = ground arith

abbrev ef_objects : ℕ → ℕ → ℕ → List ℕ → List ℕ
ef_objects fid size lc more =
    0x82
    ∷ 0x01
    ∷ 0x01
    ∷ 0x83
    ∷ 0x02
    ∷ fid / 256 % 256
    ∷ fid % 256
    ∷ 0x80
    ∷ 0x02
    ∷ size / 256 % 256
    ∷ size % 256
    ∷ 0x8A
    ∷ 0x01
    ∷ lc % 256
    ∷ more

parse-plain_objects :
    (d : FsDescriptor)
    → IsListed d
    → fs_is_ef d ≡ true
    → d.sfi ≡ fs_no_sfi
    → parse_objects (some (ef_objects d.file_id d.size d.lifecycle [])) 14
      ≡ some (target (request_of d))
unfolding parse_objects complete tlv_reader_init gather_loop tlv_next skip_padding read_object
    read_body read_tag read_length read_value take_object take_fdb take_fid take_size take_lifecycle
    decode_fdb tlv_get_uint
parse-plain_objects d h ef plain = ground arith

parse-named_objects :
    (d : FsDescriptor)
    → IsListed d
    → fs_is_ef d ≡ true
    → d.sfi ≢ fs_no_sfi
    → parse_objects
        (some (ef_objects d.file_id d.size d.lifecycle (0x88 ∷ 0x01 ∷ d.sfi * 8 % 256 ∷ [])))
        17
      ≡ some (target (request_of d))
unfolding parse_objects complete tlv_reader_init gather_loop tlv_next skip_padding read_object
    read_body read_tag read_length read_value take_object take_fdb take_fid take_size take_lifecycle
    take_sfi decode_fdb tlv_get_uint
parse-named_objects d h ef named = ground (arith, sfi_bits d.sfi)

-- A template that parses to a request, bare and in the wrapper 62.
abbrev pub Gives : List ℕ → FsDescriptor → Type 0
Gives body req =
    (parse_fcp (some body) (length body) ≡ some (target req))
    × (parse_fcp (some (0x62 ∷ length body % 256 ∷ body)) (length body + 2) ≡ some (target req))

df-Gives :
    (fid lc : ℕ) (req : FsDescriptor)
    → parse_objects (some (df_objects fid lc)) 10 ≡ some (target req)
    → Gives (df_objects fid lc) req
unfolding parse_fcp tlv_next tlv_reader_init tlv_reader_done skip_padding read_object read_body
    read_tag read_length read_value
df-Gives fid lc req e = (e, e)

plain-Gives :
    (fid size lc : ℕ) (req : FsDescriptor)
    → parse_objects (some (ef_objects fid size lc [])) 14 ≡ some (target req)
    → Gives (ef_objects fid size lc []) req
unfolding parse_fcp tlv_next tlv_reader_init tlv_reader_done skip_padding read_object read_body
    read_tag read_length read_value
plain-Gives fid size lc req e = (e, e)

named-Gives :
    (fid size lc sfi : ℕ) (req : FsDescriptor)
    → parse_objects (some (ef_objects fid size lc (0x88 ∷ 0x01 ∷ sfi ∷ []))) 17 ≡ some (target req)
    → Gives (ef_objects fid size lc (0x88 ∷ 0x01 ∷ sfi ∷ [])) req
unfolding parse_fcp tlv_next tlv_reader_init tlv_reader_done skip_padding read_object read_body
    read_tag read_length read_value
named-Gives fid size lc sfi req e = (e, e)

built-df :
    (d : FsDescriptor) → fs_is_df d ≡ true → fs_build_fcp d 32 ≡ df_objects d.file_id d.lifecycle
unfolding fs_build_fcp fcp_bytes
built-df d df = ground arith

built-plain :
    (d : FsDescriptor)
    → fs_is_ef d ≡ true
    → d.sfi ≡ fs_no_sfi
    → fs_build_fcp d 32 ≡ ef_objects d.file_id d.size d.lifecycle []
unfolding fs_build_fcp fcp_bytes
built-plain d ef plain = ground arith

built-named :
    (d : FsDescriptor)
    → fs_is_ef d ≡ true
    → d.sfi ≢ fs_no_sfi
    → fs_build_fcp d 32
      ≡ ef_objects d.file_id d.size d.lifecycle (0x88 ∷ 0x01 ∷ d.sfi * 8 % 256 ∷ [])
unfolding fs_build_fcp fcp_bytes
built-named d ef named = ground arith

-- The template that SELECT answers of a folder or of a data file is one that CREATE FILE takes, bare and
-- in its wrapper 62, and the request that is parsed from it has the identifier, the type, the life cycle, the
-- size and the short identifier of the file, if these are such as a client may ask for.
pub parse_fcp-fs_build_fcp :
    (d : FsDescriptor) → IsListed d → Gives (fs_build_fcp d 32) (request_of d)
parse_fcp-fs_build_fcp d h = elim h.typed [
  | inl df ↦
      rw (built-df d df) (df-Gives d.file_id d.lifecycle (request_of d) (parse-df_objects d h df))
  | inr ef ↦ elim (Bool-cases (d.sfi == fs_no_sfi)) [
    | inl plain ↦
        let none_given = ==→eq d.sfi fs_no_sfi plain in
        rw (built-plain d ef.0 none_given) (
          plain-Gives d.file_id d.size d.lifecycle (request_of d)
            (parse-plain_objects d h ef.0 none_given))
    | inr named ↦
        let given : d.sfi ≢ fs_no_sfi = ground (arith, named) in
        rw (built-named d ef.0 given) (
          named-Gives d.file_id d.size d.lifecycle (d.sfi * 8 % 256) (request_of d)
            (parse-named_objects d h ef.0 given))
  ]
]
