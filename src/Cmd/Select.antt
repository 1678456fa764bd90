-- ===== src/Cmd/Select.antt =====
-- cmd_select.c: SELECT.
use native_smart_card_os.Apdu.{ApduCommand}
use native_smart_card_os.Cmd.Status.{scos_fs_error_to_sw}
use native_smart_card_os.Fs.{FsDescriptor, FsResult, err, fs_fid_mf, ok}
use native_smart_card_os.Machine.{Handler, Machine, has_payload, payload_fid, payload_of, with_sel}
use native_smart_card_os.Response.{ApduResponse, apdu_rsp_put, apdu_rsp_put_u8}
use native_smart_card_os.Store.{Store}
use native_smart_card_os.Sw.{
  sw_func_not_supported, sw_incorrect_p1p2, sw_lc_inconsistent_p1p2, sw_no_precise_diagnosis, sw_ok,
  sw_wrong_data, sw_wrong_le,
}
use native_smart_card_os.Tree.{
  FsSelection, fs_build_fcp, fs_get, fs_select_by_fid, fs_select_by_path, fs_select_child_df,
  fs_select_child_ef, fs_select_parent, fs_selected_index,
}
use native_smart_card_os.Common.{
  List, bit_and, if◌then◌else◌, inl, inr, length, ltb, not, refl, some, ℕ, ◌!=◌, ◌%◌, ◌+◌, ◌==◌,
  ◌||◌, ◌≡◌, ◌⊎◌,
}

-- A target that is resolved, or the status word to answer with.
pub data Target (A : Type 0) : Type 0 where
  target : A → Target A
  answer : ℕ → Target A

pub Target-cases :
    {A : Type 0} (t : Target A) → ((a : A) × (t ≡ target a)) ⊎ ((sw : ℕ) × (t ≡ answer sw))
Target-cases (target a) = inl (a, refl)
Target-cases (answer sw) = inr (sw, refl)

abbrev of_result : {A : Type 0} → FsResult A → Target A
of_result (ok a) = target a
of_result (err e) = answer (scos_fs_error_to_sw e)

-- The switch over P1 of `scos_cmd_select`: the new selection.
unfoldable pub select_target : Store → FsSelection → ApduCommand → Target FsSelection
select_target s sel c =
    if c.p1 == 0x00
    then if c.lc == 0
      then of_result (fs_select_by_fid s sel fs_fid_mf)
      else if c.lc == 2
      then if has_payload c
        then of_result (fs_select_by_fid s sel (payload_fid c))
        else answer sw_no_precise_diagnosis
      else answer sw_lc_inconsistent_p1p2
    else if c.p1 == 0x01 || c.p1 == 0x02
    then if c.lc != 2 || not (has_payload c)
      then answer sw_lc_inconsistent_p1p2
      else if c.p1 == 0x01
      then of_result (fs_select_child_df s sel (payload_fid c))
      else of_result (fs_select_child_ef s sel (payload_fid c))
    else if c.p1 == 0x03
    then if c.lc != 0 then answer sw_lc_inconsistent_p1p2 else of_result (fs_select_parent s sel)
    else if c.p1 == 0x08 || c.p1 == 0x09
    then if c.lc == 0 || not (has_payload c)
      then answer sw_lc_inconsistent_p1p2
      else if c.lc % 2 != 0
      then answer sw_wrong_data
      else of_result (fs_select_by_path s sel (payload_of c) c.lc (c.p1 == 0x08))
    else if c.p1 == 0x04
    then answer sw_func_not_supported
    else answer sw_incorrect_p1p2

-- The three puts of the wrapped template.
unfoldable pub put_template : ApduResponse → ℕ → List ℕ → ℕ × ApduResponse
put_template rsp tag body =
    let (a, r1) = apdu_rsp_put_u8 rsp tag in
    let (b, r2) = apdu_rsp_put_u8 r1 (length body % 256) in
    let (c, r3) = apdu_rsp_put r2 (some body) (length body) in
    if a
    then if b
      then if c then (sw_ok, r3) else (sw_no_precise_diagnosis, r3)
      else (sw_no_precise_diagnosis, r2)
    else (sw_no_precise_diagnosis, r1)

-- `emit_fci`, behind its tests of the template option.
unfoldable pub emit_template : ApduCommand → ApduResponse → FsDescriptor → ℕ → ℕ × ApduResponse
emit_template c rsp d ret_opt =
    let body = fs_build_fcp d 32 in
    let total = length body + 2 in
    if length body == 0
    then (sw_no_precise_diagnosis, rsp)
    else if not c.le_present
    then (sw_ok, rsp)
    else if ltb c.le total
    then (sw_wrong_le total, rsp)
    else put_template rsp (if ret_opt == 0x04 then 0x62 else 0x6F) body

unfoldable pub emit_fci : Store → ApduCommand → ApduResponse → ℕ → ℕ → ℕ × ApduResponse
emit_fci s c rsp index ret_opt =
    if ret_opt == 0x0C
    then (sw_ok, rsp)
    else if ret_opt == 0x08
    then (sw_func_not_supported, rsp)
    else elim (fs_get s index) [
      | err e ↦ (scos_fs_error_to_sw e, rsp)
      | ok d ↦ emit_template c rsp d ret_opt
    ]

-- The response is built before the selection is committed.
unfoldable pub finish_select :
    ApduCommand → Machine → ApduResponse → FsSelection → ℕ × Machine × ApduResponse
finish_select c m rsp sel =
    let (sw, rsp') = emit_fci m.store c rsp (fs_selected_index sel) (bit_and c.p2 0x0C) in
    if sw != sw_ok then (sw, m, rsp') else (sw_ok, with_sel m sel, rsp')

unfoldable pub scos_cmd_select : Handler
scos_cmd_select c m rsp =
    if bit_and c.p2 0xF0 != 0x00
    then (sw_incorrect_p1p2, m, rsp)
    else if bit_and c.p2 0x03 != 0x00
    then (sw_func_not_supported, m, rsp)
    else elim (select_target m.store m.kernel.sel c) [
      | answer sw ↦ (sw, m, rsp)
      | target sel ↦ finish_select c m rsp sel
    ]
