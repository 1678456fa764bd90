-- ===== src/Cmd/Binary.antt =====
-- cmd_binary.c: READ BINARY and UPDATE BINARY.
use native_smart_card_os.Apdu.{ApduCommand, apdu_short_le_max}
use native_smart_card_os.Cmd.Select.{Target, answer, target}
use native_smart_card_os.Cmd.Status.{scos_fs_error_to_sw}
use native_smart_card_os.Fs.{err, fs_invalid_index, ok}
use native_smart_card_os.Machine.{Handler, Machine, has_payload, payload_of, with_store}
use native_smart_card_os.Response.{ApduResponse, apdu_rsp_put}
use native_smart_card_os.Store.{Store}
use native_smart_card_os.Sw.{
  sw_command_not_allowed_no_ef, sw_incorrect_p1p2, sw_lc_inconsistent_p1p2, sw_no_precise_diagnosis,
  sw_nvm_unchanged_eof, sw_ok, sw_wrong_length,
}
use native_smart_card_os.Tree.{FsSelection, fs_ef_read, fs_ef_write, fs_find_by_sfi}
use native_smart_card_os.Common.{
  List, bit_and, if◌then◌else◌, length, ltb, not, some, take, ℕ, ◌!=◌, ◌*◌, ◌+◌, ◌==◌, ◌||◌,
}

-- The file and the offset that P1 and P2 address.
unfoldable pub resolve_target : Store → FsSelection → ℕ → ℕ → Target (ℕ × ℕ)
resolve_target s sel p1 p2 =
    if bit_and p1 0x80 != 0
    then if bit_and p1 0x60 != 0
      then answer sw_incorrect_p1p2
      else if bit_and p1 0x1F == 0
      then answer sw_incorrect_p1p2
      else elim (fs_find_by_sfi s sel.cur_df (bit_and p1 0x1F)) [
        | err e ↦ answer (scos_fs_error_to_sw e)
        | ok index ↦ target (index, p2)
      ]
    else if sel.cur_ef == fs_invalid_index
    then answer sw_command_not_allowed_no_ef
    else target (sel.cur_ef, p1 * 256 + p2)

-- The end of READ BINARY, with what was read.
unfoldable pub answer_read :
    ApduCommand → Machine → ApduResponse → List ℕ → ℕ × Machine × ApduResponse
answer_read c m rsp got =
    let (done, rsp') = apdu_rsp_put rsp (some got) (length got) in
    if not done
    then (sw_no_precise_diagnosis, m, rsp')
    else if ltb (length got) c.le
    then (sw_nvm_unchanged_eof, m, rsp')
    else (sw_ok, m, rsp')

unfoldable pub scos_cmd_read_binary : Handler
scos_cmd_read_binary c m rsp =
    if c.lc != 0
    then (sw_lc_inconsistent_p1p2, m, rsp)
    else if not c.le_present
    then (sw_wrong_length, m, rsp)
    else elim (resolve_target m.store m.kernel.sel c.p1 c.p2) [
      | answer sw ↦ (sw, m, rsp)
      | target (index, offset) ↦
          if ltb apdu_short_le_max c.le
          then (sw_no_precise_diagnosis, m, rsp)
          else elim (fs_ef_read m.store index offset c.le) [
            | err e ↦ (scos_fs_error_to_sw e, m, rsp)
            | ok got ↦ answer_read c m rsp got
          ]
    ]

-- The end of UPDATE BINARY, with the place of the data.
unfoldable pub update_at : Machine → ApduResponse → ℕ → ℕ → List ℕ → ℕ × Machine × ApduResponse
update_at m rsp index offset src =
    let (r, s') = fs_ef_write index offset src m.store in
    elim r [
      | err e ↦ (scos_fs_error_to_sw e, with_store m s', rsp)
      | ok _ ↦ (sw_ok, with_store m s', rsp)
    ]

unfoldable pub scos_cmd_update_binary : Handler
scos_cmd_update_binary c m rsp =
    if c.lc == 0 || not (has_payload c)
    then (sw_wrong_length, m, rsp)
    else if c.le_present
    then (sw_wrong_length, m, rsp)
    else elim (resolve_target m.store m.kernel.sel c.p1 c.p2) [
      | answer sw ↦ (sw, m, rsp)
      | target (index, offset) ↦ update_at m rsp index offset (take c.lc (payload_of c))
    ]
