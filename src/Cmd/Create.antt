-- ===== src/Cmd/Create.antt =====
-- cmd_create.c: CREATE FILE and DELETE FILE.
use native_smart_card_os.Apdu.{ApduCommand}
use native_smart_card_os.Cmd.Select.{answer, target}
use native_smart_card_os.Cmd.Status.{scos_fs_error_to_sw}
use native_smart_card_os.Cmd.Template.{parse_fcp}
use native_smart_card_os.Fs.{FsDescriptor, err, ok}
use native_smart_card_os.Machine.{
  Handler, Machine, ScosLifecycle, fs_error, has_payload, payload_fid, with_sel, with_store,
}
use native_smart_card_os.Response.{ApduResponse}
use native_smart_card_os.Sw.{sw_incorrect_p1p2, sw_memory_failure, sw_ok, sw_wrong_length}
use native_smart_card_os.Tree.{fs_create_file, fs_delete_file}
use native_smart_card_os.Common.{
  Bool, Option, false, if◌then◌else◌, none, not, some, true, ℕ, ◌!=◌, ◌==◌, ◌||◌,
}

abbrev pub is_fs_error : ScosLifecycle → Bool
is_fs_error fs_error = true
is_fs_error _ = false

-- The end of CREATE FILE, with the request.
unfoldable pub create_requested : Machine → ApduResponse → FsDescriptor → ℕ × Machine × ApduResponse
create_requested m rsp req =
    let (r, s') = fs_create_file m.kernel.sel req m.store in
    elim r [
      | err e ↦ (scos_fs_error_to_sw e, with_store m s', rsp)
      | ok _ ↦ (sw_ok, with_store m s', rsp)
    ]

-- The end of DELETE FILE, with the identifier.
unfoldable pub delete_requested : Machine → ApduResponse → ℕ → ℕ × Machine × ApduResponse
delete_requested m rsp fid =
    let (r, s') = fs_delete_file m.kernel.sel fid m.store in
    elim r [
      | err e ↦ (scos_fs_error_to_sw e, with_store m s', rsp)
      | ok sel ↦ (sw_ok, with_store (with_sel m sel) s', rsp)
    ]

-- `none` is a parse that ran out of fuel.
unfoldable pub scos_cmd_create_file :
    ApduCommand → Machine → ApduResponse → Option (ℕ × Machine × ApduResponse)
scos_cmd_create_file c m rsp =
    if is_fs_error m.kernel.lifecycle
    then some (sw_memory_failure, m, rsp)
    else if c.p1 != 0x00 || c.p2 != 0x00
    then some (sw_incorrect_p1p2, m, rsp)
    else if c.lc == 0 || not (has_payload c)
    then some (sw_wrong_length, m, rsp)
    else elim (parse_fcp c.payload c.lc) [
      | none ↦ none
      | some (answer sw) ↦ some (sw, m, rsp)
      | some (target req) ↦ some (create_requested m rsp req)
    ]

unfoldable pub scos_cmd_delete_file : Handler
scos_cmd_delete_file c m rsp =
    if is_fs_error m.kernel.lifecycle
    then (sw_memory_failure, m, rsp)
    else if c.p1 != 0x00 || c.p2 != 0x00
    then (sw_incorrect_p1p2, m, rsp)
    else if c.lc != 2 || not (has_payload c)
    then (sw_wrong_length, m, rsp)
    else delete_requested m rsp (payload_fid c)
