-- ===== src/Boot/Handle.antt =====
-- boot_loader.c: `boot_handle`, its parse of the command and its dispatch.
use native_smart_card_os.Boot.Loader.{
  BootCtx, boot_slot_check, build_status, do_activate, do_erase, do_load, do_verify, slot_active,
}
use native_smart_card_os.Sw.{
  sw_cla_not_supported, sw_file_not_found, sw_incorrect_p1p2, sw_ins_not_supported, sw_ok,
  sw_wrong_length,
}
use native_smart_card_os.Common.{
  List, [], drop, get_or, if◌then◌else◌, length, ltb, not, ℕ, ◌!=◌, ◌&&◌, ◌-◌, ◌==◌, ◌||◌,
}

abbrev pub boot_cla : ℕ
boot_cla = 0x80

pub data BootAction : Type 0 where
  boot_act_none boot_act_restart : BootAction

-- The status word, the response data, the action and the context after a command.
pub record BootReply : Type 0 where
  pub sw : ℕ
  pub rsp : List ℕ
  pub action : BootAction
  pub ctx : BootCtx

abbrev pub refused : ℕ → BootCtx → BootReply
refused sw ctx = record { sw = sw; rsp = []; action = boot_act_none; ctx = ctx }

abbrev of_step : ℕ × BootCtx → BootReply
of_step (sw, ctx) = refused sw ctx

abbrev of_status : BootCtx → ℕ × List ℕ → BootReply
of_status ctx (sw, rsp) = record { sw = sw; rsp = rsp; action = boot_act_none; ctx = ctx }

unfoldable pub do_restart : BootCtx → BootReply
do_restart ctx = elim ((boot_slot_check ctx.oshdr ctx.osflash).0) [
  | slot_active ↦ record { sw = sw_ok; rsp = []; action = boot_act_restart; ctx = ctx }
  | _ ↦ refused sw_file_not_found ctx
]

-- The switch over the instruction; `bytes` is the data field, empty where there is none.
unfoldable pub boot_dispatch : BootCtx → ℕ → ℕ → ℕ → List ℕ → ℕ → BootReply
boot_dispatch ctx ins p1 p2 bytes rsp_cap =
    let no_params = p1 == 0 && p2 == 0 in
    let no_bytes = length bytes == 0 in
    if ins == 0xF2
    then if not no_bytes
      then refused sw_wrong_length ctx
      else if not no_params
      then refused sw_incorrect_p1p2 ctx
      else of_status ctx (build_status ctx rsp_cap)
    else if ins == 0x0E
    then if not no_bytes
      then refused sw_wrong_length ctx
      else if not no_params
      then refused sw_incorrect_p1p2 ctx
      else of_step (do_erase ctx)
    else if ins == 0x54
    then if no_bytes then refused sw_wrong_length ctx else of_step (do_load ctx p1 p2 bytes)
    else if ins == 0xA0
    then if no_bytes
      then refused sw_wrong_length ctx
      else if not no_params
      then refused sw_incorrect_p1p2 ctx
      else of_step (do_verify ctx bytes)
    else if ins == 0x44
    then if not no_bytes
      then refused sw_wrong_length ctx
      else if not no_params
      then refused sw_incorrect_p1p2 ctx
      else of_step (do_activate ctx)
    else if ins == 0xF0
    then if not no_bytes
      then refused sw_wrong_length ctx
      else if not no_params
      then refused sw_incorrect_p1p2 ctx
      else do_restart ctx
    else refused sw_ins_not_supported ctx

unfoldable pub boot_handle : BootCtx → List ℕ → ℕ → BootReply
boot_handle ctx cmd rsp_cap =
    let ins = get_or cmd 1 0 in
    let p1 = get_or cmd 2 0 in
    let p2 = get_or cmd 3 0 in
    let lc = get_or cmd 4 0 in
    if ltb (length cmd) 4
    then refused sw_wrong_length ctx
    else if get_or cmd 0 0 != boot_cla
    then refused sw_cla_not_supported ctx
    else if ltb 5 (length cmd)
    then if lc == 0 || lc != length cmd - 5
      then refused sw_wrong_length ctx
      else boot_dispatch ctx ins p1 p2 (drop 5 cmd) rsp_cap
    else if length cmd == 5
    then if lc != 0 && ins != 0xF2
      then refused sw_wrong_length ctx
      else boot_dispatch ctx ins p1 p2 [] rsp_cap
    else boot_dispatch ctx ins p1 p2 [] rsp_cap
