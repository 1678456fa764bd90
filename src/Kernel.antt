-- ===== src/Kernel.antt =====
-- src/apdu/apdu_dispatch.c, src/kernel/kernel.c and src/kernel/card_loop.c: routing, the kernel's
-- entry points, and the APDU pump.
pub mod Answers
pub mod Loop
pub mod Gate
pub mod Reply
pub mod ReadBack
pub mod Created
pub mod Start
use mathlib.Core.Option
use native_smart_card_os.Apdu.{
  ApduCommand, ApduParseStatus, apdu_check_cla, apdu_cla_status_sw, apdu_parse,
  apdu_parse_status_sw, cla_ok, parse_ok,
}
use native_smart_card_os.Cmd.{
  scos_cmd_create_file, scos_cmd_delete_file, scos_cmd_read_binary, scos_cmd_select,
  scos_cmd_update_binary,
}
use native_smart_card_os.Fs.{err, ok}
use native_smart_card_os.Machine.{
  Machine, ScosKernel, ScosLifecycle, fs_error, initialising, no_power, operational, terminated,
}
use native_smart_card_os.Response.{ApduResponse, apdu_rsp_finish, apdu_rsp_init}
use native_smart_card_os.Sw.{sw_conditions_not_satisfied, sw_ins_not_supported, sw_memory_failure}
use native_smart_card_os.Tree.{fs_init, fs_selection_reset}
use native_smart_card_os.Common.{
  List, Option, [], if◌then◌else◌, length, ltb, none, replicate, some, splice, take, ℕ, ◌%◌, ◌++◌,
  ◌+◌, ◌==◌, ◌^◌, ◌∷◌,
}

-- `scos_dispatch`: the table of commands, searched in its order. `none` stands for a command that ran
-- out of fuel.
unfoldable pub scos_dispatch :
    ApduCommand → Machine → ApduResponse → Option (ℕ × Machine × ApduResponse)
scos_dispatch c m rsp =
    if c.ins == 0xA4
    then some (scos_cmd_select c m rsp)
    else if c.ins == 0xB0
    then some (scos_cmd_read_binary c m rsp)
    else if c.ins == 0xD6
    then some (scos_cmd_update_binary c m rsp)
    else if c.ins == 0xE0
    then scos_cmd_create_file c m rsp
    else if c.ins == 0xE4
    then some (scos_cmd_delete_file c m rsp)
    else some (sw_ins_not_supported, m, rsp)

-- `scos_init`: the kernel is cleared, and the file system mounted or personalised.
abbrev pub cleared_kernel : ScosKernel → ScosKernel
cleared_kernel k = record {
  lifecycle = no_power;
  reset_count = 0;
  sel = record { cur_df = 0; cur_ef = 0 };
  cmd = replicate (length k.cmd) 0;
  cmd_len = 0;
  rsp = replicate (length k.rsp) 0;
  rsp_len = 0;
}

-- `enum scos_status`
pub data ScosStatus : Type 0 where
  scos_ok scos_err_param scos_err_state : ScosStatus

unfoldable pub scos_init : Machine → ScosStatus × Machine
scos_init m =
    let k = cleared_kernel m.kernel in
    let (r, s') = fs_init m.store in
    elim r [
      | err _ ↦ (scos_err_state, record { kernel = record k { lifecycle = fs_error }; store = s' })
      | ok _ ↦ (
        scos_ok,
        record {
          kernel = record k { sel = fs_selection_reset; lifecycle = operational };
          store = s';
        },
      )
    ]

-- The counter is a uint32_t.
unfoldable pub scos_reset : Machine → Machine
scos_reset m =
    let k = cleared_kernel m.kernel in
    record m {
      kernel = record k {
        reset_count = (m.kernel.reset_count + 1) % 2 ^ 32;
        sel = fs_selection_reset;
        lifecycle = operational;
      };
    }

-- What a command leaves: the status, the state, the response buffer and the response's length.
pub record Outcome : Type 0 where
  pub status : ScosStatus
  pub machine : Machine
  pub rsp : List ℕ
  pub rsp_len : ℕ

-- `*rsp_len = apdu_rsp_finish(&r, sw); return SCOS_OK;`
unfoldable pub finish_with : ℕ × Machine × ApduResponse → Outcome
finish_with (sw, m, r) =
    let (total, r') = apdu_rsp_finish r sw in
    record {
      status = scos_ok;
      machine = m;
      rsp = (elim r'.buf [ none ↦ [] | some buf ↦ buf ]);
      rsp_len = total;
    }

-- The class check and the dispatch, behind the parser.
unfoldable pub execute :
    ApduParseStatus × ApduCommand → Machine → ApduResponse → Option (ℕ × Machine × ApduResponse)
execute (parse_ok, c) m r = elim (apdu_check_cla c.cla) [
  | cla_ok ↦ scos_dispatch c m r
  | st ↦ some (apdu_cla_status_sw st, m, r)
]
execute (st, c) m r = some (apdu_parse_status_sw st, m, r)

-- The life cycle decides whether a command is looked at.
unfoldable pub answer_command :
    ScosLifecycle
    → Option (List ℕ)
    → ℕ
    → Machine
    → ApduResponse
    → Option (ℕ × Machine × ApduResponse)
answer_command terminated cmd cmd_len m r = some (sw_conditions_not_satisfied, m, r)
answer_command fs_error cmd cmd_len m r = some (sw_memory_failure, m, r)
answer_command operational cmd cmd_len m r = execute (apdu_parse cmd cmd_len) m r
answer_command no_power cmd cmd_len m r = some (sw_conditions_not_satisfied, m, r)
answer_command initialising cmd cmd_len m r = some (sw_conditions_not_satisfied, m, r)

unfoldable pub scos_process : Machine → Option (List ℕ) → ℕ → List ℕ → ℕ → Option Outcome
scos_process m cmd cmd_len rsp rsp_cap =
    if ltb rsp_cap 2
    then some (record { status = scos_err_param; machine = m; rsp = rsp; rsp_len = 0 })
    else Option.map finish_with
        (answer_command m.kernel.lifecycle cmd cmd_len m (apdu_rsp_init (some rsp) rsp_cap))

-- What `hal_card_receive` returns: the reader is gone, it asserted RST, an error of the link, or the
-- bytes of a command.
pub data LinkEvent : Type 0 where
  link_down link_reset link_error : LinkEvent
  received : List ℕ → LinkEvent

abbrev pub scos_apdu_cmd_max : ℕ
scos_apdu_cmd_max = 261

abbrev pub scos_apdu_rsp_max : ℕ
scos_apdu_rsp_max = 258

-- One command through the kernel's own buffers: the machine, and what is sent.
unfoldable pub pump : Machine → List ℕ → Option (Machine × List (List ℕ))
pump m bytes =
    let k = record (m.kernel) {
      cmd = splice 0 bytes m.kernel.cmd;
      cmd_len = length bytes % 65536;
      rsp_len = 0;
    } in
    if ltb scos_apdu_cmd_max (length bytes)
    then some (m, [])
    else elim (scos_process (record m { kernel = k }) (some k.cmd) k.cmd_len k.rsp
        scos_apdu_rsp_max) [
          | none ↦ none
          | some out ↦
              let k' = record (out.machine.kernel) { rsp = out.rsp; rsp_len = out.rsp_len } in
              let m' = record (out.machine) { kernel = k' } in
              elim out.status [
                | scos_ok ↦ some (m', take out.rsp_len out.rsp ∷ [])
                | _ ↦ some (m', [])
              ]
        ]

-- The pump over what the link delivers: the machine in the end, and the responses in their order.
unfoldable pub scos_card_loop : List LinkEvent → Machine → Option (Machine × List (List ℕ))
scos_card_loop [] m = some (m, [])
scos_card_loop (link_down ∷ events) m = some (m, [])
scos_card_loop (link_reset ∷ events) m = scos_card_loop events (scos_reset m)
scos_card_loop (link_error ∷ events) m = scos_card_loop events m
scos_card_loop (received bytes ∷ events) m = elim (pump m bytes) [
  | none ↦ none
  | some (m', sent) ↦
      Option.map (λ (out : Machine × List (List ℕ)). (out.0, sent ++ out.1))
        (scos_card_loop events m')
]
