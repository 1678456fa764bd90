-- ===== src/Kernel/Gate.antt =====
-- kernel.c: a card that is not operational looks at no command.
use native_smart_card_os.Kernel.{Outcome, answer_command, finish_with, scos_process}
use native_smart_card_os.Machine.{
  Machine, ScosLifecycle, fs_error, initialising, no_power, operational, terminated,
}
use native_smart_card_os.Response.{ApduResponse, apdu_rsp_init}
use native_smart_card_os.Response.Contents.{apdu_rsp_finish_lem, apdu_rsp_init-IsResponse}
use native_smart_card_os.Sw.{sw1, sw2}
use native_smart_card_os.Common.{
  List, Option, [], arith, length, refl, some, take, ℕ, ◌<◌, ◌∷◌, ◌≡◌, ◌≢◌, ◌≤◌,
}

-- The status word for a life cycle other than "operational".
abbrev pub gate_sw : ScosLifecycle → ℕ
gate_sw fs_error = 0x6581
gate_sw _ = 0x6985

answer_command-gate :
    (l : ScosLifecycle) (cmd : Option (List ℕ)) (cmd_len : ℕ) (m : Machine) (rsp : ApduResponse)
    → l ≢ operational
    → answer_command l cmd cmd_len m rsp ≡ some (gate_sw l, m, rsp)
unfolding answer_command
answer_command-gate operational cmd cmd_len m rsp ne = absurd (ne refl)
answer_command-gate terminated cmd cmd_len m rsp ne = refl
answer_command-gate fs_error cmd cmd_len m rsp ne = refl
answer_command-gate no_power cmd cmd_len m rsp ne = refl
answer_command-gate initialising cmd cmd_len m rsp ne = refl

-- A card whose life cycle is not "operational" answers every command with a status word alone, 6581 where the file system
-- is in error and 6985 otherwise, and the command changes nothing.
pub scos_process-gate :
    (m : Machine) (cmd : Option (List ℕ)) (cmd_len : ℕ) (rsp : List ℕ)
    → m.kernel.lifecycle ≢ operational
    → 2 ≤ length rsp
    → length rsp < 65536
    → (out : Outcome) × (scos_process m cmd cmd_len rsp (length rsp) ≡ some out)
      × (out.machine ≡ m)
      × (take out.rsp_len out.rsp
          ≡ sw1 (gate_sw m.kernel.lifecycle) ∷ sw2 (gate_sw m.kernel.lifecycle) ∷ [])
unfolding scos_process finish_with
scos_process-gate m cmd cmd_len rsp ne wide narrow =
    let r = apdu_rsp_init (some rsp) (length rsp) in
    let sw = gate_sw m.kernel.lifecycle in
    let (built, empty) = apdu_rsp_init-IsResponse rsp wide narrow in
    (
      finish_with (sw, m, r),
      ground (arith, answer_command-gate m.kernel.lifecycle cmd cmd_len m r ne),
      refl,
      unfold apdu_rsp_init in ground (arith, apdu_rsp_finish_lem r sw built),
    )
