-- ===== src/Kernel/Answers.antt =====
-- kernel.c, apdu_dispatch.c and card_loop.c: every command is answered, and the tree survives.
use native_smart_card_os.Apdu.{
  ApduClaStatus, ApduCommand, ApduParseStatus, apdu_check_cla, apdu_cla_status_sw, apdu_parse,
  apdu_parse_status_sw, cla_ok, parse_ok,
}
use native_smart_card_os.Cmd.Answers.{
  Answered, IsAnswer, IsAnswer-sw, scos_cmd_read_binary-IsAnswer, scos_cmd_select-IsAnswer,
}
use native_smart_card_os.Cmd.Writes.{
  scos_cmd_create_file-IsAnswer, scos_cmd_delete_file-IsAnswer, scos_cmd_update_binary-IsAnswer,
}
use native_smart_card_os.Kernel.{
  Outcome, answer_command, execute, finish_with, scos_dispatch, scos_ok, scos_process,
}
use native_smart_card_os.Machine.{
  Machine, ScosLifecycle, fs_error, initialising, no_power, operational, terminated,
}
use native_smart_card_os.Response.{ApduResponse, apdu_rsp_finish, apdu_rsp_init, finish_bytes}
use native_smart_card_os.Response.Contents.{IsResponse, apdu_rsp_init-IsResponse, buffer_of}
use native_smart_card_os.Store.Sizes.{SameSize}
use native_smart_card_os.Sw.{
  sw1, sw2, sw_conditions_not_satisfied, sw_ins_not_supported, sw_memory_failure,
  sw_no_precise_diagnosis, sw_ok,
}
use native_smart_card_os.Tree.Invariant.{IsTree}
use native_smart_card_os.Common.{
  List, Option, Option-cases, [], ap, arith, if-holds, inl, inr, length, length-splice, refl, some,
  ℕ, ◌<◌, ◌==◌, ◌∷◌, ◌≡◌, ◌≢◌, ◌≤◌,
}

scos_dispatch-Answered :
    (c : ApduCommand) (m : Machine) (rsp : ApduResponse)
    → IsResponse rsp
    → Answered m rsp (scos_dispatch c m rsp)
unfolding scos_dispatch
scos_dispatch-Answered c m rsp h =
    if-holds (Answered m rsp) (c.ins == 0xA4) (scos_cmd_select-IsAnswer c m rsp h) (
      if-holds (Answered m rsp) (c.ins == 0xB0) (scos_cmd_read_binary-IsAnswer c m rsp h) (
        if-holds (Answered m rsp) (c.ins == 0xD6) (scos_cmd_update_binary-IsAnswer c m rsp h) (
          if-holds (Answered m rsp) (c.ins == 0xE0) (scos_cmd_create_file-IsAnswer c m rsp h) (
            if-holds (Answered m rsp) (c.ins == 0xE4) (scos_cmd_delete_file-IsAnswer c m rsp h)
              (IsAnswer-sw m sw_ins_not_supported h)))))

checked-Answered :
    (st : ApduClaStatus) (c : ApduCommand) (m : Machine) (rsp : ApduResponse)
    → IsResponse rsp
    → Answered m rsp
        (elim st [ cla_ok ↦ scos_dispatch c m rsp | st' ↦ some (apdu_cla_status_sw st', m, rsp) ])
checked-Answered cla_ok c m rsp h = scos_dispatch-Answered c m rsp h
checked-Answered st c m rsp h = IsAnswer-sw m (apdu_cla_status_sw st) h

execute-Answered :
    (p : ApduParseStatus × ApduCommand) (m : Machine) (rsp : ApduResponse)
    → IsResponse rsp
    → Answered m rsp (execute p m rsp)
unfolding execute
execute-Answered (parse_ok, c) m rsp h = checked-Answered (apdu_check_cla c.cla) c m rsp h
execute-Answered (st, c) m rsp h = IsAnswer-sw m (apdu_parse_status_sw st) h

answer_command-Answered :
    (l : ScosLifecycle) (cmd : Option (List ℕ)) (cmd_len : ℕ) (m : Machine) (rsp : ApduResponse)
    → IsResponse rsp
    → Answered m rsp (answer_command l cmd cmd_len m rsp)
unfolding answer_command
answer_command-Answered operational cmd cmd_len m rsp h =
    execute-Answered (apdu_parse cmd cmd_len) m rsp h
answer_command-Answered terminated cmd cmd_len m rsp h = IsAnswer-sw m sw_conditions_not_satisfied h
answer_command-Answered fs_error cmd cmd_len m rsp h = IsAnswer-sw m sw_memory_failure h
answer_command-Answered no_power cmd cmd_len m rsp h = IsAnswer-sw m sw_conditions_not_satisfied h
answer_command-Answered initialising cmd cmd_len m rsp h =
    IsAnswer-sw m sw_conditions_not_satisfied h

-- On a well-formed card a command whose status word is not 9000 changes nothing: the selection, the
-- kernel and the store are what they were.
pub answer_command_atomic :
    (l : ScosLifecycle) (cmd : Option (List ℕ)) (cmd_len : ℕ) (m m' : Machine)
    (rsp rsp' : ApduResponse) (sw : ℕ)
    → IsResponse rsp
    → IsTree m.store
    → answer_command l cmd cmd_len m rsp ≡ some (sw, m', rsp')
    → sw ≢ sw_ok
    → m' ≡ m
answer_command_atomic l cmd cmd_len m m' rsp rsp' sw h tree e ne =
    let a = answer_command-Answered l cmd cmd_len m rsp h in
    let b : IsAnswer m rsp (sw, m', rsp') = ground (arith, a, e) in b.atomic ne tree

-- What `scos_process` leaves: a response of at least a status word within the buffer, the kernel's buffers and
-- life cycle as they were, and a file tree that is well formed if it was.
pub record IsProcessed (m : Machine) (cap : ℕ) (out : Outcome) : Type 0 where
  pub answered : out.status ≡ scos_ok
  pub some_status : 2 ≤ out.rsp_len
  pub in_buffer : out.rsp_len ≤ cap
  pub same_size : length out.rsp ≡ cap
  pub same_lifecycle : out.machine.kernel.lifecycle ≡ m.kernel.lifecycle
  pub same_cmd : length out.machine.kernel.cmd ≡ length m.kernel.cmd
  pub same_tree : IsTree m.store → IsTree out.machine.store
  pub same_chip : SameSize m.store out.machine.store

finish_with-IsProcessed :
    (m : Machine) (rsp : ApduResponse) (out : ℕ × Machine × ApduResponse)
    → IsAnswer m rsp out
    → IsProcessed m rsp.cap (finish_with out)
unfolding finish_with apdu_rsp_finish finish_bytes
finish_with-IsProcessed m rsp (sw, m', r) a =
    let h = a.built.0 in
    record {
      answered = refl;
      some_status = ground (arith, h);
      in_buffer = ground (arith, h);
      same_size = ground (
        arith,
        h,
        a.built,
        length-splice r.len (sw1 sw ∷ sw2 sw ∷ []) (buffer_of r),
        length-splice 0 (sw1 sw_no_precise_diagnosis ∷ sw2 sw_no_precise_diagnosis ∷ [])
            (buffer_of r),
      );
      same_lifecycle = a.same_lifecycle;
      same_cmd = ap length a.same_cmd;
      same_tree = a.same_tree;
      same_chip = a.same_chip;
    }

-- With a response buffer of at least two bytes `scos_process` answers every command, in every
-- state and whatever its bytes are. The response is at least a status word and stays within the buffer, the life cycle
-- does not change, a well-formed file tree stays well formed, and the chip's regions keep
-- their sizes.
pub scos_process_lem :
    (m : Machine) (cmd : Option (List ℕ)) (cmd_len : ℕ) (rsp : List ℕ)
    → 2 ≤ length rsp
    → length rsp < 65536
    → (out : Outcome) × (scos_process m cmd cmd_len rsp (length rsp) ≡ some out)
      × IsProcessed m (length rsp) out
unfolding scos_process apdu_rsp_init
scos_process_lem m cmd cmd_len rsp wide narrow =
    let r = apdu_rsp_init (some rsp) (length rsp) in
    let a =
      answer_command-Answered m.kernel.lifecycle cmd cmd_len m r
        (apdu_rsp_init-IsResponse rsp wide narrow).0 in
    elim (Option-cases (answer_command m.kernel.lifecycle cmd cmd_len m r)) [
      | inl out_of_fuel ↦ absurd (ground (arith, a, out_of_fuel))
      | inr (out, e) ↦
          let b : IsAnswer m r out = ground (arith, a, e) in
          (finish_with out, ground (arith, e), finish_with-IsProcessed m r out b)
    ]
