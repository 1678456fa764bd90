-- ===== src/Examples/Card.antt =====
-- A blank chip with room for the table and for 64 bytes of file data, and the card it becomes.
use native_smart_card_os.Apdu.{apdu_check_cla, apdu_parse}
use native_smart_card_os.Cmd.{delete_requested, scos_cmd_delete_file, scos_fs_error_to_sw}
use native_smart_card_os.Fs.{fs_fid_mf, fs_max_files, ok}
use native_smart_card_os.Kernel.{
  LinkEvent, Outcome, answer_command, execute, link_down, link_reset, received, scos_dispatch,
  scos_process,
}
use native_smart_card_os.Kernel.Answers.{IsProcessed, answer_command_atomic, scos_process_lem}
use native_smart_card_os.Kernel.Gate.{scos_process-gate}
use native_smart_card_os.Kernel.Loop.{IsCard, Serves, scos_card_loop_lem}
use native_smart_card_os.Machine.{Machine, ScosKernel, fs_error, operational, with_store}
use native_smart_card_os.Response.{ApduResponse}
use native_smart_card_os.Store.{
  Store, desc_offset, fs_store_format, fs_store_mount, fs_store_read_desc, fs_store_write_desc,
}
use native_smart_card_os.Store.Format.{format_empties}
use native_smart_card_os.Store.Persist.{IsStored, fs_store_mount-IsStored}
use native_smart_card_os.Tree.{
  delete_slot, fs_delete_file, fs_root_index, fs_selection_reset, mf_desc,
}
use native_smart_card_os.Tree.Invariant.{IsTree}
use native_smart_card_os.Tree.Rooted.{rooted-IsTree}
use native_smart_card_os.Common.{
  List, [], ap, arith, false, length, length-replicate, refl, replicate, some, take, true, ℕ, ◌<◌,
  ◌^◌, ◌∙◌, ◌∷◌, ◌≡◌, ◌≤◌,
}

abbrev pub blank : Store
blank = record {
  nvm = record {
    eeprom_bytes = replicate 656 0xFF;
    flash_bytes = replicate 64 0xFF;
    powered = true;
  };
  sb = record { mounted = false; version = 0; max_files = 0; data_top = 0 };
}

pub eeprom_fits : desc_offset fs_max_files ≤ length blank.nvm.eeprom_bytes
eeprom_fits = omega (arith, length-replicate {A = ℕ} 656 0xFF)

pub flash_fits : length blank.nvm.flash_bytes < 2 ^ 32
flash_fits = omega (arith, length-replicate {A = ℕ} 64 0xFF)

-- The formatted card, and the card with its MF.
abbrev pub formatted_card : Store
formatted_card = (fs_store_format blank).1

pub formatted_card-IsStored : IsStored formatted_card
formatted_card-IsStored = (format_empties blank 7 refl eeprom_fits flash_fits (omega arith)).1

pub formatted_card-top : formatted_card.sb.data_top ≡ 0
formatted_card-top = (format_empties blank 7 refl eeprom_fits flash_fits (omega arith)).2

pub formatted_card-flash : length formatted_card.nvm.flash_bytes ≡ 64
formatted_card-flash =
    ap (λ bytes. length bytes)
      ((format_empties blank 7 refl eeprom_fits flash_fits (omega arith)).4)
    ∙ length-replicate {A = ℕ} 64 0xFF

abbrev pub rooted : Store
rooted = (fs_store_write_desc fs_root_index mf_desc formatted_card).1

pub rooted_card-IsTree : IsTree rooted
rooted_card-IsTree = (rooted-IsTree blank refl eeprom_fits flash_fits).0

pub rooted_root : fs_store_read_desc rooted fs_root_index ≡ ok mf_desc
rooted_root =
    let (tree, only) = rooted-IsTree blank refl eeprom_fits flash_fits in
    let (d, r, f) = tree.root in r ∙ ap ok ((only fs_root_index d r).1)

fs_store_mount-IsStored_example :
    fs_store_mount (record formatted_card { sb = blank.sb }) ≡ (ok tt, formatted_card)
fs_store_mount-IsStored_example =
    fs_store_mount-IsStored formatted_card blank.sb formatted_card-IsStored

-- The kernel over the rooted card.
abbrev pub card_kernel : ScosKernel
card_kernel = record {
  lifecycle = operational;
  reset_count = 0;
  sel = fs_selection_reset;
  cmd = replicate 261 0;
  cmd_len = 0;
  rsp = replicate 258 0;
  rsp_len = 0;
}

abbrev pub rooted_card : Machine
rooted_card = record { kernel = card_kernel; store = rooted }

pub rooted_card-IsCard : IsCard rooted_card
rooted_card-IsCard = record {
  cmd_sized = length-replicate {A = ℕ} 261 0;
  rsp_sized = length-replicate {A = ℕ} 258 0;
  tree = rooted_card-IsTree;
}

-- Select the MF, a warm reset, then a truncated command.
abbrev pub session : List LinkEvent
session =
    received (0x00 ∷ 0xA4 ∷ 0x00 ∷ 0x0C ∷ []) ∷ link_reset ∷ received (0x00 ∷ []) ∷ link_down ∷ []

scos_card_loop_lem_example : Serves session rooted_card
scos_card_loop_lem_example = scos_card_loop_lem session rooted_card rooted_card-IsCard

scos_process_lem_example :
    (out : Outcome) × (scos_process rooted_card
        (some (0x00 ∷ 0xB0 ∷ 0x00 ∷ 0x00 ∷ 0x10 ∷ []))
        5
        (0 ∷ 0 ∷ 0 ∷ 0 ∷ [])
        4
      ≡ some out)
    × IsProcessed rooted_card 4 out
scos_process_lem_example =
    scos_process_lem rooted_card (some (0x00 ∷ 0xB0 ∷ 0x00 ∷ 0x00 ∷ 0x10 ∷ [])) 5
      (0 ∷ 0 ∷ 0 ∷ 0 ∷ []) (omega arith) (omega arith)

abbrev pub broken : Machine
broken = record rooted_card { kernel = record card_kernel { lifecycle = fs_error } }

scos_process-gate_example :
    (out : Outcome) × (scos_process broken
        (some (0x00 ∷ 0xA4 ∷ 0x00 ∷ 0x00 ∷ []))
        4
        (0 ∷ 0 ∷ 0 ∷ [])
        3
      ≡ some out)
    × (out.machine ≡ broken)
    × (take out.rsp_len out.rsp ≡ 0x65 ∷ 0x81 ∷ [])
scos_process-gate_example =
    scos_process-gate broken (some (0x00 ∷ 0xA4 ∷ 0x00 ∷ 0x00 ∷ [])) 4 (0 ∷ 0 ∷ 0 ∷ []) (λ e. cc)
      (omega arith) (omega arith)

-- DELETE FILE of the MF.
abbrev delete_mf : List ℕ
delete_mf = 0x00 ∷ 0xE4 ∷ 0x00 ∷ 0x00 ∷ 0x02 ∷ 0x3F ∷ 0x00 ∷ []

abbrev empty_rsp : ApduResponse
empty_rsp = record { buf = some (0 ∷ 0 ∷ []); cap = 2; len = 0; overflow = false }

-- The machine that DELETE FILE of the MF leaves.
abbrev after_delete : Machine
after_delete = with_store rooted_card (fs_delete_file fs_selection_reset fs_fid_mf rooted).1

delete_mf_refused :
    answer_command operational (some delete_mf) 7 rooted_card empty_rsp
    ≡ some (0x6985, after_delete, empty_rsp)
unfolding answer_command execute apdu_parse apdu_check_cla scos_dispatch scos_cmd_delete_file
    delete_requested fs_delete_file delete_slot scos_fs_error_to_sw
delete_mf_refused = refl

answer_command_atomic_example : after_delete ≡ rooted_card
answer_command_atomic_example =
    answer_command_atomic operational (some delete_mf) 7 rooted_card after_delete empty_rsp
      empty_rsp 0x6985
      (record { buffer = refl; sized = refl; narrow = omega arith; reserved = omega arith })
      rooted_card-IsTree delete_mf_refused (omega arith)
