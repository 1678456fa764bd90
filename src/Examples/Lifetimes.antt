-- ===== src/Examples/Lifetimes.antt =====
-- A file that is created on the card that holds the MF alone.
use native_smart_card_os.Crc16.{crc16}
use native_smart_card_os.Examples.Card.{rooted, rooted_card, rooted_card-IsTree}
use native_smart_card_os.Examples.Files.{ef_req, ef_req-IsRequest, root_sel, with_ef}
use native_smart_card_os.Hal.{hal_nvm_read, hal_nvm_size, hal_nvm_sync, hal_nvm_write}
use native_smart_card_os.Store.{
  check_desc, desc_decode, desc_fields, desc_image, desc_raw_read, free_slot_loop, free_slots,
  fs_store_alloc_data, fs_store_find_free_slot, fs_store_format, fs_store_read_desc,
  fs_store_slot_is_free, fs_store_write_desc, sb_fields, sb_image, sb_write, sync, write_block,
  write_fresh_superblock, write_through,
}
use native_smart_card_os.Tree.{
  check_lifecycle, check_type, create_in, create_slot, find_by_sfi_loop, find_child_loop,
  fs_create_file, fs_find_by_sfi, fs_find_child, store_new,
}
use native_smart_card_os.Fs.{ok}
use native_smart_card_os.Cmd.RoundTrip.{IsListed}
use native_smart_card_os.Kernel.{Outcome, scos_process}
use native_smart_card_os.Kernel.Created.{create_file, create_then_select_file, select_file, wrapped}
use native_smart_card_os.Store.{Store}
use native_smart_card_os.Tree.{deselect, fs_delete_file, fs_select_by_fid, fs_selected_index}
use native_smart_card_os.Tree.Invariant.{IsTree}
use native_smart_card_os.Tree.Lifetime.{create_then_delete, create_then_select}
use native_smart_card_os.Common.{
  List, [], ap, arith, inl, inr, length, refl, some, splice, take, ℕ, ◌++◌, ◌∷◌, ◌≡◌, ◌≢◌,
}

ef_created : (fs_create_file root_sel ef_req rooted).0 ≡ ok 1
unfolding fs_create_file create_slot create_in store_new fs_store_read_desc desc_raw_read
    fs_store_write_desc fs_store_slot_is_free check_desc free_slot_loop fs_store_find_free_slot
    fs_find_child find_child_loop fs_find_by_sfi find_by_sfi_loop check_type check_lifecycle
    fs_store_alloc_data sb_write write_block sync write_through hal_nvm_read hal_nvm_write
    hal_nvm_sync hal_nvm_size sb_fields sb_image desc_decode desc_fields desc_image crc16
    fs_store_format free_slots write_fresh_superblock splice
ef_created = refl

pub ef_stored : fs_create_file root_sel ef_req rooted ≡ (ok 1, with_ef)
ef_stored = ap (λ r. (r, with_ef)) ef_created

create_then_select_example :
    fs_select_by_fid with_ef root_sel 0x2F01 ≡ ok (record { cur_df = 0; cur_ef = 1 })
create_then_select_example =
    create_then_select rooted with_ef root_sel ef_req 1 rooted_card-IsTree ef_req-IsRequest
      ef_stored

create_then_delete_example :
    (t : Store) × (fs_delete_file root_sel 0x2F01 with_ef ≡ (ok (deselect root_sel 1), t))
    × IsTree t
    × ((deselect root_sel 1).cur_df ≢ 1)
    × ((deselect root_sel 1).cur_ef ≢ 1)
    × ((j : ℕ) → fs_store_read_desc t j ≡ fs_store_read_desc rooted j)
create_then_delete_example =
    create_then_delete rooted with_ef root_sel ef_req 1 rooted_card-IsTree ef_req-IsRequest
      ef_stored

ef_req-IsListed : IsListed ef_req
ef_req-IsListed = record {
  id_fits = omega arith;
  alive = inr (inr (inl refl));
  typed = inr (refl, omega arith, omega arith, omega arith);
}

abbrev roomy_rsp : List ℕ
roomy_rsp = 0 ∷ 0 ∷ 0 ∷ 0 ∷ 0 ∷ 0 ∷ 0 ∷ 0 ∷ 0 ∷ 0 ∷ 0 ∷ 0 ∷ 0 ∷ 0 ∷ 0 ∷ 0 ∷ 0 ∷ 0 ∷ 0 ∷ 0 ∷ 0 ∷ []

create_then_select_file_example :
    (out : Outcome) × (out' : Outcome) × (scos_process rooted_card
        (some (create_file ef_req))
        (length (create_file ef_req))
        roomy_rsp
        (length roomy_rsp)
      ≡ some out)
    × (take out.rsp_len out.rsp ≡ 0x90 ∷ 0x00 ∷ [])
    × (scos_process out.machine
          (some (select_file 0x2F01))
          (length (select_file 0x2F01))
          roomy_rsp
          (length roomy_rsp)
        ≡ some out')
    × (take out'.rsp_len out'.rsp ≡ wrapped ef_req ++ 0x90 ∷ 0x00 ∷ [])
    × (fs_selected_index out'.machine.kernel.sel ≡ 1)
create_then_select_file_example =
    create_then_select_file rooted_card ef_req 1 with_ef roomy_rsp roomy_rsp refl rooted_card-IsTree
      ef_req-IsListed refl ef_stored (omega arith) (omega arith) (omega arith) (omega arith)
