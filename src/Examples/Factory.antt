-- ===== src/Examples/Factory.antt =====
-- A blank chip with room for the factory's files.
use mathlib.Core.Path.{subst}
use native_smart_card_os.Examples.Card.{blank, card_kernel, eeprom_fits}
use native_smart_card_os.Fs.{
  FsDescriptor, err, err_range, fs_lc_activated, fs_type_ef_transparent, ok,
}
use native_smart_card_os.Kernel.{scos_init, scos_ok}
use native_smart_card_os.Kernel.Loop.{IsCard}
use native_smart_card_os.Kernel.Start.{scos_init-IsCard}
use native_smart_card_os.Machine.{Machine, operational}
use native_smart_card_os.Store.{Store, fs_store_read_desc}
use native_smart_card_os.Store.Sizes.{SameSize}
use native_smart_card_os.Tree.{fs_ef_read, fs_personalise}
use native_smart_card_os.Tree.Written.{view_slot}
use native_smart_card_os.Tree.Creation.{IsRequest}
use native_smart_card_os.Tree.Factory.{IsRoomy, factory_files, fs_personalise_lem}
use native_smart_card_os.Tree.Invariant.{IsTree}
use native_smart_card_os.Tree.Personal.{Listed}
use native_smart_card_os.Tree.Refines.{fs_ef_read-view}
use native_smart_card_os.Tree.Simulation.{apply_ops, apply_ops-Runs}
use native_smart_card_os.Tree.Spec.{
  File, FileOp, Runs, contents_of, create_op, delete_op, forget_place, view, write_op,
}
use native_smart_card_os.Common.{
  List, [], ap, arith, if◌then◌else◌, inl, inr, length, length-replicate, ltb, refl, replicate,
  slice, sym, ℕ, ◌∷◌, ◌≡◌,
}

abbrev wide : Store
wide = record blank { nvm = record (blank.nvm) { flash_bytes = replicate 112 0xFF } }

wide-IsRoomy : IsRoomy wide.nvm
wide-IsRoomy = record {
  on = refl;
  table_fits = eeprom_fits;
  files_fit = omega (arith, length-replicate {A = ℕ} 112 0xFF);
  narrow = omega (arith, length-replicate {A = ℕ} 112 0xFF);
}

fs_personalise_lem_example :
    (s' : Store) × (fs_personalise wide ≡ (ok tt, s'))
    × IsTree s'
    × ((j : ℕ) (d : FsDescriptor) → Listed j d factory_files → fs_store_read_desc s' j ≡ ok d)
    × ((j : ℕ) (d : FsDescriptor) → fs_store_read_desc s' j ≡ ok d → Listed j d factory_files)
fs_personalise_lem_example = fs_personalise_lem wide wide-IsRoomy

abbrev roomy_card : Machine
roomy_card = record { kernel = card_kernel; store = wide }

scos_init-IsCard_example :
    (m' : Machine) × (scos_init roomy_card ≡ (scos_ok, m'))
    × (m'.kernel.lifecycle ≡ operational)
    × IsCard m'
    × SameSize wide m'.store
scos_init-IsCard_example =
    scos_init-IsCard roomy_card (length-replicate {A = ℕ} 261 0, length-replicate {A = ℕ} 258 0)
      (inr (wide-IsRoomy, λ magic. omega (arith, magic.0)))

-- The card of the factory, and its file 2F00 of 32 bytes.
abbrev pub factory : Store
factory = (fs_personalise wide).1

abbrev pub ListsAll : Store → Type 0
ListsAll s = (j : ℕ) (d : FsDescriptor) → Listed j d factory_files → fs_store_read_desc s j ≡ ok d

pub factory_lem : IsTree factory × ListsAll factory
factory_lem =
    let (s', e, tree, there, only) = fs_personalise_lem wide wide-IsRoomy in
    let same : s' ≡ factory = ap (λ r. r.1) (sym e) in
    (subst IsTree same tree, subst ListsAll same there)

abbrev pub card_data : FsDescriptor
card_data = record {
  file_id = 0x2F00;
  ftype = fs_type_ef_transparent;
  lifecycle = fs_lc_activated;
  parent = 0;
  size = 32;
  data_offset = 0;
  ac_read = 0;
  ac_update = 0;
  sfi = 1;
  flags = 0;
}

abbrev card_data_file : File
card_data_file = record {
  attributes = forget_place card_data;
  contents = contents_of card_data factory.nvm.flash_bytes;
}

fs_ef_read-view_example : fs_ef_read factory 1 4 8 ≡ (
    if ltb (length card_data_file.contents) 4
    then err err_range
    else ok (slice 4 8 card_data_file.contents))
fs_ef_read-view_example =
    fs_ef_read-view factory 1 4 8 card_data_file factory_lem.0
      (view_slot factory 1 card_data
        (factory_lem.1 1 card_data (inr (inr (inr (inl (refl, refl)))))))
      refl refl

abbrev some_ops : List FileOp
some_ops =
    write_op 1 4 (0xCA ∷ 0xFE ∷ [])
    ∷ delete_op (record { cur_df = 0; cur_ef = 1 }) 0x2F00
    ∷ create_op (record { cur_df = 0; cur_ef = 1 }) card_data
    ∷ []

card_data-IsRequest : IsRequest card_data
card_data-IsRequest = record { fid_fits = omega arith; access_fits = (omega arith, omega arith) }

apply_ops-Runs_example :
    let (answers, s') = apply_ops some_ops factory in
    IsTree s' × Runs some_ops answers (view factory) (view s')
apply_ops-Runs_example =
    apply_ops-Runs some_ops factory factory_lem.0 (tt, (tt, (card_data-IsRequest, tt)))
