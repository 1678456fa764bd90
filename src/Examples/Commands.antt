-- ===== src/Examples/Commands.antt =====
-- Commands over the card of the factory, with its file 2F00 selected.
use native_smart_card_os.Cmd.{resolve_target, target}
use native_smart_card_os.Examples.Card.{card_kernel}
use native_smart_card_os.Examples.Factory.{card_data, factory, factory_lem}
use native_smart_card_os.Kernel.{Outcome, scos_process}
use native_smart_card_os.Kernel.ReadBack.{read_binary, update_binary, update_then_read}
use native_smart_card_os.Machine.{Machine}
use native_smart_card_os.Tree.Overwritten.{HasRoom}
use native_smart_card_os.Common.{List, [], arith, inl, inr, length, refl, some, take, ℕ, ◌∷◌, ◌≡◌}

abbrev selected_card : Machine
selected_card = record {
  kernel = record card_kernel { sel = record { cur_df = 0; cur_ef = 1 } };
  store = factory;
}

card_data-HasRoom : HasRoom factory 1 4 2 card_data
card_data-HasRoom = record {
  slot = factory_lem.1 1 card_data (inr (inr (inr (inl (refl, refl)))));
  has_data = refl;
  usable = refl;
  room = omega arith;
}

selected_card-target : resolve_target factory selected_card.kernel.sel 0x00 0x04 ≡ target (1, 4)
unfolding resolve_target
selected_card-target = refl

abbrev short_rsp : List ℕ
short_rsp = 0 ∷ 0 ∷ 0 ∷ 0 ∷ []

update_then_read_example :
    (out : Outcome) × (out' : Outcome) × (scos_process selected_card
        (some (update_binary 0x00 0x04 (0xCA ∷ 0xFE ∷ [])))
        (length (update_binary 0x00 0x04 (0xCA ∷ 0xFE ∷ [])))
        short_rsp
        (length short_rsp)
      ≡ some out)
    × (take out.rsp_len out.rsp ≡ 0x90 ∷ 0x00 ∷ [])
    × (scos_process out.machine
          (some (read_binary 0x00 0x04 2))
          (length (read_binary 0x00 0x04 2))
          short_rsp
          (length short_rsp)
        ≡ some out')
    × (out'.machine ≡ out.machine)
    × (take out'.rsp_len out'.rsp ≡ 0xCA ∷ 0xFE ∷ 0x90 ∷ 0x00 ∷ [])
update_then_read_example =
    update_then_read selected_card 0x00 0x04 1 4 (0xCA ∷ 0xFE ∷ []) short_rsp short_rsp card_data
      refl factory_lem.0 selected_card-target card_data-HasRoom (omega arith) (omega arith)
      (omega arith) (omega arith) (omega arith) (omega arith)
