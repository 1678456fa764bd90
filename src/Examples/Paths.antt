-- ===== src/Examples/Paths.antt =====
-- A SELECT by path on the card with an EF.
use native_smart_card_os.Tree.{FsSelection}
use native_smart_card_os.Common.{[], ◌∷◌, ℕ, List}

-- The MF, and in it the EF.
abbrev to_ef : List ℕ
to_ef = 0x3F ∷ 0x00 ∷ 0x2F ∷ 0x01 ∷ []

abbrev ef_selected : FsSelection
ef_selected = record { cur_df = 0; cur_ef = 1 }
