-- ===== src/Examples/Ports.antt =====
-- The start of the SCV1 chip, its memory, and the comparison of blocks.
use native_smart_card_os.Hal.{Nvm, Region, hal_nvm_read, hal_nvm_size, hal_nvm_sync, hal_nvm_write}
use native_smart_card_os.OsMem.{os_memeq_ct}
use native_smart_card_os.OsMem.Compare.{os_memeq_ct_lem}
use native_smart_card_os.Scv1.Agree.{IsScv1, scv1_nvm-hal_nvm}
use native_smart_card_os.Scv1.Bringup.{Outside, scv1_reset_handler_lem}
use native_smart_card_os.Scv1.Memory.{scv1_nvm_read, scv1_nvm_size, scv1_nvm_sync, scv1_nvm_write}
use native_smart_card_os.Scv1.Startup.{Layout, Semihost, Trap, faults, scv1_reset_handler}
use native_smart_card_os.Common.{
  List, [], arith, false, length-replicate, replicate, slice, some, take, true, ℕ, ◌∷◌, ◌≡◌,
}

abbrev block : List ℕ
block = 0xCA ∷ 0xFE ∷ []

abbrev chip : Nvm
chip = record {
  eeprom_bytes = replicate 16384 0xFF;
  flash_bytes = replicate 262144 0xFF;
  powered = true;
}

chip-IsScv1 : IsScv1 chip
chip-IsScv1 = record {
  eeprom_sized = length-replicate {A = ℕ} 16384 0xFF;
  flash_sized = length-replicate {A = ℕ} 262144 0xFF;
}

scv1_nvm-hal_nvm_example :
    (scv1_nvm_size Region.eeprom ≡ hal_nvm_size chip Region.eeprom)
    × (scv1_nvm_read chip Region.eeprom 1 (some block) 2 ≡ hal_nvm_read chip Region.eeprom 1 2)
    × (scv1_nvm_write chip Region.eeprom 1 (some block) 2
        ≡ hal_nvm_write chip Region.eeprom 1 block)
    × (scv1_nvm_sync chip ≡ hal_nvm_sync chip)
scv1_nvm-hal_nvm_example = scv1_nvm-hal_nvm chip Region.eeprom 1 block chip-IsScv1

os_memeq_ct_lem_example :
    (os_memeq_ct (some block) (some (0xCA ∷ 0xFF ∷ [])) 1 ≡ true
      → take 1 block ≡ take 1 (0xCA ∷ 0xFF ∷ []))
    × (take 1 block ≡ take 1 (0xCA ∷ 0xFF ∷ [])
        → os_memeq_ct (some block) (some (0xCA ∷ 0xFF ∷ [])) 1 ≡ true)
os_memeq_ct_lem_example =
    os_memeq_ct_lem block (0xCA ∷ 0xFF ∷ []) 1 (omega arith) (omega arith) (omega arith)
      (omega arith)

-- Two initialised words and one that is zero, in a memory of five.
abbrev sections : Layout
sections = record { sdata = 1; edata = 3; sbss = 3; ebss = 4 }

abbrev ram : List ℕ
ram = 9 ∷ 9 ∷ 9 ∷ 9 ∷ 9 ∷ []

scv1_reset_handler_lem_example :
    (slice 1 2 (scv1_reset_handler sections (7 ∷ 8 ∷ []) ram) ≡ take 2 (7 ∷ 8 ∷ []))
    × (slice 3 1 (scv1_reset_handler sections (7 ∷ 8 ∷ []) ram) ≡ replicate 1 0)
    × ((o n : ℕ)
        → Outside sections o n
        → slice o n (scv1_reset_handler sections (7 ∷ 8 ∷ []) ram) ≡ slice o n ram)
scv1_reset_handler_lem_example = scv1_reset_handler_lem sections (7 ∷ 8 ∷ []) ram (record {
  data_ordered = omega arith;
  apart = omega arith;
  bss_ordered = omega arith;
  inside = omega arith;
  all_given = omega arith;
})

abbrev not_probed : Semihost
not_probed = record { available = false; probed = false; in_flight = false }

abbrev no_host : Trap
no_host = faults (0 ∷ 0 ∷ 0 ∷ 0 ∷ 0 ∷ 0 ∷ 0x2100 ∷ 0 ∷ [])
