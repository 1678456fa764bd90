-- ===== src/Sw.antt =====
-- include/apdu/sw.h: the status words, and their two bytes.
use native_smart_card_os.Common.{ℕ, ◌%◌, ◌+◌, ◌/◌}

abbrev pub sw_ok : ℕ
sw_ok = 0x9000

abbrev pub sw_nvm_unchanged_eof : ℕ
sw_nvm_unchanged_eof = 0x6282

abbrev pub sw_memory_failure : ℕ
sw_memory_failure = 0x6581

abbrev pub sw_wrong_length : ℕ
sw_wrong_length = 0x6700

abbrev pub sw_logical_channel_not_supported : ℕ
sw_logical_channel_not_supported = 0x6881

abbrev pub sw_secure_messaging_not_supported : ℕ
sw_secure_messaging_not_supported = 0x6882

abbrev pub sw_chaining_not_supported : ℕ
sw_chaining_not_supported = 0x6884

abbrev pub sw_cmd_incompatible_file : ℕ
sw_cmd_incompatible_file = 0x6981

abbrev pub sw_conditions_not_satisfied : ℕ
sw_conditions_not_satisfied = 0x6985

abbrev pub sw_command_not_allowed_no_ef : ℕ
sw_command_not_allowed_no_ef = 0x6986

abbrev pub sw_wrong_data : ℕ
sw_wrong_data = 0x6A80

abbrev pub sw_func_not_supported : ℕ
sw_func_not_supported = 0x6A81

abbrev pub sw_file_not_found : ℕ
sw_file_not_found = 0x6A82

abbrev pub sw_not_enough_space : ℕ
sw_not_enough_space = 0x6A84

abbrev pub sw_incorrect_p1p2 : ℕ
sw_incorrect_p1p2 = 0x6A86

abbrev pub sw_lc_inconsistent_p1p2 : ℕ
sw_lc_inconsistent_p1p2 = 0x6A87

abbrev pub sw_file_already_exists : ℕ
sw_file_already_exists = 0x6A89

abbrev pub sw_wrong_p1p2 : ℕ
sw_wrong_p1p2 = 0x6B00

-- `SW_WRONG_LE(n)`; the sum is the bitwise or of 0x6C00 and a byte.
abbrev pub sw_wrong_le : ℕ → ℕ
sw_wrong_le n = 0x6C00 + n % 256

abbrev pub sw_ins_not_supported : ℕ
sw_ins_not_supported = 0x6D00

abbrev pub sw_cla_not_supported : ℕ
sw_cla_not_supported = 0x6E00

abbrev pub sw_no_precise_diagnosis : ℕ
sw_no_precise_diagnosis = 0x6F00

-- The two bytes of a status word.
abbrev pub sw1 : ℕ → ℕ
sw1 sw = sw / 256 % 256

abbrev pub sw2 : ℕ → ℕ
sw2 sw = sw % 256

abbrev pub sw_reference_data_invalidated : ℕ
sw_reference_data_invalidated = 0x6984
