-- ===== src/Cmd/Status.antt =====
-- cmd_select.c: the status word for each error of the file system.
use native_smart_card_os.Fs.{
  FsError, err_corrupt, err_exists, err_no_space, err_not_formatted, err_not_found, err_not_usable,
  err_nvm, err_param, err_range, err_version, err_wrong_type,
}
use native_smart_card_os.Sw.{
  sw_cmd_incompatible_file, sw_conditions_not_satisfied, sw_file_already_exists, sw_file_not_found,
  sw_incorrect_p1p2, sw_memory_failure, sw_not_enough_space, sw_wrong_p1p2,
}
use native_smart_card_os.Common.{ℕ}

unfoldable pub scos_fs_error_to_sw : FsError → ℕ
scos_fs_error_to_sw err_not_found = sw_file_not_found
scos_fs_error_to_sw err_not_usable = sw_conditions_not_satisfied
scos_fs_error_to_sw err_wrong_type = sw_cmd_incompatible_file
scos_fs_error_to_sw err_range = sw_wrong_p1p2
scos_fs_error_to_sw err_param = sw_incorrect_p1p2
scos_fs_error_to_sw err_no_space = sw_not_enough_space
scos_fs_error_to_sw err_exists = sw_file_already_exists
scos_fs_error_to_sw err_corrupt = sw_memory_failure
scos_fs_error_to_sw err_version = sw_memory_failure
scos_fs_error_to_sw err_not_formatted = sw_memory_failure
scos_fs_error_to_sw err_nvm = sw_memory_failure
