-- ===== src/Apdu/Class.antt =====
-- apdu_parse.c: the class check.
use native_smart_card_os.Apdu.{apdu_check_cla, apdu_cla_status_sw}
use native_smart_card_os.Sw.{
  sw_chaining_not_supported, sw_cla_not_supported, sw_logical_channel_not_supported, sw_ok,
  sw_secure_messaging_not_supported,
}
use native_smart_card_os.Common.{
  ==→eq, Bool, if◌then◌else◌, ltb, passes_below, passes_below_lem, refl, true, ℕ, ◌<◌, ◌==◌, ◌≡◌,
}

-- The class bytes by their value: 00, then a channel, then secure messaging, then chaining.
abbrev pub class_sw : ℕ → ℕ
class_sw cla =
    if cla == 0
    then sw_ok
    else if ltb cla 4
    then sw_logical_channel_not_supported
    else if ltb cla 16
    then sw_secure_messaging_not_supported
    else if ltb cla 32
    then sw_chaining_not_supported
    else sw_cla_not_supported

-- The status word of a class byte agrees with the range that the byte lies in.
abbrev agrees : ℕ → Bool
agrees c = apdu_cla_status_sw (apdu_check_cla c) == class_sw c

classes_table : passes_below agrees 256 ≡ true
unfolding passes_below apdu_cla_status_sw apdu_check_cla
classes_table = refl

-- Every class byte is answered by its range: 00 is accepted, 01-03 are answered 6881, 04-0F 6882,
-- 10-1F 6884, and 20-FF 6E00.
pub apdu_check_cla-classes :
    (cla : ℕ) → cla < 256 → apdu_cla_status_sw (apdu_check_cla cla) ≡ class_sw cla
apdu_check_cla-classes cla h = ==→eq _ _ (passes_below_lem agrees cla h classes_table)
