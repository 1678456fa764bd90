-- ===== src/Vcard/Program.antt =====
-- simulator/main.c: the options of the command line, and the run of the card from power-up to
-- power-down. What is printed on the standard error is left out.
use native_smart_card_os.Kernel.{
  ScosStatus, scos_apdu_cmd_max, scos_apdu_rsp_max, scos_init, scos_ok,
}
use native_smart_card_os.Link.Session.{run_card_loop, simulator_link}
use native_smart_card_os.Link.Simulator.{same_text}
use native_smart_card_os.Machine.{Machine, ScosKernel, fs_error, no_power}
use native_smart_card_os.Store.{Superblock}
use native_smart_card_os.Vcard.Power.{
  Host, Vcard, VcardConfig, vcard_config_default, vcard_configure, vcard_power_off, vcard_power_on,
}
use native_smart_card_os.Common.{
  Bool, List, Option, [], codes, false, if◌then◌else◌, length, ltb, none, not, replicate, some,
  true, ℕ, ◌+◌, ◌||◌, ◌∷◌,
}

-- What the options ask for: a run with a configuration, or an exit with a code.
pub data Options : Type 0 where
  run_with : VcardConfig → Options
  exit_with : ℕ → Options

abbrev pub is_empty : List ℕ → Bool
is_empty [] = true
is_empty (c ∷ text) = false

-- `need_value`
unfoldable pub need_value : List ℕ → Bool
need_value a =
    same_text a (codes "--state-dir")
    || same_text a (codes "--eeprom")
    || same_text a (codes "--flash")
    || same_text a (codes "--seed")

-- The options without a value.
unfoldable pub plain_option : VcardConfig → List ℕ → Options
plain_option c a =
    if same_text a (codes "--quiet")
    then run_with (record c { quiet = true })
    else if same_text a (codes "--help") || same_text a (codes "-h")
    then exit_with 0
    else exit_with 2

abbrev pub with_number : Option ℕ → (ℕ → VcardConfig) → Options
with_number none f = exit_with 2
with_number (some v) f = run_with (f v)

-- C's `strtoul` in base 0: the number, and the text behind it.
module _ (strtoul : List ℕ → ℕ × List ℕ) where
  -- `parse_u32`; -1 is `none`.
  unfoldable pub parse_u32 : List ℕ → Option ℕ
  parse_u32 s =
      if is_empty s || not (is_empty (strtoul s).1) || ltb 0xFFFFFFFF (strtoul s).0
      then none
      else some (strtoul s).0

  -- The options with a value.
  unfoldable pub valued_option : VcardConfig → List ℕ → List ℕ → Options
  valued_option c a v =
      if same_text a (codes "--state-dir")
      then run_with (record c { state_dir = some v })
      else if same_text a (codes "--eeprom")
      then with_number (parse_u32 v) (λ n. record c { eeprom_size = n })
      else if same_text a (codes "--flash")
      then with_number (parse_u32 v) (λ n. record c { flash_size = n })
      else with_number (parse_u32 v) (λ n. record c { rng_seed = n })

  -- The loop over the arguments of `main`.
  unfoldable pub parse_options : VcardConfig → List (List ℕ) → Options
  unfolding need_value plain_option valued_option
  parse_options c [] = run_with c
  parse_options c (a ∷ []) = if need_value a then exit_with 2 else plain_option c a
  parse_options c (a ∷ v ∷ rest) = elim (need_value a) [
    | true ↦ elim (valued_option c a v) [
      | exit_with code ↦ exit_with code
      | run_with c' ↦ parse_options c' rest
    ]
    | false ↦ elim (plain_option c a) [
      | exit_with code ↦ exit_with code
      | run_with c' ↦ parse_options c' (v ∷ rest)
    ]
  ]

-- What a run of the program leaves: its exit code, the host's files, and what it printed.
pub record Exit : Type 0 where
  pub code : ℕ
  pub host : Host
  pub output : List ℕ

-- The static objects when the program starts: all is zero.
abbrev pub zero_kernel : ScosKernel
zero_kernel = record {
  lifecycle = no_power;
  reset_count = 0;
  sel = record { cur_df = 0; cur_ef = 0 };
  cmd = replicate scos_apdu_cmd_max 0;
  cmd_len = 0;
  rsp = replicate scos_apdu_rsp_max 0;
  rsp_len = 0;
}

abbrev pub zero_superblock : Superblock
zero_superblock = record { mounted = false; version = 0; max_files = 0; data_top = 0 }

abbrev pub powered_machine : Vcard → Machine
powered_machine v = record {
  kernel = zero_kernel;
  store = record { nvm = v.nvm; sb = zero_superblock };
}

-- `hal_shutdown`, and the exit with a code.
unfoldable pub shut_down_with : ℕ → VcardConfig → Host → Vcard → Machine → List ℕ → Exit
shut_down_with code c host v m text = record {
  code = code;
  host = (vcard_power_off c host (record v { nvm = m.store.nvm })).0;
  output = text;
}

-- The card serves the reader until it disconnects, and is powered down.
unfoldable pub serve_reader : VcardConfig → Host → Vcard → Machine → List ℕ → Option Exit
unfolding shut_down_with
serve_reader c host v m input = elim (run_card_loop simulator_link (length input + 1) m input) [
  | none ↦ none
  | some r ↦ if r.returned then some (shut_down_with 0 c host v r.machine r.output) else none
]

-- An `scos_init` that fails is fatal, unless the file system is what fails.
unfoldable pub after_init : VcardConfig → Host → Vcard → List ℕ → ScosStatus → Machine → Option Exit
unfolding serve_reader
after_init c host v input scos_ok m = serve_reader c host v m input
after_init c host v input _ m = elim m.kernel.lifecycle [
  | fs_error ↦ serve_reader c host v m input
  | _ ↦ some (shut_down_with 1 c host v m [])
]

-- From `vcard_configure` to the end of `main`.
unfoldable pub run_card : VcardConfig → Host → List ℕ → Option Exit
unfolding after_init
run_card given host input =
    let c = vcard_configure (some given) in
    let v = vcard_power_on c host in
    let (st, m) = scos_init (powered_machine v) in after_init c host v input st m

-- `main`
unfoldable pub simulator_main : (List ℕ → ℕ × List ℕ) → List (List ℕ) → Host → List ℕ → Option Exit
simulator_main strtoul args host input = elim (parse_options strtoul vcard_config_default args) [
  | exit_with code ↦ some (record { code = code; host = host; output = [] })
  | run_with c ↦ run_card c host input
]
