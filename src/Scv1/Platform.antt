-- ===== src/Scv1/Platform.antt =====
-- src/hal/arm-scv1/hal_arm_platform.c: bring-up, random numbers and time.
use native.Mathlib.Nat.{div-div-eq-div-mul, pow-suc}
use native_smart_card_os.Hal.{HalResult, Nvm}
use native_smart_card_os.Scv1.Power.{Images, scv1_nvm_power_on}
use native_smart_card_os.Vcard.Power.{Vcard}
use native_smart_card_os.Vcard.Random.{
  chunk, hal_random_bytes, low_bytes, random_loop, vcard_random_u64,
}
use native_smart_card_os.Common.{
  Bool, Bool-cases, List, [], ap, arith, bit_xor, if◌then◌else◌, inl, inr, ltb, refl, suc, sym,
  true, zero, ℕ, ◌%◌, ◌*◌, ◌+◌, ◌-◌, ◌/◌, ◌==◌, ◌^◌, ◌++◌, ◌∙◌, ◌∷◌, ◌≡◌,
}

abbrev pub scv1_sysclk_hz : ℕ
scv1_sysclk_hz = 25000000

-- The three registers of the system timer.
pub record Systick : Type 0 where
  pub csr : ℕ
  pub rvr : ℕ
  pub cvr : ℕ

-- The values that `hal_init` writes: a reload every millisecond, and the timer on, from the processor's clock.
abbrev pub systick_started : Systick
systick_started = record { csr = 0x1 + 0x4; rvr = scv1_sysclk_hz / 1000 - 1; cvr = 0 }

-- `hal_init`, without the registers of the UART.
unfoldable pub scv1_init : Images → Nvm → Systick × Nvm
scv1_init images nvm = (systick_started, scv1_nvm_power_on images nvm)

-- The state of the generator, and its number.
unfoldable pub rng_step : ℕ → ℕ × ℕ
rng_step state =
    let x = bit_xor state (state / 2 ^ 12) in
    let y = bit_xor x (x * 2 ^ 25 % 2 ^ 64) in
    let z = bit_xor y (y / 2 ^ 27) in (z, z * 0x2545F4914F6CDD1D % 2 ^ 64)

-- The inner loop: `n` bytes of a number from the `j`-th on.
unfoldable pub number_bytes : ℕ → ℕ → ℕ → List ℕ
number_bytes zero j r = []
number_bytes (suc n) j r = r / 2 ^ (8 * j) % 256 ∷ number_bytes n (j + 1) r

-- The outer loop, on fuel: the bytes that are left to fill.
unfoldable pub rng_loop : ℕ → ℕ → ℕ → ℕ × List ℕ
unfolding number_bytes rng_step
rng_loop zero left state = (state, [])
rng_loop (suc fuel) left state =
    if left == 0
    then (state, [])
    else let (state', r) = rng_step state in
      let n = if ltb left 8 then left else 8 in
      let (last, more) = rng_loop fuel (left - n) state' in (last, number_bytes n 0 r ++ more)

-- `hal_random_bytes` into a buffer that is not NULL. Each round fills a byte at least, so the length is enough
-- fuel.
unfoldable pub scv1_random_bytes : ℕ → ℕ → ℕ × List ℕ
unfolding rng_loop
scv1_random_bytes state len = if len == 0 then (state, []) else rng_loop len len state

-- `hal_timer_get_ms`: the flag COUNTFLAG as it is read, and the milliseconds so far.
unfoldable pub scv1_timer_get_ms : Bool → ℕ → ℕ
scv1_timer_get_ms countflag ms = if countflag then (ms + 1) % 2 ^ 32 else ms

eight : (n : ℕ) → 2 ^ (n + 8) ≡ 2 ^ n * 256
eight zero = refl
eight (suc n) =
    let moved : 2 ^ (suc n + 8) ≡ 2 ^ suc (n + 8) = ap (λ k. 2 ^ k) (omega arith) in
    omega (arith, moved, eight n, pow-suc 2 (n + 8), pow-suc 2 n)

-- Eight bits further down.
next_byte : (j r : ℕ) → r / 2 ^ (8 * (j + 1)) ≡ r / 2 ^ (8 * j) / 256
next_byte j r =
    let grown : 2 ^ (8 * (j + 1)) ≡ 2 ^ (8 * j) * 256 =
      ap (λ k. 2 ^ k) (omega arith) ∙ eight (8 * j) in
    ap (λ k. r / k) grown ∙ sym (div-div-eq-div-mul r (2 ^ (8 * j)) 256)

-- Both ports take the bytes of a number low first.
number_bytes-low_bytes : (n j r : ℕ) → number_bytes n j r ≡ low_bytes n (r / 2 ^ (8 * j))
unfolding number_bytes low_bytes
number_bytes-low_bytes zero j r = refl
number_bytes-low_bytes (suc n) j r =
    ap (λ bytes. r / 2 ^ (8 * j) % 256 ∷ bytes)
      (number_bytes-low_bytes n (j + 1) r ∙ ap (low_bytes n) (next_byte j r))

rng_loop-random_loop :
    (fuel left state : ℕ) → rng_loop fuel left state ≡ random_loop fuel left state
unfolding rng_loop random_loop rng_step vcard_random_u64
rng_loop-random_loop zero left state = refl
rng_loop-random_loop (suc fuel) left state =
    let (state', r) = rng_step state in
    let same : number_bytes (chunk left) 0 r ≡ low_bytes (chunk left) r =
      number_bytes-low_bytes (chunk left) 0 r ∙ ap (low_bytes (chunk left)) (omega arith) in
    let rest = rng_loop-random_loop fuel (left - chunk left) state' in rw same (rw rest refl)

-- The two ports draw the same numbers: from the same state of the generator `hal_random_bytes` of the
-- SCV1 port fills a buffer of any length with the bytes that the simulator fills it with while its
-- chip has power, and leaves the same state.
pub scv1_random_bytes-hal_random_bytes :
    (v : Vcard) (len : ℕ)
    → v.nvm.powered ≡ true
    → hal_random_bytes v len ≡ (
        let (state, bytes) = scv1_random_bytes v.rng_state len in
        HalResult.ok (record v { rng_state = state }, bytes))
unfolding hal_random_bytes scv1_random_bytes
scv1_random_bytes-hal_random_bytes v len on = elim (Bool-cases (len == 0)) [
  | inl none_left ↦ ground (arith, none_left)
  | inr some_left ↦ ground (arith, some_left, on, rng_loop-random_loop len len v.rng_state)
]
