-- ===== src/Vcard/Random.antt =====
-- The random numbers of the simulator: `vcard_random_u64` of simulator/virtual_card.c and
-- `hal_random_bytes` of src/hal/simulator/hal_sim_platform.c.
use native_smart_card_os.Hal.{HalError, HalResult}
use native_smart_card_os.Vcard.Power.{Vcard}
use native_smart_card_os.Common.{
  All, Bool-cases, List, [], ap, arith, bit_xor, false, if-split, if◌then◌else◌, inl, inr, length,
  length-append, ltb, refl, suc, zero, ℕ, ◌%◌, ◌*◌, ◌++◌, ◌-◌, ◌/◌, ◌<◌, ◌==◌, ◌^◌, ◌∷◌, ◌≡◌, ◌≤◌,
  ◌⊎◌,
}

-- One step of xorshift64*: the new state, and the number.
unfoldable pub vcard_random_u64 : ℕ → ℕ × ℕ
vcard_random_u64 state =
    let x = bit_xor state (state / 2 ^ 12) in
    let y = bit_xor x (x * 2 ^ 25 % 2 ^ 64) in
    let z = bit_xor y (y / 2 ^ 27) in (z, z * 0x2545F4914F6CDD1D % 2 ^ 64)

-- The inner loop: `n` bytes of a number, the low ones first.
unfoldable pub low_bytes : ℕ → ℕ → List ℕ
low_bytes zero r = []
low_bytes (suc n) r = r % 256 ∷ low_bytes n (r / 256)

-- A number gives eight bytes at most.
abbrev pub chunk : ℕ → ℕ
chunk left = if ltb left 8 then left else 8

-- The outer loop, on fuel: the bytes that are left to fill, eight to a number.
unfoldable pub random_loop : ℕ → ℕ → ℕ → ℕ × List ℕ
unfolding low_bytes vcard_random_u64
random_loop zero left state = (state, [])
random_loop (suc fuel) left state =
    if left == 0
    then (state, [])
    else let (state', r) = vcard_random_u64 state in
      let n = if ltb left 8 then left else 8 in
      let (last, more) = random_loop fuel (left - n) state' in (last, low_bytes n r ++ more)

abbrev pub filled : Vcard → ℕ × List ℕ → Vcard × List ℕ
filled v (state, bytes) = (record v { rng_state = state }, bytes)

-- `hal_random_bytes` into a buffer that is not NULL: the chip after it, and the bytes.
unfoldable pub hal_random_bytes : Vcard → ℕ → HalResult (Vcard × List ℕ)
unfolding random_loop
hal_random_bytes v len =
    if len == 0
    then HalResult.ok (v, [])
    else if v.nvm.powered
    then HalResult.ok (filled v (random_loop len len v.rng_state))
    else HalResult.err HalError.power

length-low_bytes : (n r : ℕ) → (length (low_bytes n r) ≡ n) × All (λ b. b < 256) (low_bytes n r)
unfolding low_bytes
length-low_bytes zero r = (refl, tt)
length-low_bytes (suc n) r =
    let (size, bytes) = length-low_bytes n (r / 256) in (ap suc size, (omega arith, bytes))

All-append :
    (xs ys : List ℕ) → All (λ b. b < 256) xs → All (λ b. b < 256) ys → All (λ b. b < 256) (xs ++ ys)
All-append [] ys h g = g
All-append (x ∷ xs) ys (h, hs) g = (h, All-append xs ys hs g)

-- The bytes that the loop leaves.
abbrev Fills : ℕ → ℕ × List ℕ → Type 0
Fills left out = (length out.1 ≡ left) × All (λ b. b < 256) out.1

random_loop_lem : (fuel left state : ℕ) → left ≤ fuel → Fills left (random_loop fuel left state)
unfolding random_loop
random_loop_lem zero left state h = (omega (arith, h), tt)
random_loop_lem (suc fuel) left state h =
    let (state', r) = vcard_random_u64 state in
    let (size, bytes) = length-low_bytes (chunk left) r in
    let (more, rest) = random_loop_lem fuel (left - chunk left) state' (ground (arith, h)) in
    let later = (random_loop fuel (left - chunk left) state').1 in
    if-split (Fills left) (left == 0) (λ e. (ground (arith, e), tt))
      (λ e. (
        ground (arith, e, size, more, length-append (low_bytes (chunk left) r) later),
        All-append (low_bytes (chunk left) r) later bytes rest,
      ))

-- `hal_random_bytes` fills its buffer of any length with bytes, the loop's fuel being
-- enough, if the chip has power or the length is 0; the memory is not touched. Without power it is refused.
pub hal_random_bytes_lem :
    (v : Vcard) (len : ℕ)
    → ((state : ℕ) × (bytes : List ℕ) × (hal_random_bytes v len
          ≡ HalResult.ok (record v { rng_state = state }, bytes))
        × (length bytes ≡ len)
        × All (λ b. b < 256) bytes)
      ⊎ ((v.nvm.powered ≡ false)
          × (1 ≤ len)
          × (hal_random_bytes v len ≡ HalResult.err HalError.power))
unfolding hal_random_bytes
hal_random_bytes_lem v len =
    let (size, bytes) = random_loop_lem len len v.rng_state (omega arith) in
    elim (Bool-cases (len == 0)) [
      | inl none_left ↦
          inl (v.rng_state, [], ground (arith, none_left), ground (arith, none_left), tt)
      | inr some_left ↦ elim (Bool-cases v.nvm.powered) [
        | inl on ↦ inl (
          (random_loop len len v.rng_state).0,
          (random_loop len len v.rng_state).1,
          ground (arith, some_left, on),
          size,
          bytes,
        )
        | inr off ↦ inr (off, ground (arith, some_left), ground (arith, some_left, off))
      ]
    ]
