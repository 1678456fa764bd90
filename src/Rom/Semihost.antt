-- ===== src/Rom/Semihost.antt =====
-- src/hal/arm-scv1/semihost.c: files of the debugger's host. Whether a host answers is found out once,
-- by a trap of the processor, and is an input here.
use native_smart_card_os.Common.{
  Bool, List, Option, arith, false, if◌then◌else◌, length, ltb, none, some, splice, splice-whole,
  take, take-all, true, ℕ, ◌&&◌, ◌≡◌,
}

-- A host that answers or not, and that lets files be opened for writing or not.
pub record Debugger : Type 0 where
  pub available : Bool
  pub writable : Bool

-- `semihost_load` into a region, of a file that is there or not: the count of bytes read, where -1 is
-- `none`, and the region.
unfoldable pub semihost_load : Debugger → Option (List ℕ) → List ℕ → Option ℕ × List ℕ
semihost_load host none region = (none, region)
semihost_load host (some image) region =
    let got = take (length region) image in
    if host.available then (some (length got), splice 0 got region) else (none, region)

-- `semihost_store`: the file after it. What is written to an open file is taken whole.
unfoldable pub semihost_store : Debugger → Option (List ℕ) → List ℕ → Option (List ℕ)
semihost_store host image src = if host.available && host.writable then some src else image

-- More than zero bytes were read.
abbrev pub is_loaded : Option ℕ → Bool
is_loaded none = false
is_loaded (some n) = ltb 0 n

-- A file that is as long as the region takes its place.
pub semihost_load-full :
    (host : Debugger) (image region : List ℕ)
    → host.available ≡ true
    → length image ≡ length region
    → semihost_load host (some image) region ≡ (some (length region), image)
unfolding semihost_load
semihost_load-full host image region on same =
    let whole : take (length region) image ≡ image =
      take-all (length region) image (omega (arith, same)) in
    ground (arith, on, whole, same, splice-whole image region same)
