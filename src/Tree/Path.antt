-- ===== src/Tree/Path.antt =====
-- fs.c: where a SELECT by path can lead.
use native_smart_card_os.Fs.{FsDescriptor, fs_is_df, fs_is_usable, ok}
use native_smart_card_os.Store.{Store, fs_store_read_desc}
use native_smart_card_os.Tree.Lookup.{IsChild}
use native_smart_card_os.Tree.Select.{FsSelection, names_here}
use native_smart_card_os.Tree.Selection.{chosen}
use native_smart_card_os.Common.{
  List, [], false, get_or, suc, true, zero, ℕ, ◌*◌, ◌+◌, ◌∷◌, ◌≡◌, ◌≢◌, ◌-◌, ◌⊎◌,
}

-- The identifiers of a path, of which `n` are left from the `i`-th on.
abbrev pub components : ℕ → ℕ → List ℕ → List ℕ
components zero i path = []
components (suc n) i path =
    (get_or path (i * 2) 0 * 256 + get_or path (i * 2 + 1) 0) ∷ components n (i + 1) path

-- A way down the tree: each step goes to a usable child of the current DF with the next identifier and
-- selects it, and all but the last are DFs.
pub data Walk (s : Store) : FsSelection → List ℕ → FsSelection → Type 0 where
  arrived : (sel : FsSelection) → Walk s sel [] sel
  down :
      (sel sel' : FsSelection) (fid i : ℕ) (rest : List ℕ) (d : FsDescriptor)
      → IsChild s i sel.cur_df fid
      → fs_store_read_desc s i ≡ ok d
      → fs_is_usable d ≡ true
      → (rest ≢ [] → fs_is_df d ≡ true)
      → Walk s (chosen i d) rest sel'
      → Walk s sel (fid ∷ rest) sel'

-- The identifier that a path begins with.
abbrev pub first_component : List ℕ → ℕ
first_component path = get_or path 0 0 * 256 + get_or path 1 0

-- The walk from the start of a path, of which the first identifier may name the folder where it starts.
abbrev pub WalksFrom : Store → FsSelection → List ℕ → ℕ → FsSelection → Type 0
WalksFrom s start path n sel' =
    (names_here s start (first_component path) ≡ true)
      × Walk s start (components (n - 1) 1 path) sel'
    ⊎ (names_here s start (first_component path) ≡ false) × Walk s start (components n 0 path) sel'
