-- ===== src/Tree/Spec.antt =====
-- What the file system promises, without slots in FLASH and without bytes of descriptors: a file is
-- its attributes and its contents.
use native_smart_card_os.Fs.{FsDescriptor, FsResult, err, fs_is_ef, ok}
use native_smart_card_os.Store.{Store, fs_store_read_desc}
use native_smart_card_os.Tree.Select.{FsSelection}
use native_smart_card_os.Common.{
  Bool, List, Option, [], false, if◌then◌else◌, length, none, slice, some, splice, true, ℕ, ◌+◌,
  ◌==◌, ◌∷◌, ◌≡◌, ◌≤◌,
}

-- The attributes are a descriptor whose place in FLASH is forgotten.
pub record File : Type 0 where
  pub attributes : FsDescriptor
  pub contents : List ℕ

-- The file system: the file of each slot.
abbrev pub Files : Type 0
Files = ℕ → Option File

abbrev pub put_file : Files → ℕ → Option File → Files
put_file files slot f = λ j. if j == slot then f else files j

-- The operations that write, as the command handlers call them.
pub data FileOp : Type 0 where
  write_op : ℕ → ℕ → List ℕ → FileOp
  create_op : FsSelection → FsDescriptor → FileOp
  delete_op : FsSelection → ℕ → FileOp

-- The attributes of a file that is created: what is asked for, in the current DF.
abbrev pub attributes_for : FsSelection → FsDescriptor → FsDescriptor
attributes_for sel req = record req { parent = sel.cur_df; data_offset = 0; flags = 0 }

-- What an operation that succeeds does to the files. A write changes the contents of the file that it names, in
-- place, and a write of no bytes does nothing; a creation stores a file as asked for in a slot that is
-- free, with as many bytes as asked for; a deletion frees the slot of a file of the current DF with that
-- identifier.
pub data Effect (files : Files) : FileOp → Files → Type 0 where
  nothing_written :
      (slot offset : ℕ) (src : List ℕ)
      → length src ≡ 0
      → Effect files (write_op slot offset src) files
  rewritten :
      (slot offset : ℕ) (src : List ℕ) (f : File)
      → files slot ≡ some f
      → offset + length src ≤ length f.contents
      → Effect files
          (write_op slot offset src)
          (put_file files slot (some (record f { contents = splice offset src f.contents })))
  created :
      (slot : ℕ) (sel : FsSelection) (req : FsDescriptor) (contents : List ℕ)
      → files slot ≡ none
      → length contents ≡ req.size
      → Effect files (create_op sel req) (
          put_file files slot
            (some (record { attributes = attributes_for sel req; contents = contents })))
  deleted :
      (slot : ℕ) (sel : FsSelection) (file_id : ℕ) (f : File)
      → files slot ≡ some f
      → f.attributes.parent ≡ sel.cur_df
      → f.attributes.file_id ≡ file_id
      → Effect files (delete_op sel file_id) (put_file files slot none)

-- An operation by its answer: one that fails leaves the files as they are.
abbrev pub Does : FileOp → Bool → Files → Files → Type 0
Does op true files files' = Effect files op files'
Does op false files files' = files' ≡ files

-- A sequence of operations, each with its answer.
pub data Runs : List FileOp → List Bool → Files → Files → Type 0 where
  finished : (files : Files) → Runs [] [] files files
  then_runs :
      (op : FileOp) (ops : List FileOp) (answer : Bool) (answers : List Bool) (fs gs hs : Files)
      → Does op answer fs gs
      → Runs ops answers gs hs
      → Runs (op ∷ ops) (answer ∷ answers) fs hs

-- The files of a store.
abbrev pub forget_place : FsDescriptor → FsDescriptor
forget_place d = record d { data_offset = 0 }

abbrev pub contents_of : FsDescriptor → List ℕ → List ℕ
contents_of d bytes = if fs_is_ef d then slice d.data_offset d.size bytes else []

abbrev pub file_of : FsResult FsDescriptor → List ℕ → Option File
file_of (err e) bytes = none
file_of (ok d) bytes = some (record { attributes = forget_place d; contents = contents_of d bytes })

unfoldable pub view : Store → Files
view s = λ j. file_of (fs_store_read_desc s j) s.nvm.flash_bytes
