-- ===== src/Tree/Simulation.antt =====
-- fs.c: sequences of operations, against the files that the file system promises.
use native_smart_card_os.Cmd.Changes.{
  fs_create_file-IsTree, fs_delete_file-IsTree, fs_ef_write-IsTree,
}
use native_smart_card_os.Store.{Store}
use native_smart_card_os.Tree.Changes.{fs_create_file-Does, fs_delete_file-Does}
use native_smart_card_os.Tree.Written.{fs_ef_write-Does, is_ok}
use native_smart_card_os.Tree.Content.{fs_ef_write}
use native_smart_card_os.Tree.Create.{fs_create_file, fs_delete_file}
use native_smart_card_os.Tree.Creation.{IsRequest}
use native_smart_card_os.Tree.Invariant.{IsTree}
use native_smart_card_os.Tree.Spec.{
  Does, FileOp, Runs, create_op, delete_op, finished, then_runs, view, write_op,
}
use native_smart_card_os.Common.{All, Bool, List, [], ◌∷◌}

-- The request of a creation has numbers that fit their fields.
abbrev pub IsOp : FileOp → Type 0
IsOp (create_op sel req) = IsRequest req
IsOp _ = Unit

-- An operation: whether it succeeds, and the store after it.
unfoldable pub apply_op : FileOp → Store → Bool × Store
apply_op (write_op slot offset src) s = let (r, s') = fs_ef_write slot offset src s in (is_ok r, s')
apply_op (create_op sel req) s = let (r, s') = fs_create_file sel req s in (is_ok r, s')
apply_op (delete_op sel file_id) s = let (r, s') = fs_delete_file sel file_id s in (is_ok r, s')

-- The answers of several operations after each other, and the store in the end.
unfoldable pub apply_ops : List FileOp → Store → List Bool × Store
unfolding apply_op
apply_ops [] s = ([], s)
apply_ops (op ∷ ops) s =
    let (answer, s1) = apply_op op s in
    let (answers, s2) = apply_ops ops s1 in (answer ∷ answers, s2)

apply_op-Does :
    (op : FileOp) (s : Store)
    → IsTree s
    → IsOp op
    → let (answer, s') = apply_op op s in IsTree s' × Does op answer (view s) (view s')
unfolding apply_op
apply_op-Does (write_op slot offset src) s h good =
    (fs_ef_write-IsTree s slot offset src h, fs_ef_write-Does s slot offset src h)
apply_op-Does (create_op sel req) s h good =
    (fs_create_file-IsTree s sel req good h, fs_create_file-Does s sel req h good)
apply_op-Does (delete_op sel file_id) s h good =
    (fs_delete_file-IsTree s sel file_id h, fs_delete_file-Does s sel file_id h)

-- From a well-formed tree every sequence of writes, creations and deletions, with any arguments that fit their
-- fields, refines the specification operation by operation: the files that the store shows change as
-- the specification says of an operation that succeeds, and not at all where it answers an
-- error. A write changes the contents of the file that it names, in place; a creation stores a file with the
-- attributes and the number of bytes that were asked for in a free slot; a deletion frees the slot of a file of the
-- current DF with that identifier; no other file is touched. The tree is well formed in the end.
pub apply_ops-Runs :
    (ops : List FileOp) (s : Store)
    → IsTree s
    → All IsOp ops
    → let (answers, s') = apply_ops ops s in IsTree s' × Runs ops answers (view s) (view s')
unfolding apply_ops
apply_ops-Runs [] s h good = (h, finished (view s))
apply_ops-Runs (op ∷ ops) s h (good, more) =
    let (answer, s1) = apply_op op s in
    let (answers, s2) = apply_ops ops s1 in
    let (tree, does) = apply_op-Does op s h good in
    let (end, runs) = apply_ops-Runs ops s1 tree more in
    (end, then_runs op ops answer answers (view s) (view s1) (view s2) does runs)
