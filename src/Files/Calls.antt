-- ===== src/Files/Calls.antt =====
-- kernel/VFS/vfs.c: the calls on open files. `fd_table` and `cwd` are those of the running task; a
-- slot of the table holds its `file_t`, which no other slot has before a fork. A pointer `ops->read` is that of
-- the files in memory: those of the devices are not modelled. A call answers VFS_ERR by none. The event that
-- `sys_open` logs is not modelled.
pub mod Open
mod Examples
use aevros.Base.{
  ℕ, zero, suc, ◌+◌, ◌-◌, ◌^◌, Bool, true, false, not, ◌&&◌, ◌||◌, Option, none, some, List, [],
  ◌∷◌, ◌++◌, ltb, leb, ◌==◌, if◌then◌else◌, is_some, add32, find_index, update_at, get_or, length,
  replicate,
}
use aevros.Files.Ramfs
use aevros.Files.Tree.{
  Tree, Inode, Dentry, no_inode, dentry_at, inode_of, has_flag, is_dir, dir_flag, follow_mount,
  lookup, initial,
}
use aevros.Files.Tree.Make.{resolve_parent_dir, create_file, Strdup}

abbrev pub task_max_fds : ℕ
task_max_fds = 32

abbrev pub read_only : ℕ
read_only = 1

abbrev pub write_only : ℕ
write_only = 2

abbrev pub read_write : ℕ
read_write = 3

abbrev pub creat : ℕ
creat = 4

-- `file_t`, without the fields that nothing reads.
pub record File : Type 0 where
  pub inode : ℕ
  pub dentry : ℕ
  pub flags : ℕ
  pub offset : ℕ

pub record State : Type 0 where
  pub tree : Tree
  pub fd_table : List (Option File)
  pub cwd : ℕ

abbrev pub booted : State
booted = record { tree = initial; fd_table = replicate task_max_fds none; cwd = 0 }

-- What the calls read from outside: the answers of the heap, the tick count and the process.
pub record Outside : Type 0 where
  pub kmalloc : ℕ → Option (List ℕ)
  pub room : Bool
  pub strdup : Strdup
  pub file_room : Bool
  pub tick : ℕ
  pub pid : ℕ

abbrev pub is_unused : Option File → Bool
is_unused none = true
is_unused (some f) = false

abbrev pub set_inode : ℕ → (Inode → Inode) → Tree → Tree
set_inode i f t = record t { inodes = update_at i f t.inodes }

-- `sys_open` from the `file_t` on.
pub open_entry : Outside → ℕ → ℕ → State → Option ℕ × State
open_entry w flags d s =
    let i = (dentry_at d s.tree).inode in
    let file : File = record {
      inode = i;
      dentry = follow_mount s.tree d;
      flags = flags;
      offset = 0;
    } in
    if not w.file_room then (none, s) else elim (find_index is_unused s.fd_table) [
      | none ↦ (none, s)
      | some fd ↦ (
        some fd,
        record s {
          fd_table = update_at fd (λ _. some file) s.fd_table;
          tree = set_inode i (λ n. record n { ref_count = add32 n.ref_count 1 }) s.tree;
        },
      )
    ]

-- `sys_open` for a path that leads nowhere, with the directory and the name.
pub create : Outside → ℕ → Option ℕ × List ℕ → State → Option ℕ × State
create w flags (none, name) s = (none, s)
create w flags (some parent, name) s =
    if not (is_dir parent s.tree)
    then (none, s)
    else elim (create_file w.room w.strdup (w.kmalloc 4096) w.tick w.pid parent name s.tree) [
      | none ↦ (none, s)
      | some (d, t) ↦ open_entry w flags d (record s { tree = t })
    ]

pub open_path : Outside → List ℕ → ℕ → State → Option ℕ × State
open_path w path flags s = elim (lookup s.tree s.cwd path) [
  | some d ↦ open_entry w flags d s
  | none ↦
      if has_flag flags creat
      then create w flags (resolve_parent_dir s.tree s.cwd path) s
      else (none, s)
]

abbrev pub file_at : ℕ → State → Option File
file_at fd s = if ltb fd task_max_fds then get_or s.fd_table fd none else none

abbrev pub advance : ℕ → ℕ → File → State → State
advance fd n f s = record s {
  fd_table = update_at fd (λ _. some (record f { offset = add32 f.offset n })) s.fd_table;
}

-- `bytes > 0` for the `int` that the answer is read as.
abbrev pub is_positive : ℕ → Bool
is_positive n = ltb 0 n && ltb n (2 ^ 31)

-- `sys_read` for a file of the table: the answer, as an unsigned word, and the bytes.
pub read_file : ℕ → ℕ → File → State → Option (ℕ × List ℕ) × State
read_file fd size f s =
    let (n, bytes) = Ramfs.read f.offset size (inode_of f.dentry s.tree).node in
    if not (get_or s.tree.inodes f.inode no_inode).has_ops
    then (none, s)
    else if not (has_flag f.flags read_only) && not (has_flag f.flags read_write)
    then (none, s)
    else (some (n, bytes), if is_positive n then advance fd n f s else s)

pub read_slot : ℕ → ℕ → Option File → State → Option (ℕ × List ℕ) × State
read_slot fd size none s = (none, s)
read_slot fd size (some f) s = read_file fd size f s

pub read : ℕ → ℕ → State → Option (ℕ × List ℕ) × State
read fd size s = read_slot fd size (file_at fd s) s

-- `sys_write` after the write, where none means that it does not return.
pub written : ℕ → File → Option (ℕ × Ramfs.Node) → State → Option (Option ℕ × State)
written fd f none s = none
written fd f (some (n, node)) s =
    let i = (dentry_at f.dentry s.tree).inode in
    let s' = record s { tree = set_inode i (λ x. record x { node = node }) s.tree } in
    some (some n, if is_positive n then advance fd n f s' else s')

pub write_file : Outside → ℕ → List ℕ → File → State → Option (Option ℕ × State)
write_file w fd buffer f s =
    let result = Ramfs.write w.kmalloc f.offset buffer (inode_of f.dentry s.tree).node in
    if not (get_or s.tree.inodes f.inode no_inode).has_ops
    then some (none, s)
    else if not (has_flag f.flags write_only) && not (has_flag f.flags read_write)
    then some (none, s)
    else written fd f result s

pub write_slot : Outside → ℕ → List ℕ → Option File → State → Option (Option ℕ × State)
write_slot w fd buffer none s = some (none, s)
write_slot w fd buffer (some f) s = write_file w fd buffer f s

pub write : Outside → ℕ → List ℕ → State → Option (Option ℕ × State)
write w fd buffer s = write_slot w fd buffer (file_at fd s) s

pub close_file : ℕ → File → State → State
close_file fd f s = record s {
  tree = set_inode f.inode (λ n. record n { ref_count = n.ref_count - 1 }) s.tree;
  fd_table = update_at fd (λ _. none) s.fd_table;
}

pub close : ℕ → State → Bool × State
close fd s = elim (file_at fd s) [ none ↦ (false, s) | some f ↦ (true, close_file fd f s) ]

-- The children of an entry, bucket by bucket.
pub children_of : List (List ℕ) → List ℕ
children_of [] = []
children_of (chain ∷ rest) = chain ++ children_of rest

-- The loops of `sys_readdir`: the child with the number `offset`.
pub nth : ℕ → List ℕ → Option ℕ
nth n [] = none
nth zero (d ∷ ds) = some d
nth (suc n) (d ∷ ds) = nth n ds

-- The answer is none for an error, and no entry where the directory is at its end.
pub readdir_file : ℕ → File → State → Option (Option (List ℕ × ℕ)) × State
readdir_file fd f s =
    if not (has_flag (get_or s.tree.inodes f.inode no_inode).flags dir_flag)
    then (none, s)
    else elim (nth f.offset (children_of (dentry_at f.dentry s.tree).hash_bucket)) [
      | none ↦ (some none, s)
      | some d ↦
          (some (some ((dentry_at d s.tree).name, (inode_of d s.tree).flags)), advance fd 1 f s)
    ]

pub readdir : ℕ → State → Option (Option (List ℕ × ℕ)) × State
readdir fd s = elim (file_at fd s) [ none ↦ (none, s) | some f ↦ readdir_file fd f s ]
