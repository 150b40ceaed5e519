-- ===== src/Files/Tree/Make.antt =====
-- kernel/VFS/vfs.c and RAMFS.c: the making of files and directories, and where a path says that a
-- new one goes. `room` is whether the kernel heap gives the small objects, `block` its answer for
-- the first bytes of a file, and `Strdup` what `strdup` answers. Paths have fewer than 256 bytes, as
-- `resolve_parent_dir` copies the directory to an array of 256.
use aevros.Base.{
  ℕ, zero, suc, ◌+◌, Bool, true, false, not, ◌||◌, Option, none, some, List, [], ◌∷◌, ◌++◌, ◌==◌,
  if◌then◌else◌, is_some, take, length, update_at,
}
use aevros.Files.Ramfs
use aevros.Files.Tree.{
  Tree, Inode, no_inode, no_dentry, file_flag, dir_flag, slash, dentry_hash, is_dir, lookup,
}

unfoldable pub basename_from : List ℕ → List ℕ → List ℕ
basename_from last [] = last
basename_from last (c ∷ path) = basename_from (if c == slash then path else last) path

abbrev pub basename : List ℕ → List ℕ
basename path = basename_from path path

-- The place of the last slash, from the place `i` on.
unfoldable pub last_slash : ℕ → Option ℕ → List ℕ → Option ℕ
last_slash i last [] = last
last_slash i last (c ∷ path) = last_slash (i + 1) (if c == slash then some i else last) path

unfoldable pub cut_at : Option ℕ → List ℕ → List ℕ
cut_at none path = slash ∷ []
cut_at (some zero) path = slash ∷ []
cut_at (some (suc i)) path = take (suc i) path

abbrev pub parent_dirname : List ℕ → List ℕ
parent_dirname path = cut_at (last_slash 0 none path) path

unfoldable pub has_slash : List ℕ → Bool
has_slash [] = false
has_slash (c ∷ path) = if c == slash then true else has_slash path

-- The directory and the name.
unfoldable pub resolve_parent_dir : Tree → ℕ → List ℕ → Option ℕ × List ℕ
resolve_parent_dir t cwd path =
    if not (has_slash path)
    then (some cwd, path)
    else (lookup t cwd (parent_dirname path), basename path)

-- A new entry for a new inode, at the head of its chain in the parent.
unfoldable pub add_entry : Inode → ℕ → List ℕ → Tree → Tree
add_entry inode parent name t =
    let d = length t.dentries in
    let entry = record no_dentry { name = name; inode = length t.inodes; parent = parent } in
    record {
      dentries =
          update_at parent
            (λ p. record p {
              hash_bucket = update_at (dentry_hash name) (λ chain. d ∷ chain) p.hash_bucket;
            })
            (t.dentries ++ (entry ∷ []));
      inodes = t.inodes ++ (inode ∷ []);
    }

-- The answer of `strdup`, which its callers do not test: a copy or NULL. The name of an entry is the
-- text that its pointer leads to, for NULL the one at the address 0, which stays as it is.
pub record Strdup : Type 0 where
  pub copied : Bool
  pub text_at_null : List ℕ

-- What the pointer that `strdup(name)` answers leads to.
abbrev pub text_of : Strdup → List ℕ → List ℕ
text_of n name = if n.copied then name else n.text_at_null

abbrev pub file_inode : List ℕ → ℕ → ℕ → Inode
file_inode block tick pid = record {
  node = Ramfs.created block;
  flags = file_flag;
  ref_count = 0;
  has_ops = true;
  created_tick = tick;
  created_pid = pid;
}

abbrev pub dir_inode : Inode
dir_inode = record no_inode { flags = dir_flag }

-- The bucket is that of `child->name`.
unfoldable pub create_file :
    Bool → Strdup → Option (List ℕ) → ℕ → ℕ → ℕ → List ℕ → Tree → Option (ℕ × Tree)
create_file room n none tick pid parent name t = none
create_file room n (some block) tick pid parent name t =
    if room
    then some (length t.dentries, add_entry (file_inode block tick pid) parent (text_of n name) t)
    else none

-- `dentry->name = strdup(name)`, for the entry `d` that stands in the bucket of `name`.
unfoldable pub set_name : Strdup → ℕ → Tree → Tree
set_name n d t =
    let t' = record t {
      dentries = update_at d (λ e. record e { name = n.text_at_null }) t.dentries;
    } in
    if n.copied then t else t'

unfoldable pub make_dir : Bool → Strdup → ℕ → List ℕ → Tree → Option (ℕ × Tree)
make_dir room n parent name t =
    let d = length t.dentries in
    if room then some (d, set_name n d (add_entry dir_inode parent name t)) else none

-- `sys_mkdir` for the parent and the name that it finds; true is VFS_OK.
unfoldable pub mkdir_in : Bool → Strdup → Tree → ℕ → List ℕ → Option ℕ × List ℕ → Bool × Tree
mkdir_in room n t cwd path (none, name) = (false, t)
mkdir_in room n t cwd path (some parent, name) =
    if not (is_dir parent t) || is_some (lookup t cwd path)
    then (false, t)
    else elim (make_dir room n parent name t) [ none ↦ (false, t) | some (d, t') ↦ (true, t') ]

unfoldable pub mkdir : Bool → Strdup → ℕ → List ℕ → Tree → Bool × Tree
mkdir room n cwd path t = mkdir_in room n t cwd path (resolve_parent_dir t cwd path)

-- `sys_chdir`: the new directory.
pub chdir_to : Tree → ℕ → Option ℕ → Bool × ℕ
chdir_to t cwd none = (false, cwd)
chdir_to t cwd (some d) = if not (is_dir d t) then (false, cwd) else (true, d)

pub chdir : Tree → ℕ → List ℕ → Bool × ℕ
chdir t cwd path = chdir_to t cwd (lookup t cwd path)

pub mount : Bool → ℕ → ℕ → Tree → Bool × Tree
mount room point root t =
    let t' = record t {
      dentries = update_at point (λ p. record p { mount = some root }) t.dentries;
    } in
    if not (is_dir point t) then (false, t) else if not room then (false, t) else (true, t')
