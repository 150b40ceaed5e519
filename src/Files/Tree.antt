-- ===== src/Files/Tree.antt =====
-- kernel/VFS/vfs.c and RAMFS.c: the tree of the directory entries, the lookup of a path in it and
-- the making of files and directories. A pointer to a `dentry_t` or `inode_t` is its place in the
-- list of them, and the entry 0 is `vfs_root`. A text is the list of its bytes without the final
-- zero. A segment of a path has fewer than 256 bytes, since the code copies it to an array of 256.
pub mod Make
pub mod Entries
pub mod Names
pub mod Paths
pub mod Made
mod Examples
use aevros.Base.{
  ℕ, zero, suc, ◌+◌, ◌-◌, ◌*◌, ◌%◌, ◌^◌, Bool, true, false, not, ◌&&◌, Option, none, some, List, [],
  ◌∷◌, ◌++◌, ltb, ◌==◌, if◌then◌else◌, bytes_eq, take, drop, length, get_or, update_at, replicate,
  bit_and,
}
use aevros.Files.Ramfs

abbrev pub file_flag : ℕ
file_flag = 1

abbrev pub dir_flag : ℕ
dir_flag = 2

abbrev pub dentry_hash_size : ℕ
dentry_hash_size = 32

abbrev pub slash : ℕ
slash = b'/'

abbrev pub dot : List ℕ
dot = b'.' ∷ []

abbrev pub dot_dot : List ℕ
dot_dot = b'.' ∷ b'.' ∷ []

-- `inode_t`; `has_ops` is whether `ops` is set, which then are those of the files in memory.
pub record Inode : Type 0 where
  pub node : Ramfs.Node
  pub flags : ℕ
  pub ref_count : ℕ
  pub has_ops : Bool
  pub created_tick : ℕ
  pub created_pid : ℕ

-- `struct dentry`; a bucket is the chain of the entries in it, and `mount` the root of what is
-- mounted on the entry.
pub record Dentry : Type 0 where
  pub name : List ℕ
  pub inode : ℕ
  pub parent : ℕ
  pub mount : Option ℕ
  pub hash_bucket : List (List ℕ)

pub record Tree : Type 0 where
  pub dentries : List Dentry
  pub inodes : List Inode

abbrev pub no_inode : Inode
no_inode = record {
  node = record { size = 0; ram = none };
  flags = 0;
  ref_count = 0;
  has_ops = false;
  created_tick = 0;
  created_pid = 0;
}

abbrev pub no_buckets : List (List ℕ)
no_buckets = replicate dentry_hash_size []

abbrev pub no_dentry : Dentry
no_dentry = record { name = []; inode = 0; parent = 0; mount = none; hash_bucket = no_buckets }

-- After `vfs_init` and `ramfs_init`.
abbrev pub initial : Tree
initial = record {
  dentries = record no_dentry { name = slash ∷ [] } ∷ [];
  inodes = record no_inode { flags = dir_flag; has_ops = true } ∷ [];
}

abbrev pub dentry_at : ℕ → Tree → Dentry
dentry_at d t = get_or t.dentries d no_dentry

abbrev pub inode_of : ℕ → Tree → Inode
inode_of d t = get_or t.inodes (dentry_at d t).inode no_inode

abbrev pub has_flag : ℕ → ℕ → Bool
has_flag flags flag = not (bit_and flags flag == 0)

abbrev pub is_dir : ℕ → Tree → Bool
is_dir d t = has_flag (inode_of d t).flags dir_flag

-- `char` is signed: from 128 on it is negative.
abbrev pub char_word : ℕ → ℕ
char_word c = if ltb c 128 then c else c + 2 ^ 32 - 256

unfoldable pub hash_from : ℕ → List ℕ → ℕ
hash_from hash [] = hash
hash_from hash (c ∷ cs) = hash_from ((hash * 31 + char_word c) % 2 ^ 32) cs

abbrev pub dentry_hash : List ℕ → ℕ
dentry_hash name = hash_from 0 name % dentry_hash_size

-- The `len` bytes from `start` on are the list `seg`.
unfoldable pub match_seg : List ℕ → List ℕ → Bool
match_seg [] [] = true
match_seg [] (c ∷ seg) = false
match_seg (n ∷ name) [] = false
match_seg (n ∷ name) (c ∷ seg) = if n == c then match_seg name seg else false

-- The first entry of a bucket that has the name.
unfoldable pub find_child : List ℕ → Tree → List ℕ → Option ℕ
find_child seg t [] = none
find_child seg t (d ∷ chain) =
    if match_seg (dentry_at d t).name seg then some d else find_child seg t chain

abbrev pub bucket_of : ℕ → ℕ → Tree → List ℕ
bucket_of d hash t = get_or (dentry_at d t).hash_bucket hash []

-- The body of the loop of `vfs_resolve_path`, for one segment.
unfoldable pub enter : Tree → ℕ → List ℕ → Option ℕ
enter t dir seg =
    if match_seg dot seg
    then some dir
    else if match_seg dot_dot seg
    then some (dentry_at dir t).parent
    else if not (is_dir dir t)
    then none
    else find_child seg t (bucket_of dir (dentry_hash seg) t)

-- The segments of a path, where `seg` is the one that has begun.
unfoldable pub segments_from : List ℕ → List ℕ → List (List ℕ)
segments_from [] [] = []
segments_from (s ∷ seg) [] = (s ∷ seg) ∷ []
segments_from [] (c ∷ path) = segments_from (if c == slash then [] else c ∷ []) path
segments_from (s ∷ seg) (c ∷ path) =
    let next = segments_from [] path in
    let more = segments_from ((s ∷ seg) ++ (c ∷ [])) path in
    if c == slash then (s ∷ seg) ∷ next else more

abbrev pub segments : List ℕ → List (List ℕ)
segments path = segments_from [] path

unfoldable pub walk : Tree → ℕ → List (List ℕ) → Option ℕ
walk t dir [] = some dir
walk t dir (seg ∷ segs) = elim (enter t dir seg) [ none ↦ none | some d ↦ walk t d segs ]

abbrev pub starts_with_slash : List ℕ → Bool
starts_with_slash [] = false
starts_with_slash (c ∷ path) = c == slash

-- `vfs_resolve_path(vfs_root, path)`
unfoldable pub resolve_path : Tree → ℕ → List ℕ → Option ℕ
resolve_path t cwd path = walk t (if starts_with_slash path then 0 else cwd) (segments path)

abbrev pub follow_mount : Tree → ℕ → ℕ
follow_mount t d = elim (dentry_at d t).mount [ none ↦ d | some root ↦ root ]

unfoldable pub lookup : Tree → ℕ → List ℕ → Option ℕ
lookup t cwd path = elim (resolve_path t cwd path) [
  | none ↦ none
  | some d ↦ some (follow_mount t d)
]
