-- ===== src/Files/Tree/Made.antt =====
-- A directory that `sys_mkdir` makes is found under its path, and what was found before still is.
use aevros.Base.{ℕ, ◌≤◌, ◌≡◌, ◌⊎◌, true, Option, none, some, List, length}
use aevros.Files.Tree.{Tree, is_dir, resolve_path, lookup}
use aevros.Files.Tree.Entries.{IsTree}
use aevros.Files.Tree.Names.{under, dirname}

-- A path: a name alone, or with the directory before it.
abbrev pub joined : Option (List ℕ) → List ℕ → List ℕ
joined none name = name
joined (some p) name = under p name

-- The directory that the name is in.
dir_of : Tree → ℕ → Option (List ℕ) → Option ℕ
dir_of t cwd none = some cwd
dir_of t cwd (some p) = resolve_path t cwd (dirname p)

-- The new directory is there under its path, the tree is well formed, and nothing is lost, for paths
-- of fewer than 256 bytes.
pub record Made (t t' : Tree) (cwd : ℕ) (path : List ℕ) : Type 0 where
  pub found : lookup t' cwd path ≡ some (length t.dentries)
  pub directory : is_dir (length t.dentries) t' ≡ true
  pub tree : IsTree t'
  pub others :
      (other : List ℕ)
      → (256 ≤ length other)
        ⊎ (lookup t cwd other ≡ none)
        ⊎ (lookup t' cwd other ≡ lookup t cwd other)
