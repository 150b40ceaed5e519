-- ===== src/Files/Calls/Examples.antt =====
-- A file that is open twice.
use aevros.Base.{ℕ, ◌≡◌, refl, true, some, [], ◌∷◌, arith, replicate, length-replicate}
use aevros.Files.Ramfs.{Ram}
use aevros.Files.Ramfs.Bytes.{IsFile, Gives}
use aevros.Files.Tree.{Inode, no_inode, no_dentry}
use aevros.Files.Calls.{File, State, Outside, write, read}
use aevros.Files.Calls.Open.{IsOpen, write-read}

abbrev block : Ram
block = record { bytes = 7 ∷ 8 ∷ 0 ∷ 0 ∷ []; capacity = 4 }

abbrev file : Inode
file = record no_inode {
  node = record { size = 2; ram = some block };
  flags = 1;
  ref_count = 2;
  has_ops = true;
}

abbrev handle : File
handle = record { inode = 1; dentry = 1; flags = 3; offset = 2 }

abbrev twice : State
twice = record {
  tree = record {
    dentries = no_dentry ∷ record no_dentry { name = b'a' ∷ []; inode = 1 } ∷ [];
    inodes = no_inode ∷ file ∷ [];
  };
  fd_table = some handle ∷ some handle ∷ [];
  cwd = 0;
}

abbrev world : Outside
world = record {
  kmalloc = λ c. some (replicate c 0);
  room = true;
  strdup = record { copied = true; text_at_null = [] };
  file_room = true;
  tick = 5;
  pid = 1;
}

world-Gives : (c : ℕ) → Gives world.kmalloc c
world-Gives c = (replicate c 0, refl, length-replicate c 0)

file-IsFile : IsFile block file.node
file-IsFile = record {
  held = refl;
  exact = refl;
  within = omega arith;
  shift = 2;
  low = omega arith;
  power = refl;
}

first-IsOpen : IsOpen 0 handle block twice
first-IsOpen = record {
  slot = refl;
  ops = refl;
  stored = omega arith;
  file = file-IsFile;
  inside = omega arith;
}

second-IsOpen : IsOpen 1 handle block twice
second-IsOpen = record {
  slot = refl;
  ops = refl;
  stored = omega arith;
  file = file-IsFile;
  inside = omega arith;
}

write-read_example :
    (s' : State) × (write world 0 (1 ∷ 2 ∷ 3 ∷ []) twice ≡ some (some 3, s'))
    × ((read 1 3 s').0 ≡ some (3, 1 ∷ 2 ∷ 3 ∷ []))
write-read_example =
    write-read world 0 1 (1 ∷ 2 ∷ 3 ∷ []) handle handle block twice first-IsOpen second-IsOpen
      (λ e. absurd (omega (arith, e))) refl refl refl refl (omega arith) world-Gives
