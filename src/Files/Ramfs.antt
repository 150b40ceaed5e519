-- ===== src/Files/Ramfs.antt =====
-- kernel/VFS/RAMFS.c: reading and writing the bytes of a file in memory. `Node` is what these
-- functions use of an `inode_t`: the size and `fs_private`. `kmalloc` is the answer of the kernel
-- heap to a request of so many bytes, the bytes that it hands out.
pub mod Grow
pub mod Bytes
mod Examples
use aevros.Base.{
  ℕ, zero, suc, ◌+◌, ◌-◌, ◌*◌, ◌%◌, ◌^◌, Bool, true, false, Option, none, some, List, [], ◌∷◌, ◌++◌,
  ltb, leb, if◌then◌else◌, add32, take, drop, length,
}

-- `ramfs_inode_t`
pub record Ram : Type 0 where
  pub bytes : List ℕ
  pub capacity : ℕ

pub record Node : Type 0 where
  pub size : ℕ
  pub ram : Option Ram

-- `(uint32_t)-1`
abbrev pub error : ℕ
error = 4294967295

pub read_ram : ℕ → ℕ → ℕ → Ram → ℕ × List ℕ
read_ram offset size file_size ram =
    let size' = if ltb file_size (add32 offset size) then file_size - offset else size in
    if ltb file_size offset then (0, []) else (size', take size' (drop offset ram.bytes))

pub read : ℕ → ℕ → Node → ℕ × List ℕ
read offset size n = elim n.ram [ none ↦ (error, []) | some ram ↦ read_ram offset size n.size ram ]

-- `while (new_cap < needed) new_cap *= 2;`, where none means that the rounds ran out.
pub grow : ℕ → ℕ → ℕ → Option ℕ
grow zero new_cap needed = none
grow (suc f) new_cap needed =
    let more = grow f (new_cap * 2 % 2 ^ 32) needed in
    if ltb new_cap needed then more else some new_cap

-- A capacity that has doubled 32 times is 0 and stays 0.
abbrev pub rounds : ℕ
rounds = 33

-- How `ramfs_expand` ends, if it does.
pub data Grown : Type 0 where
  grown : Ram → Grown
  refused endless : Grown

pub moved : Option (List ℕ) → ℕ → Ram → Grown
moved none c ram = refused
moved (some fresh) c ram =
    grown (record { bytes = take ram.capacity ram.bytes ++ drop ram.capacity fresh; capacity = c })

pub expand_to : (ℕ → Option (List ℕ)) → Option ℕ → Ram → Grown
expand_to kmalloc none ram = endless
expand_to kmalloc (some c) ram = moved (kmalloc c) c ram

pub expand : (ℕ → Option (List ℕ)) → ℕ → Ram → Grown
expand kmalloc needed ram =
    if leb needed ram.capacity
    then grown ram
    else expand_to kmalloc (grow rounds ram.capacity needed) ram

-- `memcpy(data + offset, buffer, size)`; a write past the end of the block is outside the model.
abbrev pub overwrite : ℕ → List ℕ → List ℕ → List ℕ
overwrite offset buffer xs = take offset xs ++ buffer ++ drop (offset + length buffer) xs

abbrev pub stored : ℕ → List ℕ → Ram → Node → Node
stored offset buffer ram n =
    let stop = add32 offset (length buffer) in
    record {
      ram = some (record ram { bytes = overwrite offset buffer ram.bytes });
      size = if ltb n.size stop then stop else n.size;
    }

-- `ramfs_write` after the call of `ramfs_expand`, where none means that it does not return.
pub put : ℕ → List ℕ → Node → Grown → Option (ℕ × Node)
put offset buffer n (grown ram) = some (length buffer, stored offset buffer ram n)
put offset buffer n refused = some (error, n)
put offset buffer n endless = none

pub write_ram : (ℕ → Option (List ℕ)) → ℕ → List ℕ → Ram → Node → Option (ℕ × Node)
write_ram kmalloc offset buffer ram n =
    let stop = add32 offset (length buffer) in
    if ltb ram.capacity stop
    then put offset buffer n (expand kmalloc stop ram)
    else put offset buffer n (grown ram)

pub write : (ℕ → Option (List ℕ)) → ℕ → List ℕ → Node → Option (ℕ × Node)
write kmalloc offset buffer n = elim n.ram [
  | none ↦ some (error, n)
  | some ram ↦ write_ram kmalloc offset buffer ram n
]

-- The node of `ramfs_create_files`, where the heap gives its block of 4096 bytes.
abbrev pub created : List ℕ → Node
created block = record { size = 0; ram = some (record { bytes = block; capacity = 4096 }) }
