-- ===== src/Files/Calls/Open.antt =====
-- What one open file writes, another one of the same file reads.
use native.Mathlib.Decide.{ℕ_discrete, dec_lt}
use aevros.Base.{
  ℕ, zero, suc, ◌+◌, ◌^◌, ◌≤◌, ◌<◌, ◌≡◌, ◌≢◌, refl, ◌∙◌, ap, subst, Bool, true, ◌||◌, append_assoc,
  Option, none, some, List, [], ◌∷◌, ◌++◌, arith, if◌then◌else◌, add32, take, drop, length,
  length-take, get_or, update_at, get_or-update_ne, get_or-update_self, if_both,
}
use aevros.Files.Ramfs
use aevros.Files.Ramfs.{Ram, Node, overwrite}
use aevros.Files.Ramfs.Bytes.{IsFile, contents, Gives, write-Puts, read-gets}
use aevros.Files.Tree.{Inode, no_inode, dentry_at, inode_of, has_flag}
use aevros.Files.Calls.{
  File, State, Outside, file_at, set_inode, advance, is_positive, read_slot, read_file, read,
  written, write_slot, write_file, write, read_only, write_only, read_write,
}

-- The slot `fd` has the file `f`, whose inode is in the table and has the bytes of `ram`, and which
-- stands in the file or at its end.
pub record IsOpen (fd : ℕ) (f : File) (ram : Ram) (s : State) : Type 0 where
  pub slot : file_at fd s ≡ some f
  pub ops : (get_or s.tree.inodes f.inode no_inode).has_ops ≡ true
  pub stored : (dentry_at f.dentry s.tree).inode < length s.tree.inodes
  pub file : IsFile ram (inode_of f.dentry s.tree).node
  pub inside : f.offset ≤ (inode_of f.dentry s.tree).node.size

abbrev pub may_write : File → Bool
may_write f = has_flag f.flags write_only || has_flag f.flags read_write

abbrev pub may_read : File → Bool
may_read f = has_flag f.flags read_only || has_flag f.flags read_write

drop-take-length : (o : ℕ) (xs ys : List ℕ) → o ≤ length xs → drop o (take o xs ++ ys) ≡ ys
drop-take-length zero xs ys h = refl
drop-take-length (suc o) [] ys h = absurd (omega arith)
drop-take-length (suc o) (x ∷ xs) ys h = drop-take-length o xs ys (omega arith)

take-length : (buf ys : List ℕ) → take (length buf) (buf ++ ys) ≡ buf
take-length [] ys = refl
take-length (b ∷ buf) ys = ap (◌∷◌ b) (take-length buf ys)

take-drop-overwrite :
    (o : ℕ) (buf xs : List ℕ)
    → o ≤ length xs
    → take (length buf) (drop o (overwrite o buf xs)) ≡ buf
take-drop-overwrite o buf xs h =
    let rest = drop (o + length buf) xs in
    ap (λ l. take (length buf) (drop o l)) (append_assoc (take o xs) buf rest)
    ∙ ap (take (length buf)) (drop-take-length o xs (buf ++ rest) h)
    ∙ take-length buf rest

-- The state after the write.
abbrev after : ℕ → File → ℕ → Node → State → State
after fd f n node s =
    let i = (dentry_at f.dentry s.tree).inode in
    let s' = record s { tree = set_inode i (λ x. record x { node = node }) s.tree } in
    if is_positive n then advance fd n f s' else s'

write_at :
    (w : Outside) (fd : ℕ) (buf : List ℕ) (f : File) (s : State)
    → file_at fd s ≡ some f
    → write w fd buf s ≡ write_file w fd buf f s
unfolding write write_slot
write_at w fd buf f s h = ap (λ o. write_slot w fd buf o s) h

write_shape :
    (w : Outside) (fd : ℕ) (buf : List ℕ) (f : File) (n : ℕ) (node : Node) (s : State)
    → (get_or s.tree.inodes f.inode no_inode).has_ops ≡ true
    → may_write f ≡ true
    → Ramfs.write w.kmalloc f.offset buf (inode_of f.dentry s.tree).node ≡ some (n, node)
    → write_file w fd buf f s ≡ some (some n, after fd f n node s)
unfolding write_file written
write_shape w fd buf f n node s ops may done = ground (arith, ops, may, done)

read_at :
    (fd size : ℕ) (g : File) (s : State)
    → file_at fd s ≡ some g
    → read fd size s ≡ read_file fd size g s
unfolding read read_slot
read_at fd size g s h = ap (λ o. read_slot fd size o s) h

read_shape :
    (fd size n : ℕ) (bytes : List ℕ) (g : File) (s : State)
    → (get_or s.tree.inodes g.inode no_inode).has_ops ≡ true
    → may_read g ≡ true
    → Ramfs.read g.offset size (inode_of g.dentry s.tree).node ≡ (n, bytes)
    → (read_file fd size g s).0 ≡ some (n, bytes)
unfolding read_file
read_shape fd size n bytes g s ops may got = ground (arith, ops, may, got)

update_at-out :
    (i : ℕ) (f : Inode → Inode) (xs : List Inode) → length xs ≤ i → update_at i f xs ≡ xs
update_at-out zero f [] h = refl
update_at-out (suc i) f [] h = refl
update_at-out zero f (x ∷ xs) h = absurd (omega arith)
update_at-out (suc i) f (x ∷ xs) h = ap (◌∷◌ x) (update_at-out i f xs (omega arith))

-- What the writing leaves to another slot: its file, the inode of its entry, and `ops`.
module _ (fd fd2 : ℕ) (f g : File) (n : ℕ) (node : Node) (s : State) where
  slot-after : fd ≢ fd2 → file_at fd2 (after fd f n node s) ≡ file_at fd2 s
  slot-after ne = ground (
    arith,
    get_or-update_ne fd fd2 (λ (_ : Option File). some (record f { offset = add32 f.offset n }))
        s.fd_table none ne,
  )

  node-after :
      (dentry_at f.dentry s.tree).inode < length s.tree.inodes
      → (inode_of f.dentry (after fd f n node s).tree).node ≡ node
  node-after stored =
      let i = (dentry_at f.dentry s.tree).inode in
      let at =
        get_or-update_self i (λ (x : Inode). record x { node = node }) s.tree.inodes no_inode
          stored in
      if_both (λ (x : State). (inode_of f.dentry x.tree).node ≡ node) (is_positive n)
        (advance fd n f (record s { tree = set_inode i (λ x. record x { node = node }) s.tree }))
        (record s { tree = set_inode i (λ x. record x { node = node }) s.tree })
        (ap (λ (x : Inode). x.node) at) (ap (λ (x : Inode). x.node) at)

  ops-after :
      (i : ℕ)
      → (get_or (after fd f n node s).tree.inodes i no_inode).has_ops
        ≡ (get_or s.tree.inodes i no_inode).has_ops
  ops-after i =
      let j = (dentry_at f.dentry s.tree).inode in
      let g : Inode → Inode = λ x. record x { node = node } in
      let same : (get_or (update_at j g s.tree.inodes) i no_inode).has_ops
          ≡ (get_or s.tree.inodes i no_inode).has_ops =
        elim (ℕ_discrete j i) [
          | no ne ↦ ap (λ (x : Inode). x.has_ops) (get_or-update_ne j i g s.tree.inodes no_inode ne)
          | yes eq ↦ elim (dec_lt j (length s.tree.inodes)) [
            | yes old ↦
                subst
                  (λ x.
                    (get_or (update_at j g s.tree.inodes) x no_inode).has_ops
                    ≡ (get_or s.tree.inodes x no_inode).has_ops)
                  eq
                  (ap (λ (x : Inode). x.has_ops)
                    (get_or-update_self j g s.tree.inodes no_inode old))
            | no out ↦
                ap (λ xs. (get_or xs i no_inode).has_ops)
                  (update_at-out j g s.tree.inodes (omega (arith, out)))
          ]
        ] in
      if_both
        (λ (x : State).
          (get_or x.tree.inodes i no_inode).has_ops ≡ (get_or s.tree.inodes i no_inode).has_ops)
        (is_positive n) (advance fd n f (record s { tree = set_inode j g s.tree }))
        (record s { tree = set_inode j g s.tree }) same same

-- Two slots with open files of one inode, which stand at the same place, the first open for writing and
-- the second for reading: where the heap gives what it is asked for and the file stays within
-- 2 ^ 31 bytes, the first writes the whole buffer, and then the second reads that buffer.
pub write-read :
    (w : Outside) (fd fd2 : ℕ) (buf : List ℕ) (f g : File) (ram : Ram) (s : State)
    → IsOpen fd f ram s
    → IsOpen fd2 g ram s
    → fd ≢ fd2
    → g.dentry ≡ f.dentry
    → g.offset ≡ f.offset
    → may_write f ≡ true
    → may_read g ≡ true
    → f.offset + length buf ≤ 2 ^ 31
    → ((c : ℕ) → Gives w.kmalloc c)
    → (s' : State) × (write w fd buf s ≡ some (some (length buf), s'))
      × ((read fd2 (length buf) s').0 ≡ some (length buf, buf))
write-read w fd fd2 buf f g ram s h k ne entry place may_w may_r fits gives =
    let (ram', node, done, file, bytes) =
      write-Puts w.kmalloc f.offset buf ram (inode_of f.dentry s.tree).node h.file h.inside fits
        gives in
    let s' = after fd f (length buf) node s in
    let c = contents ram (inode_of f.dentry s.tree).node in
    let long : f.offset ≤ length c = omega (
      arith,
      length-take (inode_of f.dentry s.tree).node.size ram.bytes,
      h.inside,
      h.file.within,
      h.file.exact,
    ) in
    let got = read-gets f.offset (length buf) ram' node file (omega (arith, fits)) in
    let back : take (length buf) (drop f.offset (contents ram' node)) ≡ buf =
      ap (λ xs. take (length buf) (drop f.offset xs)) bytes
      ∙ take-drop-overwrite f.offset buf c long in
    let there : Ramfs.read f.offset (length buf) node ≡ (length buf, buf) =
      got ∙ ap (λ xs. (length xs, xs)) back in
    let here : Ramfs.read g.offset (length buf) (inode_of g.dentry s'.tree).node
        ≡ (length buf, buf) =
      rw (entry, place, node-after fd fd2 f g (length buf) node s h.stored) there in
    (
      s',
      write_at w fd buf f s h.slot ∙ write_shape w fd buf f (length buf) node s h.ops may_w done,
      ap (λ r. r.0)
            (read_at fd2 (length buf) g s' (slot-after fd fd2 f g (length buf) node s ne ∙ k.slot))
          ∙ read_shape fd2 (length buf) (length buf) buf g s'
              (ops-after fd fd2 f g (length buf) node s g.inode ∙ k.ops) may_r here,
    )
