-- ===== src/Files/Tree/Entries.antt =====
-- A new entry is found under its name in its parent, and every other one is found as before.
use aevros.Base.{
  ℕ, zero, suc, ◌<◌, ◌≡◌, ◌≢◌, refl, ◌∙◌, ap, subst, true, false, ◌&&◌, none, some, List, [], ◌∷◌,
  ◌++◌, arith, ◌==◌, if◌then◌else◌, length, length-append, length-update_at, get_or, update_at,
  get_or-update_self, get_or-update_ne, All, All-mono, All-update_at, All-replicate, ==_iff,
}
use native.Mathlib.Decide.{ℕ_discrete}
use aevros.Files.Tree.{
  Tree, Inode, Dentry, no_dentry, no_inode, dot, dot_dot, dentry_at, has_flag, is_dir, dentry_hash,
  match_seg, find_child, bucket_of, enter,
}
use aevros.Files.Tree.Make.{add_entry}

-- The indices of an entry are in range, and nothing is mounted on it.
pub record IsEntry (nd ni : ℕ) (e : Dentry) : Type 0 where
  pub inode : e.inode < ni
  pub parent : e.parent < nd
  pub mount : e.mount ≡ none
  pub buckets : length e.hash_bucket ≡ 32
  pub chains : All (All (λ d. d < nd)) e.hash_bucket

pub record IsTree (t : Tree) : Type 0 where
  pub entries : All (IsEntry (length t.dentries) (length t.inodes)) t.dentries
  pub rooted : 0 < length t.dentries

module _ {ℓ} {A : Type ℓ} where
  get_or-append :
      (i : ℕ) (xs ys : List A) (d : A) → i < length xs → get_or (xs ++ ys) i d ≡ get_or xs i d
  get_or-append i [] ys d h = absurd (omega arith)
  get_or-append zero (x ∷ xs) ys d h = refl
  get_or-append (suc i) (x ∷ xs) ys d h = get_or-append i xs ys d (omega arith)

  get_or-append_last : (xs : List A) (y d : A) → get_or (xs ++ (y ∷ [])) (length xs) d ≡ y
  get_or-append_last [] y d = refl
  get_or-append_last (x ∷ xs) y d = get_or-append_last xs y d

All-get_or :
    {A : Type 0} (P : A → Type 0) (i : ℕ) (xs : List A) (d : A)
    → All P xs
    → i < length xs
    → P (get_or xs i d)
All-get_or P i [] d a h = absurd (omega arith)
All-get_or P zero (x ∷ xs) d a h = a.0
All-get_or P (suc i) (x ∷ xs) d a h = All-get_or P i xs d a.1 (omega arith)

match_seg_refl : (s : List ℕ) → match_seg s s ≡ true
unfolding match_seg
match_seg_refl [] = refl
match_seg_refl (c ∷ s) = ground (arith, match_seg_refl s)

pub match_seg→eq : (a b : List ℕ) → match_seg a b ≡ true → a ≡ b
unfolding match_seg
match_seg→eq [] [] h = refl
match_seg→eq [] (y ∷ b) h = absurd (ground arith)
match_seg→eq (x ∷ a) [] h = absurd (ground arith)
match_seg→eq (x ∷ a) (y ∷ b) h = ground (arith, match_seg→eq a b)

module _ (t : Tree) (tree : IsTree t) where
  pub entry :
      (d : ℕ)
      → d < length t.dentries
      → IsEntry (length t.dentries) (length t.inodes) (dentry_at d t)
  entry d old =
      All-get_or (IsEntry (length t.dentries) (length t.inodes)) d t.dentries no_dentry tree.entries
        old

  pub chain :
      (d h : ℕ)
      → d < length t.dentries
      → h < 32
      → All (λ c. c < length t.dentries) (bucket_of d h t)
  chain d h old low =
      All-get_or (All (λ c. c < length t.dentries)) h (dentry_at d t).hash_bucket []
        (entry d old).chains (omega (arith, low, (entry d old).buckets))

module _ (inode : Inode) (parent : ℕ) (name : List ℕ) (t : Tree) (here : parent < length t.dentries)
    (tree : IsTree t) where
  abbrev after : Tree
  after = add_entry inode parent name t

  abbrev linked : Dentry → Dentry
  linked p = record p {
    hash_bucket = update_at (dentry_hash name) (λ chain. length t.dentries ∷ chain) p.hash_bucket;
  }

  abbrev fresh : Dentry
  fresh = record no_dentry { name = name; inode = length t.inodes; parent = parent }

  dentry-parent : dentry_at parent after ≡ linked (dentry_at parent t)
  unfolding add_entry
  dentry-parent =
      get_or-update_self parent linked (t.dentries ++ (fresh ∷ [])) no_dentry
        (omega (arith, here, length-append t.dentries (fresh ∷ [])))
      ∙ ap linked (get_or-append parent t.dentries (fresh ∷ []) no_dentry here)

  dentry-other : (d : ℕ) → d < length t.dentries → parent ≢ d → dentry_at d after ≡ dentry_at d t
  unfolding add_entry
  dentry-other d old ne =
      get_or-update_ne parent d linked (t.dentries ++ (fresh ∷ [])) no_dentry ne
      ∙ get_or-append d t.dentries (fresh ∷ []) no_dentry old

  dentry-new : dentry_at (length t.dentries) after ≡ fresh
  unfolding add_entry
  dentry-new =
      get_or-update_ne parent (length t.dentries) linked (t.dentries ++ (fresh ∷ [])) no_dentry
        (λ e. absurd (omega (arith, e, here)))
      ∙ get_or-append_last t.dentries fresh no_dentry

  -- An old entry keeps all but its chains.
  kept :
      {B : Type 0} (f : Dentry → B) (keeps : (p : Dentry) → f (linked p) ≡ f p) (d : ℕ)
      → d < length t.dentries
      → f (dentry_at d after) ≡ f (dentry_at d t)
  kept f keeps d old = elim (ℕ_discrete parent d) [
    | yes same ↦
        subst (λ x. f (dentry_at x after) ≡ f (dentry_at x t)) same
          (ap f dentry-parent ∙ keeps (dentry_at parent t))
    | no other ↦ ap f (dentry-other d old other)
  ]

  is_dir-after : (d : ℕ) → d < length t.dentries → is_dir d after ≡ is_dir d t
  unfolding add_entry
  is_dir-after d old =
      ap (λ i. has_flag (get_or (t.inodes ++ (inode ∷ [])) i no_inode).flags 2)
        (kept (λ p. p.inode) (λ p. refl) d old)
      ∙ ap (λ (n : Inode). has_flag n.flags 2)
          (get_or-append (dentry_at d t).inode t.inodes (inode ∷ []) no_inode
            (entry t tree d old).inode)

  pub is_dir-new : is_dir (length t.dentries) after ≡ has_flag inode.flags 2
  unfolding add_entry
  is_dir-new =
      ap (λ (p : Dentry). has_flag (get_or (t.inodes ++ (inode ∷ [])) p.inode no_inode).flags 2)
        dentry-new
      ∙ ap (λ (n : Inode). has_flag n.flags 2) (get_or-append_last t.inodes inode no_inode)

  find_child-after :
      (seg chain : List ℕ)
      → All (λ d. d < length t.dentries) chain
      → find_child seg after chain ≡ find_child seg t chain
  unfolding find_child
  find_child-after seg [] all = refl
  find_child-after seg (d ∷ chain) (old, all) =
      let same = kept (λ p. p.name) (λ p. refl) d old in
      rw (same, find_child-after seg chain all) refl

  bucket-parent :
      (h : ℕ)
      → h < 32
      → bucket_of parent h after ≡ (
          if dentry_hash name == h
          then length t.dentries ∷ bucket_of parent h t
          else bucket_of parent h t)
  bucket-parent h low =
      let at : bucket_of parent h after ≡ get_or (linked (dentry_at parent t)).hash_bucket h [] =
        ap (λ (p : Dentry). get_or p.hash_bucket h []) dentry-parent in
      elim (ℕ_discrete (dentry_hash name) h) [
        | yes same ↦
            let test : (dentry_hash name == h) ≡ true = (==_iff (dentry_hash name) h).1 same in
            rw test (
              at
              ∙ subst
                  (λ x.
                    get_or (linked (dentry_at parent t)).hash_bucket x []
                    ≡ length t.dentries ∷ bucket_of parent x t)
                  same
                  (get_or-update_self (dentry_hash name) (λ chain. length t.dentries ∷ chain)
                    (dentry_at parent t).hash_bucket []
                    (omega (arith, (entry t tree parent here).buckets))))
        | no other ↦
            let test : (dentry_hash name == h) ≡ false = ground (arith, other) in
            rw test (
              at
              ∙ get_or-update_ne (dentry_hash name) h (λ chain. length t.dentries ∷ chain)
                  (dentry_at parent t).hash_bucket [] other)
      ]

  found-new :
      find_child name after (bucket_of parent (dentry_hash name) after) ≡ some (length t.dentries)
  unfolding find_child
  found-new =
      let self : (dentry_hash name == dentry_hash name) ≡ true = ground arith in
      let at : bucket_of parent (dentry_hash name) after
          ≡ length t.dentries ∷ bucket_of parent (dentry_hash name) t =
        bucket-parent (dentry_hash name) (omega arith) ∙ (rw self refl) in
      let hit : match_seg (dentry_at (length t.dentries) after).name name ≡ true =
        ap (λ (p : Dentry). match_seg p.name name) dentry-new ∙ match_seg_refl name in
      ap (find_child name after) at ∙ rw hit refl

  -- In the parent, under another name.
  found-parent :
      (seg : List ℕ)
      → match_seg name seg ≡ false
      → find_child seg after (bucket_of parent (dentry_hash seg) after)
        ≡ find_child seg t (bucket_of parent (dentry_hash seg) t)
  unfolding find_child
  found-parent seg other =
      let at = bucket-parent (dentry_hash seg) (omega arith) in
      let old =
        find_child-after seg (bucket_of parent (dentry_hash seg) t)
          (chain t tree parent (dentry_hash seg) here (omega arith)) in
      let miss : match_seg (dentry_at (length t.dentries) after).name seg ≡ false =
        ap (λ (p : Dentry). match_seg p.name seg) dentry-new ∙ other in
      let skip : find_child seg after (length t.dentries ∷ bucket_of parent (dentry_hash seg) t)
          ≡ find_child seg after (bucket_of parent (dentry_hash seg) t) =
        rw miss refl in
      ap (find_child seg after) at ∙ ground (arith, old, skip)

  found-old :
      (d : ℕ) (seg : List ℕ)
      → d < length t.dentries
      → (d == parent && match_seg name seg) ≡ false
      → find_child seg after (bucket_of d (dentry_hash seg) after)
        ≡ find_child seg t (bucket_of d (dentry_hash seg) t)
  unfolding find_child
  found-old d seg old other = elim (ℕ_discrete parent d) [
    | no ne ↦
        ap (λ (p : Dentry). find_child seg after (get_or p.hash_bucket (dentry_hash seg) []))
          (dentry-other d old ne)
        ∙ find_child-after seg (bucket_of d (dentry_hash seg) t)
            (chain t tree d (dentry_hash seg) old (omega arith))
    | yes same ↦
        let miss : match_seg name seg ≡ false = ground (arith, same, other) in
        subst
          (λ x.
            find_child seg after (bucket_of x (dentry_hash seg) after)
            ≡ find_child seg t (bucket_of x (dentry_hash seg) t))
          same (found-parent seg miss)
  ]

  pub enter-new :
      match_seg dot name ≡ false
      → match_seg dot_dot name ≡ false
      → is_dir parent t ≡ true
      → enter after parent name ≡ some (length t.dentries)
  unfolding enter
  enter-new here_ up dir =
      let same : is_dir parent after ≡ true = is_dir-after parent here ∙ dir in
      ground (arith, here_, up, same, found-new)

  pub enter-old :
      (d : ℕ) (seg : List ℕ)
      → d < length t.dentries
      → (d == parent && match_seg name seg) ≡ false
      → enter after d seg ≡ enter t d seg
  unfolding enter
  enter-old d seg old other =
      let up : (dentry_at d after).parent ≡ (dentry_at d t).parent =
        kept (λ p. p.parent) (λ p. refl) d old in
      ground (arith, up, is_dir-after d old, found-old d seg old other)

All-append {κ} :
    {A : Type 0} (P : A → Type κ) (xs ys : List A) → All P xs → All P ys → All P (xs ++ ys)
All-append P [] ys a b = b
All-append P (x ∷ xs) ys (h, a) b = (h, All-append P xs ys a b)

-- An index that was in range still is.
wider : (nd ni : ℕ) (e : Dentry) → IsEntry nd ni e → IsEntry (suc nd) (suc ni) e
wider nd ni e h = record {
  inode = omega (arith, h.inode);
  parent = omega (arith, h.parent);
  mount = h.mount;
  buckets = h.buckets;
  chains =
      All-mono (All (λ d. d < nd)) (All (λ d. d < suc nd)) e.hash_bucket
        (λ c a. All-mono (λ d. d < nd) (λ d. d < suc nd) c (λ d k. omega (arith, k)) a) h.chains;
}

fresh-IsEntry :
    (nd ni parent : ℕ) (name : List ℕ)
    → parent < nd
    → IsEntry (suc nd) (suc ni) (record no_dentry { name = name; inode = ni; parent = parent })
fresh-IsEntry nd ni parent name h = record {
  inode = omega arith;
  parent = omega (arith, h);
  mount = refl;
  buckets = refl;
  chains = All-replicate (All (λ d. d < suc nd)) 32 [] tt;
}

linked-IsEntry :
    (nd ni h : ℕ) (e : Dentry)
    → IsEntry (suc nd) ni e
    → IsEntry
        (suc nd)
        ni
        (record e { hash_bucket = update_at h (λ chain. nd ∷ chain) e.hash_bucket })
linked-IsEntry nd ni h e k = record {
  inode = k.inode;
  parent = k.parent;
  mount = k.mount;
  buckets = length-update_at h (λ chain. nd ∷ chain) e.hash_bucket ∙ k.buckets;
  chains =
      All-update_at (All (λ d. d < suc nd)) h (λ chain. nd ∷ chain) e.hash_bucket
        (λ c at a. (omega arith, a)) k.chains;
}

pub length-add_entry :
    (inode : Inode) (parent : ℕ) (name : List ℕ) (t : Tree)
    → length (add_entry inode parent name t).dentries ≡ suc (length t.dentries)
unfolding add_entry
length-add_entry inode parent name t =
    let fresh : Dentry = record no_dentry {
      name = name;
      inode = length t.inodes;
      parent = parent;
    } in
    length-update_at parent _ (t.dentries ++ (fresh ∷ []))
    ∙ length-append t.dentries (fresh ∷ [])
    ∙ omega arith

pub add_entry-IsTree :
    (inode : Inode) (parent : ℕ) (name : List ℕ) (t : Tree)
    → parent < length t.dentries
    → IsTree t
    → IsTree (add_entry inode parent name t)
unfolding add_entry
add_entry-IsTree inode parent name t here tree =
    let nd = length t.dentries in
    let ni = length t.inodes in
    let fresh : Dentry = record no_dentry { name = name; inode = ni; parent = parent } in
    let link : Dentry → Dentry = λ p. record p {
      hash_bucket = update_at (dentry_hash name) (λ chain. nd ∷ chain) p.hash_bucket;
    } in
    let olds =
      All-mono (IsEntry nd ni) (IsEntry (suc nd) (suc ni)) t.dentries (λ e k. wider nd ni e k)
        tree.entries in
    let all =
      All-update_at (IsEntry (suc nd) (suc ni)) parent link (t.dentries ++ (fresh ∷ []))
        (λ e at k. linked-IsEntry nd (suc ni) (dentry_hash name) e k)
        (All-append (IsEntry (suc nd) (suc ni)) t.dentries (fresh ∷ []) olds
          (fresh-IsEntry nd ni parent name here, tt)) in
    let nodes : length (t.inodes ++ (inode ∷ [])) ≡ suc ni =
      length-append t.inodes (inode ∷ []) ∙ omega arith in
    record {
      entries = rw (length-add_entry inode parent name t, nodes) all;
      rooted = omega (arith, length-add_entry inode parent name t);
    }
