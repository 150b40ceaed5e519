-- ===== src/Files/Tree/Paths.antt =====
-- The way along a path: where it leads, that it stays in range, and that a new name leaves it.
use aevros.Base.{
  ℕ, ◌<◌, ◌≡◌, refl, sym, ◌∙◌, ap, inl, inr, true, false, ◌&&◌, none, some, List, [], ◌∷◌, ◌++◌,
  arith, ◌==◌, if◌then◌else◌, length, All, Bool-cases, Option-cases,
}
use aevros.Files.Tree.{
  Tree, Inode, dentry_at, dentry_hash, match_seg, find_child, bucket_of, enter, segments, walk,
  segments_from, starts_with_slash, resolve_path, lookup,
}
use aevros.Files.Tree.Make.{has_slash, add_entry}
use aevros.Files.Tree.Entries.{IsTree, match_seg→eq, enter-old, entry, chain}
use aevros.Files.Tree.Names.{under, dirname, segments_from-under}

find_child_range :
    (seg : List ℕ) (t : Tree) (n d : ℕ) (c : List ℕ)
    → All (λ x. x < n) c
    → find_child seg t c ≡ some d
    → d < n
unfolding find_child
find_child_range seg t n d [] a h = absurd (ground arith)
find_child_range seg t n d (x ∷ c) (k, a) h = ground (arith, k, h, find_child_range seg t n d c a)

-- What a walk reaches is in range.
enter_range :
    (t : Tree) (dir : ℕ) (seg : List ℕ) (d : ℕ)
    → IsTree t
    → dir < length t.dentries
    → enter t dir seg ≡ some d
    → d < length t.dentries
unfolding enter
enter_range t dir seg d tree old h =
    let up = (entry t tree dir old).parent in
    let down =
      find_child_range seg t (length t.dentries) d (bucket_of dir (dentry_hash seg) t)
        (chain t tree dir (dentry_hash seg) old (omega arith)) in
    ground (arith, h, old, up, down)

walk_step :
    (t : Tree) (dir d : ℕ) (seg : List ℕ) (segs : List (List ℕ))
    → enter t dir seg ≡ some d
    → walk t dir (seg ∷ segs) ≡ walk t d segs
unfolding walk
walk_step t dir d seg segs h = ground (arith, h)

walk_lost :
    (t : Tree) (dir : ℕ) (seg : List ℕ) (segs : List (List ℕ))
    → enter t dir seg ≡ none
    → walk t dir (seg ∷ segs) ≡ none
unfolding walk
walk_lost t dir seg segs h = ground (arith, h)

walk_range :
    (t : Tree) (dir : ℕ) (segs : List (List ℕ)) (d : ℕ)
    → IsTree t
    → dir < length t.dentries
    → walk t dir segs ≡ some d
    → d < length t.dentries
unfolding walk
walk_range t dir [] d tree old h = ground (arith, old, h)
walk_range t dir (seg ∷ segs) d tree old h = elim (Option-cases (enter t dir seg)) [
  | inl lost ↦ absurd (ground (arith, lost, h))
  | inr (x, on) ↦
      walk_range t x segs d tree (enter_range t dir seg x tree old on)
        (sym (walk_step t dir x seg segs on) ∙ h)
]

pub walk-append :
    (t : Tree) (dir d : ℕ) (segs : List (List ℕ)) (seg : List ℕ)
    → walk t dir segs ≡ some d
    → walk t dir (segs ++ (seg ∷ [])) ≡ enter t d seg
unfolding walk
walk-append t dir d [] seg h =
    let same : dir ≡ d = cc in
    elim (Option-cases (enter t dir seg)) [
      | inl lost ↦ walk_lost t dir seg [] lost ∙ sym lost ∙ ap (λ y. enter t y seg) same
      | inr (x, on) ↦ walk_step t dir x seg [] on ∙ (sym on ∙ ap (λ y. enter t y seg) same)
    ]
walk-append t dir d (s ∷ segs) seg h = elim (Option-cases (enter t dir s)) [
  | inl lost ↦ absurd (ground (arith, lost, h))
  | inr (x, on) ↦
      let rest : walk t x segs ≡ some d = ground (arith, on, h) in
      walk_step t dir x s (segs ++ (seg ∷ [])) on ∙ walk-append t x d segs seg rest
]

abbrev start : ℕ → List ℕ → ℕ
start cwd path = if starts_with_slash path then 0 else cwd

pub resolve_range :
    (t : Tree) (cwd : ℕ) (path : List ℕ) (d : ℕ)
    → IsTree t
    → cwd < length t.dentries
    → resolve_path t cwd path ≡ some d
    → d < length t.dentries
unfolding resolve_path
resolve_range t cwd path d tree old h =
    walk_range t (start cwd path) (segments path) d tree (ground (arith, old, tree.rooted)) h

pub lookup-none :
    (t : Tree) (cwd : ℕ) (path : List ℕ) → resolve_path t cwd path ≡ none → lookup t cwd path ≡ none
unfolding lookup
lookup-none t cwd path h = ground (arith, h)

lookup-some :
    (t : Tree) (cwd d : ℕ) (path : List ℕ)
    → resolve_path t cwd path ≡ some d
    → (dentry_at d t).mount ≡ none
    → lookup t cwd path ≡ some d
unfolding lookup
lookup-some t cwd d path h bare = ground (arith, h, bare)

-- Where nothing is mounted, `vfs_lookup` is `vfs_resolve_path`.
pub lookup_plain :
    (t : Tree) (cwd : ℕ) (path : List ℕ)
    → IsTree t
    → cwd < length t.dentries
    → lookup t cwd path ≡ resolve_path t cwd path
lookup_plain t cwd path tree old = elim (Option-cases (resolve_path t cwd path)) [
  | inl lost ↦ lookup-none t cwd path lost ∙ sym lost
  | inr (d, on) ↦
      let there = resolve_range t cwd path d tree old on in
      lookup-some t cwd d path on (entry t tree d there).mount ∙ sym on
]

-- Adding a name that was free.
module _ (inode : Inode) (parent : ℕ) (name : List ℕ) (t : Tree) (here : parent < length t.dentries)
    (tree : IsTree t) (free : enter t parent name ≡ none) where
  enter-kept :
      (d x : ℕ) (seg : List ℕ)
      → d < length t.dentries
      → enter t d seg ≡ some x
      → enter (add_entry inode parent name t) d seg ≡ some x
  enter-kept d x seg old h = elim (Bool-cases (d == parent && match_seg name seg)) [
    | inr other ↦ enter-old inode parent name t here tree d seg old other ∙ h
    | inl same ↦
        let at : d ≡ parent = ground (arith, same) in
        let hit : match_seg name seg ≡ true = ground (arith, same) in
        let named = match_seg→eq name seg hit in
        let taken : enter t parent name ≡ some x = rw (← at, named) h in absurd (cc (taken, free))
  ]

  walk-kept :
      (d x : ℕ) (segs : List (List ℕ))
      → d < length t.dentries
      → walk t d segs ≡ some x
      → walk (add_entry inode parent name t) d segs ≡ some x
  unfolding walk
  walk-kept d x [] old h = h
  walk-kept d x (seg ∷ segs) old h = elim (Option-cases (enter t d seg)) [
    | inl lost ↦ absurd (ground (arith, lost, h))
    | inr (y, on) ↦
        let rest : walk t y segs ≡ some x = ground (arith, on, h) in
        walk_step (add_entry inode parent name t) d y seg segs (enter-kept d y seg old on)
        ∙ (walk-kept y x segs (enter_range t d seg y tree old on) rest)
  ]

  pub resolve-kept :
      (cwd x : ℕ) (path : List ℕ)
      → cwd < length t.dentries
      → resolve_path t cwd path ≡ some x
      → resolve_path (add_entry inode parent name t) cwd path ≡ some x
  unfolding resolve_path
  resolve-kept cwd x path old h =
      walk-kept (start cwd path) x (segments path) (ground (arith, old, tree.rooted)) h

starts-under : (p name : List ℕ) → starts_with_slash (under p name) ≡ starts_with_slash (dirname p)
unfolding dirname
starts-under [] name = refl
starts-under (c ∷ p) name = refl

segments-dirname : (p : List ℕ) → segments (dirname p) ≡ segments p
unfolding dirname segments_from
segments-dirname [] = refl
segments-dirname (c ∷ p) = refl

-- The last step of the way to a name.
pub resolve-under :
    (t : Tree) (cwd parent : ℕ) (p : List ℕ) (c : ℕ) (name : List ℕ)
    → has_slash (c ∷ name) ≡ false
    → resolve_path t cwd (dirname p) ≡ some parent
    → resolve_path t cwd (under p (c ∷ name)) ≡ enter t parent (c ∷ name)
unfolding resolve_path
resolve-under t cwd parent p c name plain h =
    rw (starts-under p (c ∷ name), segments_from-under [] p name c plain)
      (walk-append t (start cwd (dirname p)) parent (segments p) (c ∷ name)
        (rw (← segments-dirname p) h))
