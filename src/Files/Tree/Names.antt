-- ===== src/Files/Tree/Names.antt =====
-- The directory part of a path, its last name, and its segments.
use aevros.Base.{
  ℕ, suc, ◌+◌, ◌≡◌, refl, sym, ◌∙◌, ap, subst, inl, inr, true, false, Option, none, some, List, [],
  ◌∷◌, ◌++◌, arith, ◌==◌, if◌then◌else◌, length, take, Bool-cases, append-nil, append_assoc,
}
use aevros.Files.Tree.{slash, segments_from}
use aevros.Files.Tree.Make.{basename_from, last_slash, cut_at, has_slash, parent_dirname}

-- A path from the directory `p` to the name in it.
abbrev pub under : List ℕ → List ℕ → List ℕ
under p name = p ++ (slash ∷ name)

basename_from-plain : (last name : List ℕ) → has_slash name ≡ false → basename_from last name ≡ last
unfolding basename_from has_slash
basename_from-plain last [] h = refl
basename_from-plain last (c ∷ name) h = ground (arith, h, basename_from-plain last name)

pub basename_from-under :
    (last p name : List ℕ) → has_slash name ≡ false → basename_from last (under p name) ≡ name
unfolding basename_from
basename_from-under last [] name h = basename_from-plain name name h
basename_from-under last (c ∷ p) name h =
    basename_from-under (if c == slash then under p name else last) p name h

last_slash-plain :
    (i : ℕ) (last : Option ℕ) (name : List ℕ)
    → has_slash name ≡ false
    → last_slash i last name ≡ last
unfolding last_slash has_slash
last_slash-plain i last [] h = refl
last_slash-plain i last (c ∷ name) h = ground (arith, h, last_slash-plain (i + 1) last name)

last_slash-under :
    (i : ℕ) (last : Option ℕ) (p name : List ℕ)
    → has_slash name ≡ false
    → last_slash i last (under p name) ≡ some (i + length p)
unfolding last_slash
last_slash-under i last [] name h = last_slash-plain (i + 1) (some i) name h ∙ ap some (omega arith)
last_slash-under i last (c ∷ p) name h =
    last_slash-under (i + 1) (if c == slash then some i else last) p name h ∙ ap some (omega arith)

take-length : (p q : List ℕ) → take (length p) (p ++ q) ≡ p
take-length [] q = refl
take-length (c ∷ p) q = ap (◌∷◌ c) (take-length p q)

pub has_slash-under : (p name : List ℕ) → has_slash (under p name) ≡ true
unfolding has_slash
has_slash-under [] name = refl
has_slash-under (c ∷ p) name = ground (arith, has_slash-under p name)

-- The root where the directory part is empty.
unfoldable pub dirname : List ℕ → List ℕ
dirname [] = slash ∷ []
dirname (c ∷ p) = c ∷ p

pub parent_dirname-under :
    (p name : List ℕ) → has_slash name ≡ false → parent_dirname (under p name) ≡ dirname p
unfolding cut_at dirname
parent_dirname-under [] name h =
    let at : last_slash 0 none (under [] name) ≡ some 0 = last_slash-under 0 none [] name h in
    rw at refl
parent_dirname-under (c ∷ p) name h =
    let at : last_slash 0 none (under (c ∷ p) name) ≡ some (suc (length p)) =
      last_slash-under 0 none (c ∷ p) name h ∙ ap some (omega arith) in
    rw at (ap (◌∷◌ c) (take-length p (slash ∷ name)))

segments_from-name :
    (c : ℕ) (seg name : List ℕ)
    → has_slash name ≡ false
    → segments_from (c ∷ seg) name ≡ (c ∷ (seg ++ name)) ∷ []
unfolding segments_from has_slash
segments_from-name c seg [] h = ap (λ r. (c ∷ r) ∷ []) (sym (append-nil seg))
segments_from-name c seg (x ∷ name) h =
    let plain : (x == slash) ≡ false = ground (arith, h) in
    let rest : has_slash name ≡ false = ground (arith, h) in
    rw plain (
      segments_from-name c (seg ++ (x ∷ [])) name rest
      ∙ ap (λ r. (c ∷ r) ∷ []) (append_assoc seg (x ∷ []) name))

pub segments_from-start :
    (c : ℕ) (name : List ℕ)
    → has_slash (c ∷ name) ≡ false
    → segments_from [] (c ∷ name) ≡ (c ∷ name) ∷ []
unfolding segments_from has_slash
segments_from-start c name h =
    let plain : (c == slash) ≡ false = ground (arith, h) in
    let rest : has_slash name ≡ false = ground (arith, h) in
    let begun : (if c == slash then [] else c ∷ []) ≡ c ∷ [] = rw plain refl in
    subst (λ seg. segments_from seg name ≡ (c ∷ name) ∷ []) (sym begun)
      (segments_from-name c [] name rest)

pub segments_from-under :
    (seg p name : List ℕ) (c : ℕ)
    → has_slash (c ∷ name) ≡ false
    → segments_from seg (under p (c ∷ name)) ≡ segments_from seg p ++ ((c ∷ name) ∷ [])
unfolding segments_from
segments_from-under [] [] name c h = segments_from-start c name h
segments_from-under (s ∷ seg) [] name c h = ap (λ r. (s ∷ seg) ∷ r) (segments_from-start c name h)
segments_from-under [] (x ∷ p) name c h =
    segments_from-under (if x == slash then [] else x ∷ []) p name c h
segments_from-under (s ∷ seg) (x ∷ p) name c h = elim (Bool-cases (x == slash)) [
  | inl cut ↦ rw cut (ap (λ r. (s ∷ seg) ∷ r) (segments_from-under [] p name c h))
  | inr on ↦ rw on (segments_from-under ((s ∷ seg) ++ (x ∷ [])) p name c h)
]
