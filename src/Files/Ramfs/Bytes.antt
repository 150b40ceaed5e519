-- ===== src/Files/Ramfs/Bytes.antt =====
-- A file in memory is a string of bytes: a write replaces a part of it, a read returns a part of it.
use native.Mathlib.Nat.{pow-le-pow_right}
use native.Mathlib.Decide.{dec_le, dec_lt}
use aevros.Base.{
  ℕ, zero, suc, ◌+◌, ◌-◌, ◌^◌, ◌≤◌, ◌<◌, ◌≡◌, refl, sym, ◌∙◌, ap, true, false, Option, some, List,
  [], ◌∷◌, ◌++◌, arith, max, ltb, leb, add32, take, drop, length, length-append, length-take,
  length-drop, take_all, drop_all, subst,
}
use aevros.Files.Ramfs.{
  Ram, Node, read, read_ram, grow, grown, moved, expand_to, expand, overwrite, stored, put,
  write_ram, write,
}
use aevros.Files.Ramfs.Grow.{grow_ends}

-- The block has as many bytes as its capacity says, a power of two, and holds the whole file.
pub record IsFile (ram : Ram) (n : Node) : Type 0 where
  pub held : n.ram ≡ some ram
  pub exact : length ram.bytes ≡ ram.capacity
  pub within : n.size ≤ ram.capacity
  pub shift : ℕ
  pub low : shift ≤ 31
  pub power : ram.capacity ≡ 2 ^ shift

-- The bytes of the file.
abbrev pub contents : Ram → Node → List ℕ
contents ram n = take n.size ram.bytes

-- The heap gives what it is asked for.
abbrev pub Gives : (ℕ → Option (List ℕ)) → ℕ → Type 0
Gives kmalloc c = (m : List ℕ) × (kmalloc c ≡ some m) × (length m ≡ c)

module _ {ℓ} {A : Type ℓ} where
  take-append_short : (n : ℕ) (xs ys : List A) → n ≤ length xs → take n (xs ++ ys) ≡ take n xs
  take-append_short zero xs ys h = refl
  take-append_short (suc n) [] ys h = absurd (omega arith)
  take-append_short (suc n) (x ∷ xs) ys h = ap (◌∷◌ x) (take-append_short n xs ys (omega arith))

  take-start :
      (size : ℕ) (buf xs : List A)
      → length buf ≤ length xs
      → take (max size (length buf)) (buf ++ drop (length buf) xs)
        ≡ buf ++ drop (length buf) (take size xs)
  take-start size [] xs h = let e : max size 0 ≡ size = omega arith in rw e refl
  take-start size (b ∷ bs) [] h = absurd (omega arith)
  take-start zero (b ∷ bs) (x ∷ xs) h =
      let e : max 0 (suc (length bs)) ≡ suc (max 0 (length bs)) = omega arith in
      let none_left : drop (length bs) (take 0 xs) ≡ [] =
        drop_all (length bs) (take 0 xs) (omega arith) in
      rw e (ap (◌∷◌ b) (take-start zero bs xs (omega arith) ∙ ap (λ r. bs ++ r) none_left))
  take-start (suc size) (b ∷ bs) (x ∷ xs) h =
      let e : max (suc size) (suc (length bs)) ≡ suc (max size (length bs)) = omega arith in
      rw e (ap (◌∷◌ b) (take-start size bs xs (omega arith)))

take-take : (a b : ℕ) (xs : List ℕ) → a ≤ b → take a (take b xs) ≡ take a xs
take-take zero b xs h = refl
take-take (suc a) zero xs h = absurd (omega arith)
take-take (suc a) (suc b) [] h = refl
take-take (suc a) (suc b) (x ∷ xs) h = ap (◌∷◌ x) (take-take a b xs (omega arith))

drop-take : (o s : ℕ) (xs : List ℕ) → o ≤ s → drop o (take s xs) ≡ take (s - o) (drop o xs)
drop-take zero s xs h = let e : s - 0 ≡ s = omega arith in rw e refl
drop-take (suc o) zero xs h = absurd (omega arith)
drop-take (suc o) (suc s) [] h = sym (take_all (suc s - suc o) [] (omega arith))
drop-take (suc o) (suc s) (x ∷ xs) h =
    let e : suc s - suc o ≡ s - o = omega arith in rw e (drop-take o s xs (omega arith))

take-overwrite :
    (o size : ℕ) (buf xs : List ℕ)
    → o ≤ size
    → size ≤ length xs
    → o + length buf ≤ length xs
    → take (max size (o + length buf)) (overwrite o buf xs) ≡ overwrite o buf (take size xs)
take-overwrite zero size buf xs h k l =
    let e : 0 + length buf ≡ length buf = omega arith in rw e (take-start size buf xs (omega arith))
take-overwrite (suc o) zero buf xs h k l = absurd (omega arith)
take-overwrite (suc o) (suc size) buf [] h k l = absurd (omega arith)
take-overwrite (suc o) (suc size) buf (x ∷ xs) h k l =
    let e : suc o + length buf ≡ suc (o + length buf) = omega arith in
    let m : max (suc size) (suc (o + length buf)) ≡ suc (max size (o + length buf)) = omega arith in
    rw (e, m) (ap (◌∷◌ x) (take-overwrite o size buf xs (omega arith) (omega arith) (omega arith)))

length-overwrite :
    (o : ℕ) (buf xs : List ℕ) → o + length buf ≤ length xs → length (overwrite o buf xs) ≡ length xs
length-overwrite o buf xs h =
    length-append (take o xs ++ buf) (drop (o + length buf) xs)
    ∙ omega
        (arith, length-append (take o xs) buf, length-take o xs, length-drop (o + length buf) xs)

-- The write into a block that has room.
stored-IsFile :
    (o : ℕ) (buf : List ℕ) (ram : Ram) (n : Node)
    → IsFile ram n
    → o ≤ n.size
    → o + length buf ≤ ram.capacity
    → IsFile (record ram { bytes = overwrite o buf ram.bytes }) (stored o buf ram n)
      × (contents (record ram { bytes = overwrite o buf ram.bytes }) (stored o buf ram n)
          ≡ overwrite o buf (contents ram n))
stored-IsFile o buf ram n f low room =
    let top : 2 ^ f.shift ≤ 2 ^ 31 = pow-le-pow_right (omega arith) f.low in
    let ram' : Ram = record ram { bytes = overwrite o buf ram.bytes } in
    let sized : (stored o buf ram n).size ≡ max n.size (o + length buf) =
      ground (arith, top, room, f.power) in
    let inside : o + length buf ≤ length ram.bytes = omega (arith, room, f.exact) in
    (
      record {
        held = refl;
        exact = length-overwrite o buf ram.bytes inside ∙ f.exact;
        within = omega (arith, sized, room, f.within);
        shift = f.shift;
        low = f.low;
        power = f.power;
      },
      ap (λ m. take m (overwrite o buf ram.bytes)) sized
          ∙ take-overwrite o n.size buf ram.bytes low (omega (arith, f.within, f.exact)) inside,
    )

-- What a write leaves: the length as the answer, and a file with the bytes put in.
abbrev pub Puts : ℕ → List ℕ → List ℕ → Option (ℕ × Node) → Type 0
Puts o buf before r =
    (ram : Ram) × (n : Node) × (r ≡ some (length buf, n))
    × IsFile ram n
    × (contents ram n ≡ overwrite o buf before)

put-grown :
    (o : ℕ) (buf : List ℕ) (ram : Ram) (n : Node)
    → IsFile ram n
    → o ≤ n.size
    → o + length buf ≤ ram.capacity
    → Puts o buf (contents ram n) (put o buf n (grown ram))
unfolding put
put-grown o buf ram n f low room =
    let (file, bytes) = stored-IsFile o buf ram n f low room in
    (record ram { bytes = overwrite o buf ram.bytes }, stored o buf ram n, refl, file, bytes)

-- The block after the file has moved to a larger one.
larger : ℕ → List ℕ → Ram → Ram
larger c fresh ram = record {
  bytes = take ram.capacity ram.bytes ++ drop ram.capacity fresh;
  capacity = c;
}

expand-Gives :
    (kmalloc : ℕ → Option (List ℕ)) (needed : ℕ) (ram : Ram) (n : Node)
    → IsFile ram n
    → ((c : ℕ) → Gives kmalloc c)
    → ram.capacity < needed
    → needed ≤ 2 ^ 31
    → (c : ℕ) × (fresh : List ℕ) × (expand kmalloc needed ram ≡ grown (larger c fresh ram))
      × (needed ≤ c)
      × (length fresh ≡ c)
      × (j : ℕ) × (j ≤ 31)
      × (c ≡ 2 ^ j)
unfolding expand expand_to moved larger
expand-Gives kmalloc needed ram n f gives small fits =
    let (j, ends, enough, low) = grow_ends 33 f.shift needed fits f.low (omega arith) in
    let (fresh, got, len) = gives (2 ^ j) in
    let test : leb needed ram.capacity ≡ false = ground (arith, small) in
    let stops : grow 33 ram.capacity needed ≡ some (2 ^ j) =
      subst (λ x. grow 33 x needed ≡ some (2 ^ j)) (sym f.power) ends in
    (2 ^ j, fresh, rw (test, stops, got) refl, enough, len, j, low, refl)

larger-IsFile :
    (c j : ℕ) (fresh : List ℕ) (ram : Ram) (n : Node)
    → IsFile ram n
    → ram.capacity ≤ c
    → length fresh ≡ c
    → j ≤ 31
    → c ≡ 2 ^ j
    → IsFile (larger c fresh ram) (record n { ram = some (larger c fresh ram) })
      × (contents (larger c fresh ram) n ≡ contents ram n)
unfolding larger
larger-IsFile c j fresh ram n f more len low power =
    let whole : take ram.capacity ram.bytes ≡ ram.bytes =
      take_all ram.capacity ram.bytes (omega (arith, f.exact)) in
    let total : length (ram.bytes ++ drop ram.capacity fresh) ≡ c =
      length-append ram.bytes (drop ram.capacity fresh)
      ∙ omega (arith, length-drop ram.capacity fresh, more, len, f.exact) in
    (
      record {
        held = refl;
        exact = subst (λ xs. length (xs ++ drop ram.capacity fresh) ≡ c) (sym whole) total;
        within = omega (arith, f.within, more);
        shift = j;
        low = low;
        power = power;
      },
      subst (λ xs. take n.size (xs ++ drop ram.capacity fresh) ≡ take n.size ram.bytes) (sym whole)
          (take-append_short n.size ram.bytes (drop ram.capacity fresh)
            (omega (arith, f.within, f.exact))),
    )

put-node :
    (o : ℕ) (buf : List ℕ) (ram : Ram) (n : Node)
    → put o buf (record n { ram = some ram }) (grown ram) ≡ put o buf n (grown ram)
unfolding put
put-node o buf ram n = refl

write-held :
    (kmalloc : ℕ → Option (List ℕ)) (o : ℕ) (buf : List ℕ) (ram : Ram) (n : Node)
    → n.ram ≡ some ram
    → write kmalloc o buf n ≡ write_ram kmalloc o buf ram n
unfolding write
write-held kmalloc o buf ram n h = ground (arith, h)

write_ram-Puts :
    (kmalloc : ℕ → Option (List ℕ)) (o : ℕ) (buf : List ℕ) (ram : Ram) (n : Node)
    → IsFile ram n
    → o ≤ n.size
    → o + length buf ≤ 2 ^ 31
    → ((c : ℕ) → Gives kmalloc c)
    → Puts o buf (contents ram n) (write_ram kmalloc o buf ram n)
unfolding write_ram larger
write_ram-Puts kmalloc o buf ram n f low fits gives =
    let stop : add32 o (length buf) ≡ o + length buf = omega (arith, fits) in
    elim (dec_le (o + length buf) ram.capacity) [
      | yes room ↦
          let test : ltb ram.capacity (o + length buf) ≡ false = ground (arith, room) in
          rw (stop, test) (put-grown o buf ram n f low room)
      | no tight ↦
          let test : ltb ram.capacity (o + length buf) ≡ true = ground (arith, tight) in
          let (c, fresh, ends, enough, len, j, bound, power) =
            expand-Gives kmalloc (o + length buf) ram n f gives (omega (arith, tight)) fits in
          let (file, same) =
            larger-IsFile c j fresh ram n f (omega (arith, tight, enough)) len bound power in
          let bigger = larger c fresh ram in
          let there : Puts o buf (contents bigger n) (put o buf n (grown bigger)) =
            subst (Puts o buf (contents bigger n)) (put-node o buf bigger n)
              (put-grown o buf bigger (record n { ram = some bigger }) file low enough) in
          rw (stop, test, ends, ← same) there
    ]

-- A write of a file, at most at its end and within 2 ^ 31 bytes, where the heap gives what it is asked
-- for: it returns, with the number of bytes, and leaves a file whose bytes are those before, with the
-- bytes of the buffer in place of those from the offset on.
pub write-Puts :
    (kmalloc : ℕ → Option (List ℕ)) (o : ℕ) (buf : List ℕ) (ram : Ram) (n : Node)
    → IsFile ram n
    → o ≤ n.size
    → o + length buf ≤ 2 ^ 31
    → ((c : ℕ) → Gives kmalloc c)
    → Puts o buf (contents ram n) (write kmalloc o buf n)
write-Puts kmalloc o buf ram n f low fits gives =
    rw (write-held kmalloc o buf ram n f.held) (write_ram-Puts kmalloc o buf ram n f low fits gives)

-- A read returns the bytes of the file from the offset on, as many as are asked for and are there.
pub read-gets :
    (o size : ℕ) (ram : Ram) (n : Node)
    → IsFile ram n
    → o + size < 2 ^ 32
    → read o size n
      ≡ (length (take size (drop o (contents ram n))), take size (drop o (contents ram n)))
unfolding read read_ram
read-gets o size ram n f fits =
    let xs = ram.bytes in
    let stop : add32 o size ≡ o + size = omega (arith, fits) in
    let whole = length-take n.size xs in
    elim (dec_lt n.size o) [
      | yes past ↦
          let nothing : drop o (take n.size xs) ≡ [] =
            drop_all o (take n.size xs) (omega (arith, whole, past)) in
          let test : ltb n.size o ≡ true = ground (arith, past) in
          let empty : take {A = ℕ} size [] ≡ [] = take_all size [] (omega arith) in
          rw (f.held, test, nothing, empty) refl
      | no inside ↦
          let test : ltb n.size o ≡ false = ground (arith, inside) in
          let part = drop-take o n.size xs (omega (arith, inside)) in
          let long = length-drop o xs in
          let short = length-take (n.size - o) (drop o xs) in
          elim (dec_lt n.size (o + size)) [
            | yes cut ↦
                let past : ltb n.size (o + size) ≡ true = ground (arith, cut) in
                let all : take size (take (n.size - o) (drop o xs))
                    ≡ take (n.size - o) (drop o xs) =
                  take_all size (take (n.size - o) (drop o xs)) (omega (arith, short, cut)) in
                let count : n.size - o ≡ length (take (n.size - o) (drop o xs)) =
                  omega (arith, short, long, f.within, f.exact) in
                rw (f.held, test, stop, past, part, all)
                  (ap (λ k. (k, take (n.size - o) (drop o xs))) count)
            | no fit ↦
                let past : ltb n.size (o + size) ≡ false = ground (arith, fit) in
                let all : take size (take (n.size - o) (drop o xs)) ≡ take size (drop o xs) =
                  take-take size (n.size - o) (drop o xs) (omega (arith, fit, inside)) in
                let count : size ≡ length (take size (drop o xs)) =
                  omega (arith, length-take size (drop o xs), long, f.within, f.exact, fit) in
                rw (f.held, test, stop, past, part, all)
                  (ap (λ k. (k, take size (drop o xs))) count)
          ]
    ]
