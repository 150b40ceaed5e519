-- ===== src/Networking/Inbox/Buffer.antt =====
-- One slot of the inbox is a byte queue of at most 4096 bytes.
use aevros.Base.{
  ℕ, zero, suc, ◌+◌, ◌-◌, ◌%◌, ◌≤◌, ◌<◌, ◌≡◌, refl, ◌∙◌, sym, ap, List, [], ◌∷◌, ◌++◌, append-nil,
  append_assoc, arith, add16, sub16, length, set, take, drop, take_all, drop_all, subst, window,
  length-window, window-set_end, window-drop, window-take, length-set,
}
use aevros.Networking.LockBox.{max_buffered}
use aevros.Networking.Inbox.{Slot, store, store_loop, fetch, fetch_loop, to_read}

-- The bytes that wait, oldest first.
abbrev pub contents : Slot → List ℕ
contents x = window max_buffered 0 x.storage x.read_pos x.count

pub record IsRing (x : Slot) : Type 0 where
  pub room : max_buffered ≤ length x.storage
  pub read_in : x.read_pos < max_buffered
  pub full : x.count ≤ max_buffered
  pub tail : x.write_pos ≡ (x.read_pos + x.count) % max_buffered

-- The loop writes behind the `n` bytes that wait, and moves nothing else.
record Stored (x : Slot) (n : ℕ) (bytes : List ℕ) (y : Slot) : Type 0 where
  bytes_end :
      window max_buffered 0 y.storage x.read_pos (n + length bytes)
      ≡ window max_buffered 0 x.storage x.read_pos n ++ bytes
  room : max_buffered ≤ length y.storage
  tail : y.write_pos ≡ (x.read_pos + (n + length bytes)) % max_buffered
  same_read : y.read_pos ≡ x.read_pos
  same_count : y.count ≡ x.count
  same_seen : y.seen_generation ≡ x.seen_generation

store_loop-Stored :
    (bytes : List ℕ) (x : Slot) (n : ℕ)
    → max_buffered ≤ length x.storage
    → x.read_pos < max_buffered
    → n + length bytes ≤ max_buffered
    → x.write_pos ≡ (x.read_pos + n) % max_buffered
    → Stored x n bytes (store_loop bytes x)
unfolding store_loop
store_loop-Stored [] x n room low fits tail = record {
  bytes_end = let e : n + 0 ≡ n = omega arith in rw (e, append-nil);
  room = room;
  tail = omega arith;
  same_read = refl;
  same_count = refl;
  same_seen = refl;
}
store_loop-Stored (b ∷ bs) x n room low fits tail =
    let x' : Slot = record x {
      storage = set x.storage x.write_pos b;
      write_pos = (x.write_pos + 1) % max_buffered;
    } in
    let ih =
      store_loop-Stored bs x' (n + 1) (omega (arith, length-set x.storage x.write_pos b)) low
        (omega arith) (omega arith) in
    let one =
      window-set_end max_buffered 0 x.storage b n x.read_pos x.write_pos room low (omega arith)
        tail in
    record {
      bytes_end =
          let more : n + suc (length bs) ≡ n + 1 + length bs = omega arith in
          let next : n + 1 ≡ suc n = omega arith in
          let here = window max_buffered 0 x.storage x.read_pos n in
          rw more (
            ih.bytes_end
            ∙ ap (λ k. window max_buffered 0 x'.storage x.read_pos k ++ bs) next
            ∙ ap (λ w. w ++ bs) one
            ∙ append_assoc here (b ∷ []) bs);
      room = ih.room;
      tail = omega (arith, ih.tail);
      same_read = ih.same_read;
      same_count = ih.same_count;
      same_seen = ih.same_seen;
    }

-- Storing what fits appends it.
pub store_lem :
    (payload : List ℕ) (x : Slot)
    → IsRing x
    → x.count + length payload ≤ max_buffered
    → (contents (store payload x) ≡ contents x ++ payload)
      × IsRing (store payload x)
      × ((store payload x).count ≡ x.count + length payload)
      × ((store payload x).seen_generation ≡ x.seen_generation)
unfolding store
store_lem payload x r fits =
    let st = store_loop-Stored payload x x.count r.room r.read_in fits r.tail in
    let total : add16 (store_loop payload x).count (length payload) ≡ x.count + length payload =
      omega (arith, st.same_count) in
    (
      rw (total, st.same_read) st.bytes_end,
      record {
        room = st.room;
        read_in = omega (arith, st.same_read, r.read_in);
        full = omega arith;
        tail = omega (arith, st.tail, st.same_read);
      },
      total,
      st.same_seen,
    )

fetch_loop_lem :
    (n : ℕ) (x : Slot)
    → x.read_pos < max_buffered
    → fetch_loop n x ≡ (
      window max_buffered 0 x.storage x.read_pos n,
      record x { read_pos = (x.read_pos + n) % max_buffered },
    )
unfolding fetch_loop
fetch_loop_lem zero x h =
    let e : (x.read_pos + 0) % max_buffered ≡ x.read_pos = omega arith in
    λ i. ([], record x { read_pos = sym e i })
fetch_loop_lem (suc n) x h =
    let x' : Slot = record x { read_pos = (x.read_pos + 1) % max_buffered } in
    let e : (x'.read_pos + n) % max_buffered ≡ (x.read_pos + suc n) % max_buffered = omega arith in
    let ih = fetch_loop_lem n x' (omega arith) in ground (arith, ih, e)

pub length-contents : (x : Slot) → length (contents x) ≡ x.count
length-contents x = length-window max_buffered 0 x.storage x.read_pos x.count

abbrev fetched : ℕ → Slot → Slot
fetched n x = record x { read_pos = (x.read_pos + n) % max_buffered; count = x.count - n }

fetch_shape :
    (max_len : ℕ) (x : Slot)
    → IsRing x
    → fetch max_len x ≡ (
      window max_buffered 0 x.storage x.read_pos (to_read max_len x),
      fetched (to_read max_len x) x,
    )
unfolding fetch
fetch_shape max_len x r =
    let below : to_read max_len x ≤ x.count = ground arith in
    let left : sub16 x.count (to_read max_len x) ≡ x.count - to_read max_len x = omega arith in
    ground (arith, fetch_loop_lem (to_read max_len x) x r.read_in, left)

fetched-IsRing : (n : ℕ) (x : Slot) → IsRing x → n ≤ x.count → IsRing (fetched n x)
fetched-IsRing n x r h = record {
  room = r.room;
  read_in = omega arith;
  full = omega (arith, r.full);
  tail = omega (arith, r.tail);
}

-- Asking for more than is there takes all.
take-to_read :
    (max_len : ℕ) (x : Slot) → take (to_read max_len x) (contents x) ≡ take max_len (contents x)
take-to_read max_len x =
    ground (arith, length-contents x, take_all max_len (contents x), take_all x.count (contents x))

drop-to_read :
    (max_len : ℕ) (x : Slot) → drop (to_read max_len x) (contents x) ≡ drop max_len (contents x)
drop-to_read max_len x =
    ground (arith, length-contents x, drop_all max_len (contents x), drop_all x.count (contents x))

-- Fetching takes the oldest bytes, as many as are asked for and there.
pub fetch_lem :
    (max_len : ℕ) (x : Slot)
    → IsRing x
    → ((fetch max_len x).0 ≡ take max_len (contents x))
      × (contents (fetch max_len x).1 ≡ drop max_len (contents x))
      × IsRing (fetch max_len x).1
      × ((fetch max_len x).1.count ≡ x.count - to_read max_len x)
      × ((fetch max_len x).1.seen_generation ≡ x.seen_generation)
fetch_lem max_len x r =
    let shape = fetch_shape max_len x r in
    let n = to_read max_len x in
    let rest = x.count - n in
    let whole : n + rest ≡ x.count = ground arith in
    let all = contents x in
    let part : window max_buffered 0 x.storage x.read_pos n ≡ take n all =
      window-take max_buffered 0 x.storage n rest x.read_pos
      ∙ ap (λ k. take n (window max_buffered 0 x.storage x.read_pos k)) whole in
    let left : contents (fetched n x) ≡ drop n all =
      window-drop max_buffered 0 x.storage n rest x.read_pos ((x.read_pos + n) % max_buffered)
        r.read_in refl
      ∙ ap (λ k. drop n (window max_buffered 0 x.storage x.read_pos k)) whole in
    let counted = length-contents x in
    (
      ap (λ p. p.0) shape ∙ part ∙ take-to_read max_len x,
      ap (λ p. contents p.1) shape ∙ left ∙ drop-to_read max_len x,
      subst (λ p. IsRing p.1) (sym shape) (fetched-IsRing n x r (ground arith)),
      ap (λ p. p.1.count) shape,
      ap (λ p. p.1.seen_generation) shape,
    )
