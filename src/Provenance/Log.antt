-- ===== src/Provenance/Log.antt =====
-- What the log keeps of the calls: the last 256 records, oldest first.
use native.Mathlib.Decide.{dec_lt}
use aevros.Base.{
  ℕ, suc, ◌+◌, ◌-◌, ◌%◌, ◌^◌, ◌≤◌, ◌<◌, ◌≡◌, refl, sym, ap, ◌∙◌, inl, inr, true, false, List, [],
  ◌∷◌, ◌++◌, if◌then◌else◌, add32, sub32, length, set, arith, Bool-cases, min, drop, length-set,
  length-append, append-nil, append_assoc, subst,
}
use aevros.Provenance.{
  Record, State, Claim, stamped, reset, invalidate, input_valid, log, store, copy, snapshot,
}
use aevros.Provenance.View.{drop-append, drop_one, store-early, store-late, view-early, view-late}

-- The calls of `provenance_record`, each with its tick.
unfoldable pub log_all : List (Claim × ℕ) → State → State
log_all [] s = s
log_all ((c, tick) ∷ l) s = log_all l (log c tick s).1

-- The records of all calls with a valid input, numbered from `id` on.
unfoldable pub history : ℕ → List (Claim × ℕ) → List Record
history id [] = []
history id ((c, tick) ∷ l) =
    let kept = history (id + 1) l in
    let skipped = history id l in if input_valid c then stamped id tick c ∷ kept else skipped

-- The state after the records of `h`.
pub record Keeps (h : List Record) (s : State) : Type 0 where
  pub sized : length s.records ≡ 256
  pub next : s.next_id ≡ length h + 1
  pub count : s.record_count ≡ min 256 (length h)
  pub lost : s.dropped ≡ length h - 256
  pub view : snapshot s ≡ drop (length h - 256) h

-- Nothing is dropped of what fits.
drop_early : (h : List Record) (k : ℕ) → k ≤ 256 → drop (k - 256) h ≡ h
drop_early h k le = let e : k - 256 ≡ 0 = omega arith in rw e refl

drop_late :
    (h : List Record) (v : Record)
    → 256 ≤ length h
    → drop 1 (drop (length h - 256) h) ++ (v ∷ []) ≡ drop (length h + 1 - 256) (h ++ (v ∷ []))
drop_late h v le =
    let e : length h + 1 - 256 ≡ suc (length h - 256) = omega arith in
    rw (e, drop_one (length h - 256) h)
      (sym (drop-append (suc (length h - 256)) h (v ∷ []) (omega arith)))

store-Keeps :
    (h : List Record) (c : Claim) (tick : ℕ) (s : State)
    → Keeps h s
    → length h + 2 < 2 ^ 32
    → Keeps (h ++ (stamped (length h + 1) tick c ∷ [])) (store c tick s).1
store-Keeps h c tick s k small =
    let v = stamped s.next_id tick c in
    let len = length-append h (v ∷ []) in
    elim (dec_lt s.record_count 256) [
      | yes early ↦
          let t : State = record {
            records = set s.records s.record_count v;
            record_count = s.record_count + 1;
            next_id = add32 s.next_id 1;
            dropped = s.dropped;
          } in
          let seen : snapshot t ≡ snapshot s ++ (v ∷ []) =
            view-early s t v k.sized early (omega (arith, k.next, k.count)) refl (omega arith)
              (omega (arith, k.next)) in
          let all : snapshot s ≡ h = k.view ∙ drop_early h (length h) (omega (arith, k.count)) in
          rw (sym k.next, store-early c tick s early)
            (record {
              sized = length-set s.records s.record_count v ∙ k.sized;
              next = omega (arith, k.next, len);
              count = omega (arith, k.count, len);
              lost = omega (arith, k.lost, k.count, len);
              view =
                  seen
                  ∙ ap (λ l. l ++ (v ∷ [])) all
                  ∙ sym (
                      drop_early (h ++ (v ∷ [])) (length (h ++ (v ∷ [])))
                        (omega (arith, k.count, len)));
            })
      | no late ↦
          let slot : sub32 s.next_id 1 % 256 ≡ length h % 256 = omega (arith, k.next) in
          let t : State = record {
            records = set s.records (length h % 256) v;
            record_count = s.record_count;
            next_id = add32 s.next_id 1;
            dropped = add32 s.dropped 1;
          } in
          let seen : snapshot t ≡ drop 1 (snapshot s) ++ (v ∷ []) =
            view-late s t v (length h) k.sized (omega (arith, k.count)) k.next (omega arith) refl
              (omega (arith, k.count)) (omega (arith, k.next)) in
          let last : length (h ++ (v ∷ [])) ≡ length h + 1 = omega (arith, len) in
          rw (sym k.next, store-late c tick s (omega arith), slot)
            (record {
              sized = length-set s.records (length h % 256) v ∙ k.sized;
              next = omega (arith, k.next, len);
              count = omega (arith, k.count, len);
              lost = omega (arith, k.lost, k.count, len);
              view =
                  seen
                  ∙ ap (λ l. drop 1 l ++ (v ∷ [])) k.view
                  ∙ drop_late h v (omega (arith, k.count))
                  ∙ ap (λ j. drop (j - 256) (h ++ (v ∷ []))) (sym last);
            })
    ]

log-store :
    (c : Claim) (tick : ℕ) (s : State) → input_valid c ≡ true → log c tick s ≡ store c tick s
unfolding log
log-store c tick s e = rw e refl

log-refused : (c : Claim) (tick : ℕ) (s : State) → input_valid c ≡ false → log c tick s ≡ (0, s)
unfolding log
log-refused c tick s e = rw e refl

history-valid :
    (id : ℕ) (c : Claim) (tick : ℕ) (l : List (Claim × ℕ))
    → input_valid c ≡ true
    → history id ((c, tick) ∷ l) ≡ stamped id tick c ∷ history (id + 1) l
unfolding history
history-valid id c tick l e = rw e refl

history-invalid :
    (id : ℕ) (c : Claim) (tick : ℕ) (l : List (Claim × ℕ))
    → input_valid c ≡ false
    → history id ((c, tick) ∷ l) ≡ history id l
unfolding history
history-invalid id c tick l e = rw e refl

history-none : (id : ℕ) → history id [] ≡ []
unfolding history
history-none id = refl

log_all-Keeps :
    (h : List Record) (l : List (Claim × ℕ)) (s : State)
    → Keeps h s
    → length h + length l + 2 < 2 ^ 32
    → Keeps (h ++ history (length h + 1) l) (log_all l s)
unfolding log_all
log_all-Keeps h [] s k small = rw (history-none (length h + 1), append-nil h) k
log_all-Keeps h ((c, tick) ∷ l) s k small = elim (Bool-cases (input_valid c)) [
  | inr bad ↦
      rw (log-refused c tick s bad, history-invalid (length h + 1) c tick l bad)
        (log_all-Keeps h l s k (omega arith))
  | inl good ↦
      let v = stamped (length h + 1) tick c in
      let len : length (h ++ (v ∷ [])) ≡ length h + 1 = length-append h (v ∷ []) in
      rw (log-store c tick s good, history-valid (length h + 1) c tick l good)
        (subst (λ r. Keeps r (log_all l (store c tick s).1))
          (append_assoc h (v ∷ []) (history (length h + 1 + 1) l))
          (subst (λ j. Keeps ((h ++ (v ∷ [])) ++ history (j + 1) l) (log_all l (store c tick s).1))
            len
            (log_all-Keeps (h ++ (v ∷ [])) l (store c tick s).1
              (store-Keeps h c tick s k (omega arith)) (omega (arith, len)))))
]

length-invalidate : (l : List Record) → length (invalidate l) ≡ length l
unfolding invalidate
length-invalidate [] = refl
length-invalidate (r ∷ l) = ap suc (length-invalidate l)

reset-Keeps : (s : State) → length s.records ≡ 256 → Keeps [] (reset s)
unfolding reset copy
reset-Keeps s sized = record {
  sized = length-invalidate s.records ∙ sized;
  next = refl;
  count = refl;
  lost = refl;
  view = refl;
}

-- After `provenance_init` and any calls of `provenance_record`, fewer than 2 ^ 32 - 2, the snapshot
-- is the last 256 of the records with a valid input, oldest first, with consecutive ids from 1;
-- `provenance_dropped` counts the rest.
pub snapshot-log_all :
    (calls : List (Claim × ℕ)) (s : State)
    → length s.records ≡ 256
    → length calls + 2 < 2 ^ 32
    → (snapshot (log_all calls (reset s)) ≡ drop (length (history 1 calls) - 256) (history 1 calls))
      × ((log_all calls (reset s)).dropped ≡ length (history 1 calls) - 256)
snapshot-log_all calls s sized small =
    let k = log_all-Keeps [] calls (reset s) (reset-Keeps s sized) (omega arith) in (k.view, k.lost)
