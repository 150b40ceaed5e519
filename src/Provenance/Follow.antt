-- ===== src/Provenance/Follow.antt =====
-- What following one record does to a walk.
use aevros.Base.{
  ◌+◌, ◌<◌, ◌≤◌, ◌≡◌, refl, ap, ◌∙◌, inl, inr, Bool, true, false, List, [], ◌∷◌, ◌++◌, ltb, length,
  length-append, arith, Bool-cases, append_assoc,
}
use aevros.Provenance.{Entity, Record, Walk, max_records, next_of, is_visited, follow}
use aevros.Provenance.Reach.{In}
use aevros.Provenance.Visited.{entity_equal_refl, is_visited_end, Distinct, Distinct-end}

-- What holds of the walk with the entities `done`: the queue is what was visited and is not done.
pub record Orderly (done : List Entity) (w : Walk) : Type 0 where
  pub split : w.visited ≡ done ++ w.queue
  pub distinct : Distinct w.visited
  pub few : length w.visited ≤ length w.results + 1

-- The walk has the record, and has visited where it leads.
abbrev pub Followed : Bool → Walk → Record → Type 0
Followed forward w r = In r w.results × (is_visited (next_of forward r) w.visited ≡ true)

pub record Later (w t : Walk) : Type 0 where
  pub keeps : (r : Record) → In r w.results → In r t.results
  pub sees : (e : Entity) → is_visited e w.visited ≡ true → is_visited e t.visited ≡ true

In-front : (r : Record) (l m : List Record) → In r l → In r (l ++ m)
In-front r [] m h = absurd h
In-front r (x ∷ l) m (inl e) = inl e
In-front r (x ∷ l) m (inr h) = inr (In-front r l m h)

In-end : (r : Record) (l : List Record) → In r (l ++ (r ∷ []))
In-end r [] = inl refl
In-end r (x ∷ l) = inr (In-end r l)

follow-new :
    (forward : Bool) (r : Record) (w : Walk)
    → is_visited (next_of forward r) w.visited ≡ false
    → length w.visited ≤ 256
    → follow forward r w ≡ record {
      queue = w.queue ++ (next_of forward r ∷ []);
      visited = w.visited ++ (next_of forward r ∷ []);
      results = w.results ++ (r ∷ []);
    }
unfolding follow
follow-new forward r w h le =
    let room : ltb (length w.visited) (max_records + 1) ≡ true = ground (arith, le) in
    rw (h, room) refl

follow-seen :
    (forward : Bool) (r : Record) (w : Walk)
    → is_visited (next_of forward r) w.visited ≡ true
    → follow forward r w ≡ record w { results = w.results ++ (r ∷ []) }
unfolding follow
follow-seen forward r w h = rw h refl

-- What following a record does.
pub record Follows (forward : Bool) (done : List Entity) (r : Record) (w t : Walk) : Type 0 where
  pub orderly : Orderly done t
  pub later : Later w t
  pub followed : Followed forward t r
  pub one : length t.results ≡ length w.results + 1

pub follow-Follows :
    (forward : Bool) (done : List Entity) (r : Record) (w : Walk)
    → Orderly done w
    → length w.results < 256
    → Follows forward done r w (follow forward r w)
follow-Follows forward done r w o room =
    let next = next_of forward r in
    elim (Bool-cases (is_visited next w.visited)) [
      | inl seen ↦ rw (follow-seen forward r w seen) (record {
        orderly = record {
          split = o.split;
          distinct = o.distinct;
          few = omega (arith, o.few, length-append w.results (r ∷ []));
        };
        later = record { keeps = λ x h. In-front x w.results (r ∷ []) h; sees = λ e h. h };
        followed = (In-end r w.results, seen);
        one = length-append w.results (r ∷ []);
      })
      | inr new ↦ rw (follow-new forward r w new (omega (arith, o.few))) (record {
        orderly = record {
          split = ap (λ l. l ++ (next ∷ [])) o.split ∙ append_assoc done w.queue (next ∷ []);
          distinct = Distinct-end next w.visited o.distinct new;
          few =
              omega (
                arith,
                o.few,
                length-append w.results (r ∷ []),
                length-append w.visited (next ∷ []),
              );
        };
        later = record {
          keeps = λ x h. In-front x w.results (r ∷ []) h;
          sees = λ e h. ground (arith, is_visited_end e next w.visited, h);
        };
        followed = (
          In-end r w.results,
          ground (arith, is_visited_end next next w.visited, entity_equal_refl next),
        );
        one = length-append w.results (r ∷ []);
      })
    ]
