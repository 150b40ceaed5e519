-- ===== src/Networking/SynCookie/Window.antt =====
-- A cookie is good for the ticks of its bucket and of the next one.
use native.Mathlib.Decide.{ℕ_discrete}
use aevros.Base.{
  ℕ, ◌+◌, ◌^◌, ◌-◌, ◌≤◌, ◌<◌, ◌≡◌, refl, sym, ◌∙◌, ap, Bool, true, false, arith, ltb, ◌==◌, ==_iff,
  if◌then◌else◌, add32, sub32, bit_xor-bound,
}
use aevros.Networking.SynCookie.{
  State, Tuple, Clock, ensure_secret, mix, cookie, bucket_of, compute, generate, validate,
}

-- After the first call the secret stays.
compute-ready :
    (c : Clock) (t : Tuple) (b : ℕ) (s : State)
    → s.secret_ready ≡ true
    → compute c t b s ≡ (cookie s.secret t b, s)
unfolding compute ensure_secret
compute-ready c t b s h = ground (arith, h)

generate-ready : (c : Clock) (t : Tuple) (s : State) → (generate c t s).1.secret_ready ≡ true
unfolding generate compute ensure_secret
generate-ready c t s = ground arith

generate-cookie :
    (c : Clock) (t : Tuple) (s : State)
    → (generate c t s).0 ≡ cookie (generate c t s).1.secret t (bucket_of c.now)
unfolding generate compute
generate-cookie c t s = refl

cookie-word : (secret : ℕ) (t : Tuple) (b : ℕ) → cookie secret t b < 2 ^ 32
unfolding cookie mix
cookie-word secret t b = bit_xor-bound 32 _ _ (omega arith) (omega arith)

validate-shape :
    (c : Clock) (t : Tuple) (n : ℕ) (s : State)
    → s.secret_ready ≡ true
    → (validate c t n s).0 ≡ (
        if sub32 n 1 == cookie s.secret t (bucket_of c.now)
        then true
        else if ltb 0 (bucket_of c.now)
        then (if sub32 n 1 == cookie s.secret t (bucket_of c.now - 1) then true else false)
        else false)
unfolding validate
validate-shape c t n s h =
    ground
      (arith, compute-ready c t (bucket_of c.now) s h, compute-ready c t (bucket_of c.now - 1) s h)

either : (b : Bool) → (if b then true else true) ≡ true
either true = refl
either false = refl

-- The acknowledgement of a cookie passes as long as the clock stands in the bucket of its making or in
-- the next one, whatever the secret, which is drawn at the first call.
pub validate-generate :
    (c d : Clock) (t : Tuple) (s : State)
    → bucket_of c.now ≤ bucket_of d.now
    → bucket_of d.now ≤ bucket_of c.now + 1
    → (validate d t (add32 (generate c t s).0 1) (generate c t s).1).0 ≡ true
validate-generate c d t s low high =
    let s' = (generate c t s).1 in
    let n = (generate c t s).0 in
    let made : n ≡ cookie s'.secret t (bucket_of c.now) = generate-cookie c t s in
    let word : n < 2 ^ 32 = rw made (cookie-word s'.secret t (bucket_of c.now)) in
    let back : sub32 (add32 n 1) 1 ≡ n = omega (arith, word) in
    validate-shape d t (add32 n 1) s' (generate-ready c t s)
    ∙ elim (ℕ_discrete (bucket_of d.now) (bucket_of c.now)) [
      | yes same ↦
          let hit : (n == cookie s'.secret t (bucket_of d.now)) ≡ true =
            (==_iff n (cookie s'.secret t (bucket_of d.now))).1
              (made ∙ ap (cookie s'.secret t) (sym same)) in
          rw (back, hit) refl
      | no next ↦
          let before : bucket_of d.now - 1 ≡ bucket_of c.now = omega (arith, low, high, next) in
          let past : ltb 0 (bucket_of d.now) ≡ true = ground (arith, low, next) in
          let hit : (n == cookie s'.secret t (bucket_of d.now - 1)) ≡ true =
            (==_iff n (cookie s'.secret t (bucket_of d.now - 1))).1
              (made ∙ ap (cookie s'.secret t) (sym before)) in
          rw (back, past, hit) (either (n == cookie s'.secret t (bucket_of d.now)))
    ]
