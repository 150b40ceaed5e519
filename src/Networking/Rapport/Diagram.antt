-- ===== src/Networking/Rapport/Diagram.antt =====
-- The diagram of the states of a conversation.
use aevros.Base.{
  ℕ, zero, suc, ◌≡◌, refl, ◌⊎◌, inl, inr, Bool, List, [], ◌∷◌, sym, ap, subst, if_both,
  if◌then◌else◌, update_at, get_or,
}
use aevros.Networking.Conversation.{
  Status, closed, syn_sent, syn_received, established, closing, time_wait, fin_wait_1, fin_wait_2,
  close_wait, last_ack,
}
use aevros.Networking.Rapport.{State}

pub data Event : Type 0 where
  syn connect syn_ack ack fin close rst clock : Event

-- The arrows, each under what causes it.
pub data Arrow : Event → Status → Status → Type 0 where
  greeted : {a : Status} → Arrow syn a syn_received
  reached_out : {a : Status} → Arrow connect a syn_sent
  answered : Arrow syn_ack syn_sent established
  heard : Arrow ack syn_received established
  we_close : Arrow close established fin_wait_1
  we_close_too : Arrow close close_wait last_ack
  our_fin_heard : Arrow ack fin_wait_1 fin_wait_2
  both_heard : Arrow ack closing time_wait
  last_heard : Arrow ack last_ack closed
  they_close : Arrow fin established close_wait
  at_once : Arrow fin fin_wait_1 closing
  they_close_too : Arrow fin fin_wait_2 time_wait
  hung_up : {a : Status} → Arrow rst a closed
  waited : Arrow clock time_wait closed

-- The table is as before, or one conversation took one arrow.
abbrev pub Moves : Event → ℕ → List Status → List Status → Type 0
Moves e id before after =
    (after ≡ before)
    ⊎ ((x : Status) × Arrow e (get_or before id closed) x × (after ≡ update_at id (λ _. x) before))

-- Any number of them.
pub data Trail (e : Event) : List Status → List Status → Type 0 where
  stop : {a : List Status} → Trail e a a
  go : (id : ℕ) {a b c : List Status} → Moves e id a b → Trail e b c → Trail e a c

abbrev pub table : State → List Status
table s = s.sched.status

update_at-same : (id : ℕ) (xs : List Status) → update_at id (λ _. get_or xs id closed) xs ≡ xs
update_at-same zero [] = refl
update_at-same (suc id) [] = refl
update_at-same zero (x ∷ xs) = refl
update_at-same (suc id) (x ∷ xs) = ap (◌∷◌ x) (update_at-same id xs)

-- A write of the state at the end of an arrow.
pub taken :
    {e : Event} (id : ℕ) (before : List Status) {a x : Status}
    → get_or before id closed ≡ a
    → Arrow e a x
    → Moves e id before (update_at id (λ _. x) before)
taken {e} id before {a = a} {x = x} at arrow =
    inr (x, subst (λ b. Arrow e b x) (sym at) arrow, refl)

-- A write of the state that is there.
pub kept :
    {e : Event} (id : ℕ) (before : List Status) {a : Status}
    → get_or before id closed ≡ a
    → Moves e id before (update_at id (λ _. a) before)
kept id before at =
    inl (subst (λ b. update_at id (λ _. b) before ≡ before) at (update_at-same id before))

-- A move under a test.
pub taken_if :
    (e : Event) (id : ℕ) (b : Bool) (s t : State)
    → Moves e id (table s) (table t)
    → Moves e id (table s) (table (if b then t else s))
taken_if e id b s t m = if_both (λ r. Moves e id (table s) (table r)) b t s m (inl refl)
