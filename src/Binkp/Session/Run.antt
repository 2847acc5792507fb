-- ===== src/Binkp/Session/Run.antt =====
-- The whole run of a session, `ftn_binkp_session_run` of src/binkp/session.c: its results and its
-- deadline.
use lib_ftn.Common.{ℕ, ◌+◌, ◌-◌, ◌/◌, ◌<◌, Bool, true, false, none, some, List, arith}
use lib_ftn.Common.{refl, ◌≡◌, ◌≢◌, ◌⊎◌, inl, inr, if◌then◌else◌, ◌||◌, ltb, lt→ltb, zero, suc}
use lib_ftn.Config.{Config}
use lib_ftn.Net.{Connection}
use lib_ftn.Binkp.Status.{Status, ok, timeout}
use lib_ftn.Binkp.Session.{Session, Outcome, session_init}
use lib_ftn.Binkp.Session.States.{State, done, error, is_done, is_error}
use lib_ftn.Binkp.Session.Handlers.{session_step, Run, returned, waiting, out_of_rounds}
use lib_ftn.Binkp.Session.Handlers.{run_on, run_loop, run_end, session_run}
use lib_ftn.Binkp.Session.Invariant.{plays, IsSound, Ensures, moved}
use lib_ftn.Binkp.Session.Steps.{session_step-Ensures}

pub session_init-IsSound :
    (conn : Connection) (c : Config) (o : Bool) → IsSound c o 300000 (session_init conn c o)
unfolding session_init plays
session_init-IsSound conn c true = record {
  config_kept = refl;
  side_kept = refl;
  limit_kept = refl;
  side = refl;
  secure = refl;
  known = inl refl;
}
session_init-IsSound conn c false = record {
  config_kept = refl;
  side_kept = refl;
  limit_kept = refl;
  side = refl;
  secure = refl;
  known = inl refl;
}

-- A code agrees with the state that the session ends in.
abbrev pub Agrees : Status → State → Type 0
Agrees code state = ((code ≡ ok) × (state ≡ done)) ⊎ ((code ≢ ok) × (state ≡ error))

is_error-error : (state : State) → is_error state ≡ true → state ≡ error
unfolding is_error
is_error-error state h = ground arith

is_done-done : (state : State) → is_done state ≡ true → state ≡ done
unfolding is_done
is_done-done state h = ground arith

or_false : (b : Bool) → (b || false) ≡ b
or_false true = refl
or_false false = refl

module _ (c : Config) (o : Bool) (limit : ℕ) where
  -- A run that returns leaves a sound session, in the state its code tells.
  abbrev pub EndsWell : Run → Type 0
  EndsWell waiting = Unit
  EndsWell out_of_rounds = Unit
  EndsWell (returned code s) = IsSound c o limit s × Agrees code s.state

  EndsWell-if :
      (b : Bool) (x y : Run)
      → (b ≡ true → EndsWell x)
      → (b ≡ false → EndsWell y)
      → EndsWell (if b then x else y)
  EndsWell-if true x y h k = h refl
  EndsWell-if false x y h k = k refl

  failed :
      (code : Status) (s : Session)
      → IsSound c o limit s
      → code ≢ ok
      → EndsWell (returned code (record s { state = error }))
  failed code s h n = (moved c o limit s error h (unfold plays in refl), inr (n, refl))

  run_on-EndsWell :
      (m : Outcome) (next : Session → Run)
      → Ensures (IsSound c o limit) m
      → ((s : Session) → IsSound c o limit s → EndsWell (next s))
      → EndsWell (run_on m next)
  unfolding run_on
  run_on-EndsWell none next h k = tt
  run_on-EndsWell (some (Status.ok, s)) next h k = k s h
  run_on-EndsWell (some (code, s)) next h k = failed code s h (λ e. ground arith)

  run_end-EndsWell :
      (stack : List ℕ) (clock : ℕ → ℕ) (s : Session)
      → IsSound c o limit s
      → (is_done s.state || is_error s.state) ≡ true
      → EndsWell (run_end stack clock s)
  unfolding run_end
  run_end-EndsWell stack clock s h e =
      EndsWell-if (is_error s.state) _ _
        (λ q. (h, inr ((λ n. ground arith), is_error-error s.state q)))
        (λ q. (h, inl (refl, is_done-done s.state (cc (e, q, or_false (is_done s.state))))))

  run_loop-EndsWell :
      (stack : List ℕ) (clock : ℕ → ℕ) (rounds i start : ℕ) (s : Session)
      → IsSound c o limit s
      → EndsWell (run_loop stack clock rounds i start s)
  unfolding run_loop
  run_loop-EndsWell stack clock zero i start s h = tt
  run_loop-EndsWell stack clock (suc rounds) i start s h =
      EndsWell-if (is_done s.state || is_error s.state) _ _ (run_end-EndsWell stack clock s h) λ _.
        EndsWell-if (ltb (s.session_timeout_ms / 1000) (clock i - start)) _ _
          (λ _. failed timeout s h (λ e. ground arith))
          (λ _.
            run_on-EndsWell (session_step stack s) _ (session_step-Ensures c limit stack o s h)
              (λ s' h'. run_loop-EndsWell stack clock rounds (suc i) start s' h'))

  -- A round at which the time is over ends the loop, if it gets that far.
  run_on-ends :
      (m : Outcome) (next : Session → Run)
      → Ensures (IsSound c o limit) m
      → ((s : Session) → IsSound c o limit s → next s ≢ out_of_rounds)
      → run_on m next ≢ out_of_rounds
  unfolding run_on
  run_on-ends none next h k e = ground arith
  run_on-ends (some (Status.ok, s)) next h k e = k s h e
  run_on-ends (some (code, s)) next h k e = ground arith

  if-ends :
      (b : Bool) (x y : Run)
      → (b ≡ true → x ≢ out_of_rounds)
      → (b ≡ false → y ≢ out_of_rounds)
      → (if b then x else y) ≢ out_of_rounds
  if-ends true x y h k = h refl
  if-ends false x y h k = k refl

  run_end-ends :
      (stack : List ℕ) (clock : ℕ → ℕ) (s : Session) → run_end stack clock s ≢ out_of_rounds
  unfolding run_end
  run_end-ends stack clock s =
      if-ends (is_error s.state) _ _ (λ _ e. ground arith) (λ _ e. ground arith)

  run_loop-ends :
      (stack : List ℕ) (clock : ℕ → ℕ) (rounds i start k : ℕ) (s : Session)
      → IsSound c o limit s
      → k < rounds
      → limit / 1000 < clock (i + k) - start
      → run_loop stack clock rounds i start s ≢ out_of_rounds
  unfolding run_loop
  run_loop-ends stack clock zero i start k s h lt late = ground arith
  run_loop-ends stack clock (suc rounds) i start zero s h lt late =
      if-ends (is_done s.state || is_error s.state) _ _ (λ _. run_end-ends stack clock s)
        λ _.
          if-ends (ltb (s.session_timeout_ms / 1000) (clock i - start)) _ _ (λ _ e. ground arith)
            (λ early. absurd (over (cc (early, h.limit_kept)) late))
    where
      over : ltb (limit / 1000) (clock i - start) ≡ false → limit / 1000 < clock (i + 0) - start → ⊥
      over early late =
          let here : i + 0 ≡ i = omega arith in
          cc (early, lt→ltb (limit / 1000) (clock i - start) (rw here at late))
  run_loop-ends stack clock (suc rounds) i start (suc k) s h lt late =
      let next : i + suc k ≡ suc i + k = omega arith in
      if-ends (is_done s.state || is_error s.state) _ _ (λ _. run_end-ends stack clock s)
        λ _.
          if-ends (ltb (s.session_timeout_ms / 1000) (clock i - start)) _ _ (λ _ e. ground arith)
            (λ _.
              run_on-ends (session_step stack s) _ (session_step-Ensures c limit stack o s h)
                (λ s' h'.
                  run_loop-ends stack clock rounds (suc i) start k s' h' (omega arith)
                    (rw next at late)))

module _ (stack : List ℕ) (clock : ℕ → ℕ) (rounds : ℕ) (conn : Connection) (c : Config)
    (o : Bool) where
  -- A run of a fresh session that returns leaves a session of the same side and configuration, in
  -- a state of that side, secure exactly if it is authenticated, and authenticated only where a
  -- password is configured. It returns success exactly with the session done, and any other code
  -- with the session in the error state.
  pub session_run-EndsWell :
      EndsWell c o 300000 (session_run stack clock rounds (session_init conn c o))
  unfolding session_run
  session_run-EndsWell =
      run_loop-EndsWell c o 300000 stack clock rounds 1 (clock 0) (session_init conn c o)
        (session_init-IsSound conn c o)

  -- A run of a fresh session goes through no more rounds than the clock lets it: if in one of
  -- the rounds more than 300 seconds have passed since the start, the run has ended by then, by
  -- its return or in a call that waits for the peer.
  pub session_run-ne-out_of_rounds :
      (k : ℕ)
      → k < rounds
      → 300 < clock (1 + k) - clock 0
      → session_run stack clock rounds (session_init conn c o) ≢ out_of_rounds
  unfolding session_run
  session_run-ne-out_of_rounds k lt late =
      run_loop-ends c o 300000 stack clock rounds 1 (clock 0) k (session_init conn c o)
        (session_init-IsSound conn c o) lt late
