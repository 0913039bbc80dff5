-- ===== src/Fork/Monad.antt =====
-- Code that changes a state, fails with an `Error`, or runs a loop that may not end: the `async fn`s
-- of crates/pop-fork, whose `?` is the bind. A failure keeps the state that was reached.
use pop_cli.Fork.Result.{Error, Result, ok, err}

-- `stuck` says that the fuel of a loop ran out.
pub data Outcome (S A : Type 0) : Type 0 where
  returns : A → S → Outcome S A
  raises : Error → S → Outcome S A
  stuck : Outcome S A

abbrev pub M : Type 0 → Type 0 → Type 0
M S A = S → Outcome S A

abbrev pub after : {S A B : Type 0} → Outcome S A → (A → M S B) → Outcome S B
after (returns a s) f = f a s
after (raises e s) f = raises e s
after stuck f = stuck

infixl 5 ◌>>=◌ ◌>>◌
abbrev pub ◌>>=◌ : {S A B : Type 0} → M S A → (A → M S B) → M S B
◌>>=◌ m f s = after (m s) f

abbrev pub ◌>>◌ : {S B : Type 0} → M S (Unit {0}) → M S B → M S B
m >> k = m >>= λ _. k

abbrev pub pure : {S A : Type 0} → A → M S A
pure a s = returns a s

abbrev pub raise : {S A : Type 0} → Error → M S A
raise e s = raises e s

abbrev pub modify : {S : Type 0} → (S → S) → M S (Unit {0})
modify f s = returns tt (f s)

-- A value computed from the state.
abbrev pub gets : {S A : Type 0} → (S → A) → M S A
gets f s = returns (f s) s

abbrev pub lift : {S A : Type 0} → Result A → M S A
lift (ok a) s = returns a s
lift (err e) s = raises e s

abbrev pub recover : {S A : Type 0} → Outcome S A → M S A → Outcome S A
recover (returns a s) handler = returns a s
recover (raises e s) handler = handler s
recover stuck handler = stuck

-- `match m { Ok(a) => a, Err(_) => handler }`
abbrev pub or_recover : {S A : Type 0} → M S A → M S A → M S A
or_recover m handler s = recover (m s) handler

-- `Q` holds of what is returned, `E` of the state at a failure, and no loop is stuck.
pub data Ensures {S A : Type 0} (Q : A → S → Type 0) (E : S → Type 0) : Outcome S A → Type 0 where
  returned : {a : A} {s : S} → Q a s → Ensures Q E (returns a s)
  raised : {e : Error} {s : S} → E s → Ensures Q E (raises e s)

pub after-Ensures :
    {S A B : Type 0} {Q : A → S → Type 0} {R : B → S → Type 0} {E : S → Type 0} {o : Outcome S A}
    (f : A → M S B)
    → Ensures Q E o
    → ((a : A) (s : S) → Q a s → Ensures R E (f a s))
    → Ensures R E (after o f)
after-Ensures f (returned {a} {s} q) k = k a s q
after-Ensures f (raised e) k = raised e

pub recover-Ensures :
    {S A : Type 0} {Q : A → S → Type 0} {E F : S → Type 0} {o : Outcome S A} (handler : M S A)
    → Ensures Q F o
    → ((s : S) → F s → Ensures Q E (handler s))
    → Ensures Q E (recover o handler)
recover-Ensures handler (returned q) k = returned q
recover-Ensures handler (raised {s} e) k = k s e

pub weaken-Ensures :
    {S A : Type 0} {Q R : A → S → Type 0} {E F : S → Type 0} {o : Outcome S A}
    → Ensures Q E o
    → ((a : A) (s : S) → Q a s → R a s)
    → ((s : S) → E s → F s)
    → Ensures R F o
weaken-Ensures (returned {a} {s} q) f g = returned (f a s q)
weaken-Ensures (raised {s} e) f g = raised (g s e)

-- From states of `P`, the code returns in one of `Q` or fails.
abbrev pub Moves : {S A : Type 0} → (S → Type 0) → (S → Type 0) → M S A → Type 0
Moves {S} P Q m = (s : S) → P s → Ensures (λ _ s'. Q s') (λ _. Unit {0}) (m s)

pub Moves-bind :
    {S A B : Type 0} {P Q R : S → Type 0} {m : M S A} {f : A → M S B}
    → Moves P Q m
    → ((a : A) → Moves Q R (f a))
    → Moves P R (m >>= f)
Moves-bind {f = f} h k s p = after-Ensures f (h s p) (λ a s' q. k a s' q)

pub both-Ensures :
    {S A : Type 0} {Q R : A → S → Type 0} {E F : S → Type 0} {o : Outcome S A}
    → Ensures Q E o
    → Ensures R F o
    → Ensures (λ a s. Q a s × R a s) E o
both-Ensures (returned q) (returned r) = returned (q, r)
both-Ensures (raised e) (raised f) = raised e

pub pure-Moves : {S A : Type 0} {P : S → Type 0} (a : A) → Moves {S = S} P P (pure a)
pure-Moves a s p = returned p

-- It keeps `P`, also where it fails.
abbrev pub Preserves : {S A : Type 0} → (S → Type 0) → M S A → Type 0
Preserves {S} P m = (s : S) → P s → Ensures (λ _ s'. P s') P (m s)

pub Preserves-bind :
    {S A B : Type 0} {P : S → Type 0} {m : M S A} {f : A → M S B}
    → Preserves P m
    → ((a : A) → Preserves P (f a))
    → Preserves P (m >>= f)
Preserves-bind {f = f} h k s p = after-Ensures f (h s p) (λ a s' q. k a s' q)

-- However it ends: `Q` holds of what is returned, `E` of the state at a failure.
pub data OnEnd {S A : Type 0} (Q : A → S → Type 0) (E : S → Type 0) : Outcome S A → Type 0 where
  on_value : {a : A} {s : S} → Q a s → OnEnd Q E (returns a s)
  on_error : {e : Error} {s : S} → E s → OnEnd Q E (raises e s)
  on_stuck : OnEnd Q E stuck

pub after-OnEnd :
    {S A B : Type 0} {Q : A → S → Type 0} {R : B → S → Type 0} {E : S → Type 0} {o : Outcome S A}
    (f : A → M S B)
    → OnEnd Q E o
    → ((a : A) (s : S) → Q a s → OnEnd R E (f a s))
    → OnEnd R E (after o f)
after-OnEnd f (on_value {a} {s} q) k = k a s q
after-OnEnd f (on_error e) k = on_error e
after-OnEnd f on_stuck k = on_stuck

pub weaken-OnEnd :
    {S A : Type 0} {Q R : A → S → Type 0} {E F : S → Type 0} {o : Outcome S A}
    → OnEnd Q E o
    → ((a : A) (s : S) → Q a s → R a s)
    → ((s : S) → E s → F s)
    → OnEnd R F o
weaken-OnEnd (on_value {a} {s} q) f g = on_value (f a s q)
weaken-OnEnd (on_error {s = s} e) f g = on_error (g s e)
weaken-OnEnd on_stuck f g = on_stuck
