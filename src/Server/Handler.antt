-- ===== src/Server/Handler.antt =====
-- Handlers: code that asks the fork, and ends with an answer or a refusal.
use pop_cli.Prelude.{◌≡◌, refl}
use pop_cli.Fork.Result.{Error}
use pop_cli.Fork.Monad.{Outcome, returns, raises, stuck, M, Ensures, returned, raised}
use pop_cli.Server.Error.{RpcServerError, RpcResult, answer, refuse}

abbrev pub Handler : Type 0 → Type 0 → Type 0
Handler W A = M W (RpcResult A)

abbrev pub after_answer :
    {W A B : Type 0} → Outcome W (RpcResult A) → (A → Handler W B) → Outcome W (RpcResult B)
after_answer (returns (answer a) w) f = f a w
after_answer (returns (refuse e) w) f = returns (refuse e) w
after_answer (raises e w) f = raises e w
after_answer stuck f = stuck

infixl 5 ◌>>=◌
abbrev pub ◌>>=◌ : {W A B : Type 0} → Handler W A → (A → Handler W B) → Handler W B
◌>>=◌ m f w = after_answer (m w) f

abbrev pub reply : {W A : Type 0} → A → Handler W A
reply a w = returns (answer a) w

abbrev pub of_result : {W A : Type 0} → RpcResult A → Handler W A
of_result r w = returns r w

abbrev pub caught :
    {W A : Type 0} → (Error → RpcServerError) → Outcome W A → Outcome W (RpcResult A)
caught f (returns a w) = returns (answer a) w
caught f (raises e w) = returns (refuse (f e)) w
caught f stuck = stuck

-- `.map_err(…)?` on a call of the fork.
abbrev pub or_refuse : {W A : Type 0} → (Error → RpcServerError) → M W A → Handler W A
or_refuse f m w = caught f (m w)

-- The handler ends, `I` holds of the state at the end, and an answer meets `Q`.
pub data Replies {W A : Type 0} (I : W → Type 0) (Q : A → Type 0)
    : Outcome W (RpcResult A) → Type 0 where
  answered : {a : A} {w : W} → I w → Q a → Replies I Q (returns (answer a) w)
  refused : {e : RpcServerError} {w : W} → I w → Replies I Q (returns (refuse e) w)

pub Replies-bind :
    {W A B : Type 0} {I : W → Type 0} {Q : A → Type 0} {R : B → Type 0}
    {o : Outcome W (RpcResult A)} (f : A → Handler W B)
    → Replies I Q o
    → ((a : A) (w : W) → I w → Q a → Replies I R (f a w))
    → Replies I R (after_answer o f)
Replies-bind f (answered {a} {w} i q) k = k a w i q
Replies-bind f (refused i) k = refused i

-- A call of the fork that keeps `I`.
pub Replies-caught :
    {W A : Type 0} {I : W → Type 0} {Q : A → Type 0} {o : Outcome W A} (f : Error → RpcServerError)
    → Ensures (λ a w. I w × Q a) I o
    → Replies I Q (caught f o)
Replies-caught f (returned q) = answered q.0 q.1
Replies-caught f (raised i) = refused i

pub Replies-result :
    {W A : Type 0} {I : W → Type 0} (r : RpcResult A) (w : W)
    → I w
    → Replies I (λ a. r ≡ answer a) (of_result r w)
Replies-result (answer a) w i = answered i refl
Replies-result (refuse e) w i = refused i

pub Replies-weaken :
    {W A : Type 0} {I : W → Type 0} {Q R : A → Type 0} {o : Outcome W (RpcResult A)}
    → Replies I Q o
    → ((a : A) → Q a → R a)
    → Replies I R o
Replies-weaken (answered {a} i q) f = answered i (f a q)
Replies-weaken (refused i) f = refused i
