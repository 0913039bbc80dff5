-- ===== src/Fork/Builder/Hosts.antt =====
-- What a runtime and the providers of inherents may do to the database.
use pop_cli.Prelude.{Option, All}
use pop_cli.Bytes.{Bytes}
use pop_cli.Fork.Monad.{M, Ensures, weaken-Ensures, Moves}
use pop_cli.Fork.Rpc.{Rpc}
use pop_cli.Fork.Cache.Tables.{Db}
use pop_cli.Fork.Remote.{Env}
use pop_cli.Fork.Remote.Sound.{IsCacheOf, SameHistory, Kept}
use pop_cli.Fork.Remote.Sound.Pages.{SameHistory-trans}
use pop_cli.Fork.Local.{Shared, Layer}
use pop_cli.Fork.Block.{Block}
use pop_cli.Fork.Builder.{RuntimeApi, Runtime}
use pop_cli.Fork.Builder.Laws.{Answers}

-- It ends, also if it fails it leaves the history of local values, and what it caches is of the chain.
abbrev pub Unharmed : (Bytes → Bytes → Option Bytes) → Db → Db → Type 0
Unharmed chain db db' = SameHistory db db' × (IsCacheOf chain db → IsCacheOf chain db')

abbrev pub Harmless :
    {rpc : Rpc} {A : Type 0} → (Bytes → Bytes → Option Bytes) → M (Env rpc) A → Type 0
Harmless {rpc} chain m =
    (env : Env rpc)
    → Ensures (λ _ s. Unharmed chain env.db s.db) (λ s. Unharmed chain env.db s.db) (m env)

pub Unharmed-Kept :
    {chain : Bytes → Bytes → Option Bytes} (db₀ : Db) {db db' : Db}
    → Kept chain db₀ db
    → Unharmed chain db db'
    → Kept chain db₀ db'
Unharmed-Kept db₀ kept u = (u.1 kept.0, SameHistory-trans kept.1 u.0)

-- The runtime reads and caches through the layer; only the builder writes what it returns.
pub record Hosts {rpc : Rpc} (chain : Bytes → Bytes → Option Bytes) (runtime : Runtime rpc)
    : Type 0 where
  pub executes :
      (api : RuntimeApi) (arguments : Bytes) (layer : Layer rpc)
      → Harmless chain (runtime.execute api arguments layer)
  pub provides :
      All
        (λ provider. (shared : Shared rpc) (block : Block) → Harmless chain (provider shared block))
        runtime.providers

pub Harmless-Kept :
    {rpc : Rpc} {A : Type 0} {chain : Bytes → Bytes → Option Bytes} {m : M (Env rpc) A} (db₀ : Db)
    → Harmless chain m
    → Moves (λ s. Kept chain db₀ s.db) (λ s. Kept chain db₀ s.db) m
Harmless-Kept db₀ h s kept = weaken-Ensures (h s) (λ _ _ u. Unharmed-Kept db₀ kept u) (λ _ _. tt)

pub Hosts-Answers :
    {rpc : Rpc} {chain : Bytes → Bytes → Option Bytes} {runtime : Runtime rpc}
    → Hosts chain runtime
    → Answers runtime (Unit {0})
Hosts-Answers hosts = record {
  executes = λ api arguments layer env.
      weaken-Ensures (hosts.executes api arguments layer env) (λ _ _ _. tt) (λ _ _. tt);
}
