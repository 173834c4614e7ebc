-- ===== src/Proxy/Pool.antt =====
-- What the router's slots promise to a request, whatever locks they use: a pool of children under
-- identifiers, and those who read them.
pub mod Refine
use maestro_llamacpp.Common.{
  ℕ, Bool, true, false, Option, none, some, List, [], ◌∷◌, ◌≡◌, if◌then◌else◌,
}
use maestro_llamacpp.Common.Text.{Text, text_eq}
use maestro_llamacpp.Proxy.Child.{count_handles}
use maestro_llamacpp.Proxy.Interleaving.{drop_handle}

pub record Pool : Type 0 where
  -- the child that serves an identifier
  pub serving : Text → Option ℕ
  -- the child of each reader
  pub readers : List ℕ
  pub stopped : Bool

abbrev pub no_pool : Pool
no_pool = record { serving = λ id. none; readers = []; stopped = false }

abbrev pub Serves : (Text → Option ℕ) → Pool → Type 0
Serves serving q = (id : Text) → q.serving id ≡ serving id

-- One identifier is served differently.
unfoldable pub put : (Text → Option ℕ) → Text → Option ℕ → Text → Option ℕ
put serving id child j = if text_eq id j then child else serving j

pub data PoolStep (p q : Pool) : Type 0 where
  stays : Serves p.serving q → q.readers ≡ p.readers → q.stopped ≡ p.stopped → PoolStep p q
  -- a reader is given the child that serves
  reads :
      (id : Text) (child : ℕ)
      → p.serving id ≡ some child
      → Serves p.serving q
      → q.readers ≡ child ∷ p.readers
      → q.stopped ≡ p.stopped
      → PoolStep p q
  leaves :
      (child : ℕ)
      → Serves p.serving q
      → q.readers ≡ drop_handle child p.readers
      → q.stopped ≡ p.stopped
      → PoolStep p q
  -- a child is started where none serves, and its first reader is who asked for it
  loads :
      (id : Text) (child : ℕ)
      → p.serving id ≡ none
      → Serves (put p.serving id (some child)) q
      → q.readers ≡ child ∷ p.readers
      → q.stopped ≡ p.stopped
      → PoolStep p q
  -- a child is ended that nobody reads
  unloads :
      (id : Text) (child : ℕ)
      → p.serving id ≡ some child
      → count_handles child p.readers ≡ 0
      → Serves (put p.serving id none) q
      → q.readers ≡ p.readers
      → q.stopped ≡ p.stopped
      → PoolStep p q
  -- the router stops, and ends its children whoever reads them
  halts :
      (id : Text)
      → Serves (put p.serving id none) q
      → q.readers ≡ p.readers
      → q.stopped ≡ true
      → PoolStep p q
