-- ===== src/Runtime/World.antt =====
-- The state that the runner works on: both databases, the clock, and its local variables. A call changes
-- the state also where it raises.
use deterministic_cognition.Prelude.{ℕ, suc, Result, ok, err}
use deterministic_cognition.Orchestration.Service.{Store, ServiceError}
use deterministic_cognition.Orchestration.Listing.{ListError}
use deterministic_cognition.Runtime.Store.{RuntimeStore, StoreError}

pub record World : Type 0 where
  pub runtimes : RuntimeStore
  pub tasks : Store
  -- the readings of the clock so far
  pub ticks : ℕ
  pub iteration : ℕ
  pub executed : ℕ

-- `still_running` is the end of the fuel of the `while True` loop.
pub data RunError : Type 0 where
  unbounded keyboard_interrupt still_running : RunError
  store_error : StoreError → RunError
  service_error : ServiceError → RunError
  list_error : ListError → RunError

abbrev pub M : Type 0 → Type 0
M A = World → World × Result RunError A

abbrev pub after :
    {A B : Type 0} → World × Result RunError A → (A → M B) → World × Result RunError B
after (w, ok a) f = f a w
after (w, err e) f = (w, err e)

infixl 5 ◌>>=◌ ◌>>◌
abbrev pub ◌>>=◌ : {A B : Type 0} → M A → (A → M B) → M B
◌>>=◌ m f w = after (m w) f

abbrev pub ◌>>◌ : {A B : Type 0} → M A → M B → M B
◌>>◌ m k w = after (m w) (λ _. k)

abbrev pub pure : {A : Type 0} → A → M A
pure a w = (w, ok a)

abbrev pub raise : {A : Type 0} → RunError → M A
raise e w = (w, err e)

-- what a call of one of the two services leaves
abbrev pub stored :
    {A : Type 0} → World → Result StoreError (RuntimeStore × A) → World × Result RunError A
stored w (ok (s, a)) = (record w { runtimes = s; ticks = suc w.ticks }, ok a)
stored w (err e) = (record w { ticks = suc w.ticks }, err (store_error e))

abbrev pub served :
    {A : Type 0} → World → Result ServiceError (Store × A) → World × Result RunError A
served w (ok (s, a)) = (record w { tasks = s; ticks = suc w.ticks }, ok a)
served w (err e) = (record w { ticks = suc w.ticks }, err (service_error e))

abbrev pub listed : {A : Type 0} → World → Result ListError A → World × Result RunError A
listed w (ok a) = (w, ok a)
listed w (err e) = (w, err (list_error e))
