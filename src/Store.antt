-- ===== src/Store.antt =====
-- src/store/mod.rs: the errors and the interface of the route stores. An operation runs against the
-- state `S` of its backend, and may panic. `now` is what the clock reads while it runs.
pub mod Memory
pub mod Contract
pub mod Exact
pub mod Redis
pub mod Sidecar
use pingora_reverse_proxy.Prelude.{ℕ, suc, Option, Result, Text}
use pingora_reverse_proxy.Map.{Map}
use pingora_reverse_proxy.Route.{RouteKey, RouteData, Instant}

-- A function that is called at the backend's commit boundary. It may read a state that others
-- change, so it is what its calls return during an operation, by their number from 0.
abbrev pub ActivityFloor : Type 0
ActivityFloor = ℕ → Option Instant

unfoldable pub fixed : Option Instant → ActivityFloor
fixed at = λ _. at

-- The next call, and the calls after it.
abbrev pub current : ActivityFloor → Option Instant
current floor = floor 0

abbrev pub later : ActivityFloor → ActivityFloor
later floor = λ i. floor (suc i)

pub data StoreError : Type 0 where
  message : Text → StoreError
  backend : Text → StoreError
  indeterminate : Text → StoreError
  corrupt_data : Text → Text → StoreError

-- How a supervised call ends: with its result, or by a panic that `catch_unwind` catches.
pub data Outcome (A : Type 0) : Type 0 where
  done : Result StoreError A → Outcome A
  panicked : Outcome A

pub record Store (S X : Type 0) : Type 0 where
  pub snapshot : S → Outcome (Map RouteKey (RouteData X))
  pub add : Instant → RouteKey → Text → X → ActivityFloor → S → Outcome (RouteData X) × S
  pub put : RouteKey → RouteData X → S → Outcome (Unit {0}) × S
  pub put_preserving_activity :
      RouteKey → RouteData X → ActivityFloor → S → Outcome (RouteData X) × S
  pub update_activity : RouteKey → Instant → S → Outcome (Unit {0}) × S
  pub delete : RouteKey → S → Outcome (Option (RouteData X)) × S
