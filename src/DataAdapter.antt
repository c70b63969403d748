-- ===== src/DataAdapter.antt =====
-- data_adapter_interface.go and data_adapter_example.go: the adapters that keep specs for another
-- run. What the store saves are its effects. `none` is a panic.
use statsig_go_sdk.Prelude.{
  String, Bool, true, false, Option, none, some, List, [], ◌∷◌, or_default,
}
use statsig_go_sdk.Dict.{Dict, lookup, insert}
use statsig_go_sdk.Runtime.{Runtime}
use statsig_go_sdk.Store.State.{Store}
use statsig_go_sdk.Store.Sync.{Effect, save_specs}

-- `CONFIG_SPECS_KEY`
abbrev pub config_specs_key : String
config_specs_key = "statsig.cache"

-- The example with a map, and the one that is polled: their state is the map. The broken example
-- panics on each access.
pub data Example : Type 0 where
  plain polled : Dict String → Example
  broken : Example

-- `Get`
unfoldable pub get : Example → String → Option String
get (plain m) key = some (or_default (lookup key m) "")
get (polled m) key = some (or_default (lookup key m) "")
get broken key = none

-- `Set`
unfoldable pub set : Example → String → String → Option Example
set (plain m) key value = some (plain (insert key value m))
set (polled m) key value = some (polled (insert key value m))
set broken key value = none

-- `ShouldBeUsedForQueryingUpdates`
unfoldable pub should_be_used_for_querying_updates : Example → String → Bool
should_be_used_for_querying_updates (plain m) key = false
should_be_used_for_querying_updates (polled m) key = true
should_be_used_for_querying_updates broken key = false

-- What the adapter does at the effects of the store: a panic of `Set` is recovered.
unfoldable pub saved : Example → List Effect → Example
unfolding set
saved adapter [] = adapter
saved adapter (save_specs text ∷ effects) =
    saved (or_default (set adapter config_specs_key text) adapter) effects
saved adapter (_ ∷ effects) = saved adapter effects

-- An adapter that works: it has a map.
abbrev pub IsWorking : Example → Type 0
IsWorking broken = ⊥
IsWorking _ = Unit
