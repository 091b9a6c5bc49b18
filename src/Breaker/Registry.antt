-- ===== src/Breaker/Registry.antt =====
-- CircuitBreakerRegistry of pkg/resilience/circuit_breaker.go. A breaker in the registry is known by its
-- name, so the breaker that a call returns is the one that `breakers` has at that name. The second
-- look under the write lock finds what the first did, since a call is one step.
use dagens_public.Prelude.{ℕ, ◌≡◌, ◌≢◌, refl, ap, ◌∙◌, Option, none, some, [], ◌∷◌, arith}
use dagens_public.Prelude.Maps.{Map, lookup, insert, lookup-insert, lookup-insert_self}
use dagens_public.Breaker.{
  CircuitBreakerConfig, CircuitBreaker, CircuitState, default_circuit_breaker_config,
  new_circuit_breaker, current_state,
}

pub record CircuitBreakerRegistry : Type 0 where
  pub breakers : Map CircuitBreaker

unfoldable pub new_circuit_breaker_registry : CircuitBreakerRegistry
new_circuit_breaker_registry = record { breakers = [] }

-- The breaker found, or a new one that is put under its name.
unfoldable pub found_or_new :
    CircuitBreakerConfig
    → Option CircuitBreaker
    → CircuitBreakerRegistry
    → CircuitBreaker × CircuitBreakerRegistry
found_or_new config (some cb) r = (cb, r)
found_or_new config none r = (
  new_circuit_breaker config,
  record r { breakers = insert config.name (new_circuit_breaker config) r.breakers },
)

unfoldable pub get_with_config :
    CircuitBreakerConfig → CircuitBreakerRegistry → CircuitBreaker × CircuitBreakerRegistry
get_with_config config r = found_or_new config (lookup config.name r.breakers) r

-- Get.
unfoldable pub get : ℕ → CircuitBreakerRegistry → CircuitBreaker × CircuitBreakerRegistry
get name r = found_or_new (default_circuit_breaker_config name) (lookup name r.breakers) r

pub record CircuitBreakerStats : Type 0 where
  pub name : ℕ
  pub state : CircuitState
  pub failure_count : ℕ
  pub success_count : ℕ

-- The entries of Stats at a time.
unfoldable pub stats : ℕ → Map CircuitBreaker → Map CircuitBreakerStats
stats now [] = []
stats now ((name, cb) ∷ rest) =
    (
      name,
      record {
        name = name;
        state = current_state now cb;
        failure_count = cb.failure_count;
        success_count = cb.success_count;
      },
    )
    ∷ stats now rest

found_or_new_kept :
    (config other : CircuitBreakerConfig) (o : Option CircuitBreaker) (r : CircuitBreakerRegistry)
    → lookup config.name r.breakers ≡ o
    → other.name ≡ config.name
    → get_with_config other (found_or_new config o r).1 ≡ found_or_new config o r
unfolding get_with_config found_or_new
found_or_new_kept config other (some cb) r h n =
    ap (λ (x : Option CircuitBreaker). found_or_new other x r)
      (ap (λ (k : ℕ). lookup k r.breakers) n ∙ h)
found_or_new_kept config other none r h n =
    let cb = new_circuit_breaker config in
    let r' : CircuitBreakerRegistry = record r { breakers = insert config.name cb r.breakers } in
    ap (λ (x : Option CircuitBreaker). found_or_new other x r')
      (ap (λ (k : ℕ). lookup k r'.breakers) n ∙ lookup-insert_self config.name cb r.breakers)

found_or_new_others :
    (config : CircuitBreakerConfig) (o : Option CircuitBreaker) (r : CircuitBreakerRegistry)
    (name : ℕ)
    → config.name ≢ name
    → lookup name (found_or_new config o r).1.breakers ≡ lookup name r.breakers
unfolding found_or_new
found_or_new_others config (some cb) r name n = refl
found_or_new_others config none r name n =
    ground (arith, lookup-insert config.name name (new_circuit_breaker config) r.breakers)

-- Once a breaker has been got under a name, getting it under that name gives the same breaker and the
-- same registry, whatever configuration is asked for the second time; and getting it does not touch
-- the breaker of any other name.
pub get_with_config_again :
    (config other : CircuitBreakerConfig) (r : CircuitBreakerRegistry)
    → other.name ≡ config.name
    → (get_with_config other (get_with_config config r).1 ≡ get_with_config config r)
      × ((name : ℕ)
          → config.name ≢ name
          → lookup name (get_with_config config r).1.breakers ≡ lookup name r.breakers)
unfolding get_with_config
get_with_config_again config other r n = (
  found_or_new_kept config other (lookup config.name r.breakers) r refl n,
  λ name. found_or_new_others config (lookup config.name r.breakers) r name,
)
