-- ===== src/Common.antt =====
-- pkg/common/common.go: polling and topology. `IsNotFound` is in Status.
pub mod Waiting
pub mod Tests
use huaweicloud_csi_driver.Prelude.{
  ℕ, suc, ◌≡◌, String, Bool, true, false, Option, none, some, List, [], ◌∷◌,
}
use huaweicloud_csi_driver.Prelude.Dict.{lookup}
use huaweicloud_csi_driver.Status.{Result, ok, err, wait_timeout}
use huaweicloud_csi_driver.Effect.{M, pure, fail, ◌>>=◌}
use huaweicloud_csi_driver.Csi.{Topology, TopologyRequirement}

-- wait.Backoff: the first delay in seconds, the factor in hundredths, the number of polls
pub record Backoff : Type 0 where
  pub duration : ℕ
  pub factor : ℕ
  pub steps : ℕ

-- wait.ExponentialBackoff of k8s.io/apimachinery, over any state that the condition changes. What
-- happens to the cloud between two polls is part of the effect of the next poll's calls.
pub record Timer : Type 1 where
  pub exponential_backoff : (S : Type 0) → Backoff → M S Bool → M S (Unit {0})

-- A poll that is not done goes on with the rest.
abbrev pub poll : {S : Type 0} → M S Bool → M S (Unit {0}) → M S (Unit {0})
poll condition rest = condition >>= λ done. elim done [ true ↦ pure tt | false ↦ rest ]

-- Its documented behaviour: it polls until the condition is true or fails, at most `steps` times,
-- each time after a new delay.
pub record IsTimer (t : Timer) : Type 1 where
  pub times_out :
      (S : Type 0) (duration factor : ℕ) (condition : M S Bool) (s : S)
      → t.exponential_backoff S
          (record { duration = duration; factor = factor; steps = 0 })
          condition
          s
        ≡ (err wait_timeout, s)
  pub polls :
      (S : Type 0) (duration factor steps : ℕ) (condition : M S Bool)
      → (next : ℕ) × ((s : S)
          → t.exponential_backoff S
              (record { duration = duration; factor = factor; steps = suc steps })
              condition
              s
            ≡ poll condition
                (t.exponential_backoff S
                  (record { duration = next; factor = factor; steps = steps })
                  condition)
                s)

-- DefaultInitDelay, DefaultFactor, DefaultSteps
abbrev pub default_backoff : Backoff
default_backoff = record { duration = 2; factor = 102; steps = 30 }

unfoldable pub wait_for_completed : {S : Type 0} → Timer → M S Bool → M S (Unit {0})
wait_for_completed {S} t condition = t.exponential_backoff S default_backoff condition

-- The loop of GetAZFromTopology over one list: the first zone that a topology names.
unfoldable pub first_zone : String → List Topology → Option String
first_zone key [] = none
first_zone key (topology ∷ rest) = elim (lookup key topology.segments) [
  | none ↦ first_zone key rest
  | some zone ↦ some zone
]

abbrev or_else_zone : Option String → Option String → String
or_else_zone (some zone) _ = zone
or_else_zone none (some zone) = zone
or_else_zone none none = ""

-- GetAZFromTopology; the getters of a nil requirement give empty lists.
unfoldable pub get_az_from_topology : Option TopologyRequirement → String → String
unfolding first_zone
get_az_from_topology none key = ""
get_az_from_topology (some req) key =
    or_else_zone (first_zone key req.preferred) (first_zone key req.requisite)
