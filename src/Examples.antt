-- ===== src/Examples.antt =====
-- The theorems at concrete data, and tests of the definitions on inputs that can be followed in the source.
mod Libraries
mod BindingRuns
mod UtilityRuns
mod CommandRuns
mod SuiteRuns
mod TestnetRuns
mod AcceptanceRuns
mod LocalRuns
mod ContractRuns
mod RelayRuns
mod DeploymentRuns
