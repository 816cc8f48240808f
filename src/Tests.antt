-- ===== src/Tests.antt =====
-- Concrete inputs on which the code runs, and the theorems at such inputs.
mod SchedulerSamples
mod SchedulerTests
mod StateTests
mod WorkflowTests
mod AgentTests
mod ProtocolTests
mod RetentionTests
mod HerdrTests
mod BudgetTests
mod DelegationTests
mod MetadataTests
mod GraphTests
mod PlanTests
mod IdsTests
mod DeckTests
