-- ===== src/Tests.antt =====
-- Concrete inputs and what the theorems say of them.
mod ForwardRuns
mod DecisionRuns
mod StreamRuns
mod ContinuationRuns
mod RuntimeRuns
mod ResponseRuns
mod LifecycleRuns
mod UsageRuns
mod RequestRuns
mod ProviderRuns
mod IngressRuns
