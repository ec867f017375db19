-- ===== src/Scenario.antt =====
-- pkg/scenario: the phases of a run, its schedule, and the runner that drives the other packages.
pub mod Lifecycle
pub mod Components
pub mod Runner
pub mod Examples
