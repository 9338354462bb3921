-- ===== src/Controller.antt =====
-- pkg/controllers: the reconciler of DIJobs and the handlers of their events.
pub mod Replicas
pub mod Checks
pub mod Steps
pub mod Reconcile
pub mod Handlers
pub mod Events
