-- ===== src/Allocator.antt =====
-- pkg/allocator, with pkg/context/node.go: what a job asks for, what the nodes have free, and the
-- allocation of nodes to jobs.
pub mod Resources
pub mod Readers
pub mod Jobs
pub mod Nodes
pub mod Allocate
