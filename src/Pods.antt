-- ===== src/Pods.antt =====
-- pkg/context/pod.go and job.go: the pods and the services of a job.
pub mod Build
pub mod Calls
pub mod CleanUp
pub mod Removal
