-- ===== src/Controller/Steps/Lifecycle/Rescheduled.antt =====
-- pkg/controllers/dijob.go and pkg/context/pod.go together: a preemptible job that is rescheduled, on a
-- cluster that keeps the pods.
