-- ===== src/Server.antt =====
-- pkg/server: the HTTP interface of the orchestrator. The request is what gin gives: the `id` of the
-- path, and what ShouldBindJSON returns for the body.
pub mod Requests
pub mod Responses
pub mod Laws
pub mod Urls
pub mod Routes
pub mod Replicas
pub mod Ids
pub mod Answers
