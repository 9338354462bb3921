-- ===== src/Utils.antt =====
-- pkg/utils: the helpers that the operator and the server share.
pub mod Names
pub mod Objects
pub mod Spec
pub mod Pods
pub mod Filters
pub mod Validator
