-- ===== src/Kube.antt =====
-- pkg/kube: the client of the Kubernetes API server, which turns the calls of Tiller into requests.
pub mod Infos
pub mod Api
pub mod Perform
pub mod Wait
pub mod Patch
pub mod Update
pub mod Watch
pub mod Requests
mod Tests
