-- ===== src/Routing.antt =====
-- router.go, module.go and miss.go: dispatch to the module of the longest prefix, and the answer to a
-- request that nothing matches. `http.ServeMux` is the parameter `MuxApi`.
pub mod Mux
pub mod Prefix
pub mod Miss
pub mod Router
