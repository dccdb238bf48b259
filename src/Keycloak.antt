-- ===== src/Keycloak.antt =====
-- run-controller/keycloakwif: workload identity tokens that Keycloak issues.
pub mod Claims
pub mod Issuer
mod Tests
