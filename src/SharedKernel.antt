-- ===== src/SharedKernel.antt =====
-- internal/shared_kernel: tenants, users, keys and sessions.
pub mod Session
pub mod Command
pub mod ApiKey
pub mod ApiKeyService
pub mod AllowedUser
pub mod AllowedUserRepository
pub mod AuthService
pub mod StaticAuthService
pub mod Tenant
pub mod TenantRepository
pub mod TenantService
pub mod User
pub mod UserService
pub mod TenantConfiguration
pub mod TenantConfigurationService
pub mod Device
pub mod EvaluationRule
pub mod Task
pub mod ScheduledTask
