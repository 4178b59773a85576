-- ===== src/Lib.antt =====
-- The use cases of the zensor server: a server for devices, tenants and recurring maintenance, in
-- Go. Handlers of HTTP requests and periodic workers call services; services check domain rules and
-- write through repositories, which wrap a relational database; workers publish events on a broker.
-- The development models the domain types, the services and the workers, and takes the database,
-- the calendar of the standard library and the identifiers as parameters with named laws.
--
-- How code becomes definitions. A struct is a record and an enumeration a data type. A method that
-- assigns to its receiver returns the new value. `(T, error)` is `Result T` (Prelude/Errors.antt),
-- whose errors are the sentinels of the packages, wrapped or not; `errors.Is` is `is_error`. A call
-- that writes is an `Action S`: it takes the store and returns a result and the store it leaves,
-- also when it fails. `time.Time` is the number of nanoseconds since Go's zero time
-- (Prelude/Clock.antt), and a method that reads the clock takes the instant as an argument. A map
-- is an association list (Prelude/Maps.antt), and a value of `any` is a type parameter. Go's `int`
-- is `ℤ` of Prelude/Int.antt, whose multiplication wraps at 64 bits; counters that start at 0 or 1
-- and grow by one are natural numbers.
--
-- Files. Maintenance/Schedule.antt is internal/maintenance/domain/value_objects.go (`Schedule.Next`
-- as `next`), Maintenance/Execution.antt and Maintenance/Activity.antt the files execution.go and
-- activity.go of that package. Maintenance/ExecutionService.antt, Maintenance/ExecutionWorker.antt
-- (`runScheduleExecutions` as `schedule_executions`) and Maintenance/DueCheck.antt
-- (`runCheckAndNotifyExecutions` as `check_and_notify`) are
-- internal/maintenance/usecases/execution_service.go and execution_worker.go, over the interfaces
-- of repository_port.go in Maintenance/Ports.antt. SharedKernel/Tenant.antt,
-- SharedKernel/TenantRepository.antt and SharedKernel/TenantService.antt are tenant.go,
-- tenant_repository.go and tenant_service.go under internal/shared_kernel; Infra/Orm.antt is the
-- part of internal/infra/sql/orm.go that they call. SharedKernel/ApiKey.antt and
-- SharedKernel/ApiKeyService.antt are api_key.go and api_key_service.go there, the latter with
-- `GetOrSet` of internal/infra/cache/cache.go, SharedKernel/AuthService.antt and
-- SharedKernel/StaticAuthService.antt are auth_service.go and static_auth_service.go,
-- SharedKernel/AllowedUser.antt and SharedKernel/AllowedUserRepository.antt are allowed_user.go and
-- allowed_user_repository.go, and Prelude/Emails.antt is internal/infra/utils/email.go.
-- Infra/LocalBroker.antt is internal/infra/async/internal_broker.go (`publishToSubscriptors` as the
-- steps of `advance`). Infra/SessionStore.antt is internal/infra/auth/memory_session_store.go, and
-- Infra/AuthMiddleware.antt is internal/infra/httpserver/auth.go (`NewAuthMiddleware` as
-- `middleware`), which Infra/AuthMiddleware/Lockout.antt runs over that store.
-- SharedKernel/Command.antt is internal/shared_kernel/domain/command.go;
-- ControlPlane/CommandRepository.antt, ControlPlane/CommandWorker.antt and
-- ControlPlane/TaskService.antt are command_repository.go, command_worker.go and task_service.go
-- under internal/control_plane. Maintenance/ActivityService.antt is activity_service.go of the
-- maintenance use cases. SharedKernel/User.antt and SharedKernel/UserService.antt are user.go,
-- user_repository.go and user_service.go, SharedKernel/TenantConfiguration.antt and
-- SharedKernel/TenantConfigurationService.antt the files tenant_configuration.go,
-- tenant_configuration_repository.go and tenant_configuration_service.go, and
-- SharedKernel/EvaluationRule.antt is evaluation_rule.go. SharedKernel/Device.antt,
-- ControlPlane/DeviceRepository.antt and ControlPlane/DeviceService.antt are device.go,
-- device_repository.go and device_service.go. SharedKernel/Task.antt is task.go and
-- command_template.go, SharedKernel/ScheduledTask.antt is scheduled_task.go, Prelude/DayTimes.antt
-- is `ParseExecutionTime` of internal/infra/utils/timezone.go, and
-- ControlPlane/ScheduledTaskWorker.antt is scheduled_task_worker.go (`evaluateSchedules` as
-- `evaluate_schedules`).
--
-- Fuel. The loop of `Schedule.Next` has no bound in the source. `next` runs it with fuel, and one
-- round more than the reference instant is enough, because each valid step advances by at least a
-- nanosecond; the theorems state this, and the worker and the builder pass that fuel. The amounts
-- and instants for which `time.AddDate` advances are bounded by the fields `max_step` and `horizon`
-- of Maintenance/Calendar.antt.
--
-- Interleavings. `UpdateTenant` reads and writes in two calls of the database, and its model is
-- split at that point, so that two requests can be interleaved. `Validate` of an API key is split
-- between the read of its row and the write of the cache in the same way. The methods of the
-- session store hold a lock and are single steps. The broker has no lock but those of its
-- `sync.Map` and its `sync.Once`: `Subscribe` is split between its load and its store, and a
-- goroutine of `Publish` is a list of subscriptors that it works through by single steps, between
-- which anything else may come.
--
-- Not modelled: the HTTP layer, the clients of external services, the queries and conversions of
-- the other repositories, configuration and wiring, which have no rules of their own; and, so far,
-- push tokens, the notification workers, the data plane and the Victron integration.
pub mod Prelude
pub mod Infra
pub mod SharedKernel
pub mod Maintenance
pub mod ControlPlane
