-- ===== src/SidecarError.antt =====
-- src/error.rs: the errors of the sidecar, and the panics of the modelled code. An I/O error
-- carries nothing here.
use ores_otel_sidecar_rs.Prelude.{Text}

pub data SidecarError : Type 0 where
  invalid_bind unresolved_bind non_loopback_bind invalid_config missing_sidecar
        runtime_update_rejected :
      Text → SidecarError
  runtime_state_unavailable io : SidecarError

-- `failed` is a returned error; `panicked` is a reached `unreachable!`.
pub data Stop : Type 0 where
  failed : SidecarError → Stop
  panicked : Stop
