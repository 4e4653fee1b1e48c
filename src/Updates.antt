-- ===== src/Updates.antt =====
-- src/runtime_updates.rs: the revision-aware controller of the runtime overrides. A method takes
-- the state behind its mutex and returns it; a poisoned mutex is a flag. The handle on the values
-- is the controller's own, so that a write through it is part of the state.
pub mod Steps
pub mod Mirror
pub mod Runs
pub mod Governed
use ores_otel_sidecar_rs.Prelude.{
  ℕ, Bool, true, false, not, ◌&&◌, ◌||◌, Option, none, some, List, [], ◌∷◌, ltb, leb, ◌==◌, ◌≟◌,
  if◌then◌else◌, Result, ok, err, map_err, ◌>>=◌, ◌>>◌, reject_if, Text, codes, text_eq, bytes,
  byte_len, all, length, is_empty, is_ascii_alphanumeric, saturating_add,
}
use ores_otel_sidecar_rs.SidecarError.{
  SidecarError, invalid_config, runtime_state_unavailable, Stop, failed, panicked,
}
use ores_otel_sidecar_rs.Maps
use ores_otel_sidecar_rs.Maps.{Map, KeySet, contains, collect_keys}
use ores_otel_sidecar_rs.Values.{
  RuntimeValueUpdate, RuntimeValues, Checked, max_runtime_keys, apply_patch, replace_overrides,
}
use ores_otel_sidecar_rs.Batch.{
  RuntimeUpdateTarget, new_target, RuntimeUpdateOperation, upsert, delete, replace, invalidate,
  resync, RuntimeUpdateBatch, RuntimeUpdateOutcome, applied, stale_snapshot_ignored,
  RuntimeUpdateState, RuntimeUpdateInner, default_inner, Admission, rejected, admitted, advanced,
  admit, backend_keys_after, validate_target, validate_snapshot, validate_batch_shape,
}

pub record RuntimeUpdateController : Type 0 where
  pub values : RuntimeValues
  pub target : Option RuntimeUpdateTarget
  pub state : RuntimeUpdateInner
  pub poisoned : Bool

-- `RuntimeUpdateController::new` and `for_target`
unfoldable pub new : RuntimeValues → RuntimeUpdateController
new values = record { values = values; target = none; state = default_inner; poisoned = false }

unfoldable pub for_target :
    RuntimeValues → Text → Text → Result SidecarError RuntimeUpdateController
unfolding new_target
for_target values namespace cache = do
  target ← new_target namespace cache
  ok (record { values = values; target = some target; state = default_inner; poisoned = false })

unfoldable state_of : RuntimeUpdateController → Result SidecarError RuntimeUpdateState
state_of c =
    if c.poisoned
    then err runtime_state_unavailable
    else ok (record {
      revision = c.state.revision;
      stale = c.state.stale;
      backend_key_count = length c.state.backend_keys;
    })

-- `RuntimeValueUpdate::set` for each entry, and `RuntimeValueUpdate::remove` for each key
unfoldable pub set_updates : Map → List RuntimeValueUpdate
set_updates [] = []
set_updates ((k, v) ∷ m) = record { key = k; value = some v } ∷ set_updates m

unfoldable pub remove_updates : List Text → List RuntimeValueUpdate
remove_updates [] = []
remove_updates (k ∷ ks) = record { key = k; value = none } ∷ remove_updates ks

abbrev stopping : Checked × RuntimeValues → Result Stop (Unit {0}) × RuntimeValues
stopping (r, values) = (map_err failed r, values)

unfoldable pub apply_values :
    RuntimeValues
    → RuntimeUpdateBatch
    → RuntimeUpdateOperation
    → Result Stop (Unit {0}) × RuntimeValues
unfolding set_updates remove_updates
apply_values values batch upsert = stopping (apply_patch values (set_updates batch.entries))
apply_values values batch delete = stopping (apply_patch values (remove_updates batch.keys))
apply_values values batch replace = stopping (replace_overrides values batch.entries)
apply_values values batch invalidate = stopping (replace_overrides values [])
apply_values values batch resync = (err panicked, values)

abbrev pub Stepped : Type 0
Stepped = Result Stop RuntimeUpdateOutcome × RuntimeUpdateController

-- From `replace_overrides` on, in `apply_snapshot`.
unfoldable pub install : RuntimeUpdateController → ℕ → Map → Checked × RuntimeValues → Stepped
unfolding advanced
install c revision entries (err e, values) = (err (failed e), record c { values = values })
install c revision entries (ok _, values) = (
  ok (applied revision),
  record c { values = values; state = advanced revision (collect_keys [] (Maps.keys entries)) },
)

unfoldable pub apply_snapshot : RuntimeUpdateController → Text → Text → ℕ → Map → Stepped
unfolding validate_target
apply_snapshot c namespace cache revision entries =
    elim (validate_target c.target namespace cache >> validate_snapshot revision entries) [
      | err e ↦ (err (failed e), c)
      | ok _ ↦
          if c.poisoned
          then (err (failed runtime_state_unavailable), c)
          else if ltb revision c.state.revision
          then (ok (stale_snapshot_ignored c.state.revision revision), c)
          else install c revision entries (replace_overrides c.values entries)
    ]

-- From `apply_values` on, in `apply_batch`.
unfoldable pub advance :
    RuntimeUpdateController → RuntimeUpdateBatch → Result Stop (Unit {0}) × RuntimeValues → Stepped
unfolding backend_keys_after advanced
advance c batch (err e, values) = (err e, record c { values = values })
advance c batch (ok _, values) = elim (backend_keys_after c.state batch batch.operation) [
  | err e ↦ (err e, record c { values = values })
  | ok ks ↦ (
    ok (applied batch.revision),
    record c { values = values; state = advanced batch.revision ks },
  )
]

unfoldable pub apply_admission : RuntimeUpdateController → RuntimeUpdateBatch → Admission → Stepped
unfolding advance
apply_admission c batch (rejected next outcome) = (ok outcome, record c { state = next })
apply_admission c batch admitted = advance c batch (apply_values c.values batch batch.operation)

unfoldable pub apply_batch : RuntimeUpdateController → RuntimeUpdateBatch → Stepped
unfolding validate_target
apply_batch c batch =
    elim (validate_target c.target batch.namespace batch.cache >> validate_batch_shape batch) [
      | err e ↦ (err (failed e), c)
      | ok _ ↦
          if c.poisoned
          then (err (failed runtime_state_unavailable), c)
          else apply_admission c batch (admit c.state batch)
    ]
