-- ===== src/Services.antt =====
-- The traits at the boundary of src/process_lifecycle_agent.rs and of
-- src/adapters/process_lifecycle_freeze.rs (`HostLifecycleControl`, `ProductLifecycleControl`,
-- `LifecycleRecordStore`, `LifecycleEffects`, `FreezeTransitionEffects`) as one record over an
-- unknown world, the calls made to them, and the actions that call them and may fail.
use ores_otel_sidecar_rs.Prelude.{Text, Bool, List, ◌∷◌, Result, ok, err, map_err}
use ores_otel_sidecar_rs.Lifecycle.{ActivitySnapshot}
use ores_otel_sidecar_rs.Record.{PersistedLifecycleState, LifecycleCheckpoint, LifecycleRecord}

pub data ProductQuiesceOutcome : Type 0 where
  drained : ProductQuiesceOutcome
  demand_returned : ProductQuiesceOutcome

pub record FreezeTransitionStatus : Type 0 where
  pub populated : Bool
  pub frozen : Bool

-- A `&mut self` method returns its result and the world after it. Nothing is assumed of them.
pub record Services : Type 1 where
  pub World : Type 0
  pub load : Text → World → Result Text LifecycleRecord × World
  pub replace : LifecycleRecord → LifecycleRecord → World → Result Text (Unit {0}) × World
  pub observe : World → Result Text ActivitySnapshot × World
  pub verify_ready : World → Result Text (Unit {0}) × World
  pub quiesce : World → Result Text ProductQuiesceOutcome × World
  pub cancel_quiesce : World → Result Text (Unit {0}) × World
  pub freeze : World → Result Text (Unit {0}) × World
  pub thaw : World → Result Text (Unit {0}) × World
  pub checkpoint_and_terminate : World → Result Text LifecycleCheckpoint × World
  pub restore : LifecycleCheckpoint → World → Result Text (Unit {0}) × World
  pub freeze_status : World → Result Text FreezeTransitionStatus × World

-- A call that was made, and its result.
pub data Call : Type 0 where
  loaded : Text → Result Text LifecycleRecord → Call
  replaced : LifecycleRecord → LifecycleRecord → Result Text (Unit {0}) → Call
  observed : Result Text ActivitySnapshot → Call
  verified : Result Text (Unit {0}) → Call
  quiesced : Result Text ProductQuiesceOutcome → Call
  cancelled : Result Text (Unit {0}) → Call
  froze : Result Text (Unit {0}) → Call
  thawed : Result Text (Unit {0}) → Call
  checkpointed : Result Text LifecycleCheckpoint → Call
  restored : LifecycleCheckpoint → Result Text (Unit {0}) → Call
  status_read : Result Text FreezeTransitionStatus → Call

pub data ReconcileError : Type 0 where
  record_error host product effect : Text → ReconcileError
  invalid_record stale_placement stale_runtime stale_fence invalid_transition : ReconcileError
  recovery_required : PersistedLifecycleState → ReconcileError

-- The world, and the calls so far, the latest first. The program cannot read the calls.
pub record System (S : Services) : Type 0 where
  pub world : S.World
  pub calls : List Call

abbrev pub Act : Services → Type 0 → Type 0
Act S A = System S → Result ReconcileError A × System S

module _ {S : Services} {A : Type 0} where
  -- `return`, and `?` on a result that no call made
  unfoldable pub lift : Result ReconcileError A → Act S A
  lift r s = (r, s)

  abbrev pub pure : A → Act S A
  pure a s = (ok a, s)

module _ {S : Services} {A B : Type 0} where
  abbrev pub continue : Result ReconcileError A → (A → Act S B) → Act S B
  continue (ok a) f s = f a s
  continue (err e) f s = (err e, s)

  infixl 5 ◌>>=◌ ◌>>◌
  abbrev pub ◌>>=◌ : Act S A → (A → Act S B) → Act S B
  ◌>>=◌ m f s = let (r, s') = m s in continue r f s'

  abbrev pub ◌>>◌ : Act S A → Act S B → Act S B
  m >> k = m >>= λ _. k

module _ (S : Services) where
  abbrev note :
      {A : Type 0}
      → (Text → ReconcileError)
      → (Result Text A → Call)
      → (S.World → Result Text A × S.World)
      → Act S A
  note wrap event method s =
      let (r, w) = method s.world in
      (map_err wrap r, record { world = w; calls = event r ∷ s.calls })

  -- Each method with its `map_err`.
  abbrev pub call_load : Text → Act S LifecycleRecord
  call_load workload_id = note record_error (loaded workload_id) (S.load workload_id)

  abbrev pub call_replace : LifecycleRecord → LifecycleRecord → Act S (Unit {0})
  call_replace expected next = note record_error (replaced expected next) (S.replace expected next)

  abbrev pub call_observe : Act S ActivitySnapshot
  call_observe = note host observed S.observe

  abbrev pub call_verify_ready : Act S (Unit {0})
  call_verify_ready = note host verified S.verify_ready

  abbrev pub call_quiesce : Act S ProductQuiesceOutcome
  call_quiesce = note product quiesced S.quiesce

  abbrev pub call_cancel_quiesce : Act S (Unit {0})
  call_cancel_quiesce = note product cancelled S.cancel_quiesce

  abbrev pub call_freeze : Act S (Unit {0})
  call_freeze = note effect froze S.freeze

  abbrev pub call_thaw : Act S (Unit {0})
  call_thaw = note effect thawed S.thaw

  abbrev pub call_checkpoint : Act S LifecycleCheckpoint
  call_checkpoint = note effect checkpointed S.checkpoint_and_terminate

  abbrev pub call_restore : LifecycleCheckpoint → Act S (Unit {0})
  call_restore checkpoint = note effect (restored checkpoint) (S.restore checkpoint)

  abbrev pub call_freeze_status : Act S FreezeTransitionStatus
  call_freeze_status = note effect status_read S.freeze_status
