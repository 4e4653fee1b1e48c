-- ===== src/Record/History.antt =====
-- Chains of accepted replacements of one durable record.
use ores_otel_sidecar_rs.Prelude.{ℕ, ◌<◌, ◌≤◌, ◌≡◌, refl, ◌≢◌, false, true, arith, ok, Text}
use ores_otel_sidecar_rs.Record.{LifecycleRecord, authorizes_controller, validate_record_update}
use ores_otel_sidecar_rs.Record.Update.{IsUpdate, validate_record_update_iff}

pub data History (first : LifecycleRecord) : LifecycleRecord → Type 0 where
  here : History first first
  next :
      {current : LifecycleRecord}
      → History first current
      → (later : LifecycleRecord) → validate_record_update current later ≡ ok tt
      → History first later

-- What no sequence of replacements undoes.
pub record Advances (a b : LifecycleRecord) : Type 0 where
  pub workload : b.workload_id ≡ a.workload_id
  pub fence : a.fencing_token ≤ b.fencing_token
  pub revision : a.revision ≤ b.revision
  pub placement : a.placement_epoch ≤ b.placement_epoch
  pub runtime : a.runtime_epoch ≤ b.runtime_epoch
  pub moved : b.assigned_node ≢ a.assigned_node → a.placement_epoch < b.placement_epoch
  pub replaced : a.placement_epoch < b.placement_epoch → a.runtime_epoch < b.runtime_epoch
  pub fenced_anew : a.runtime_epoch < b.runtime_epoch → a.fencing_token < b.fencing_token

Advances-refl : (a : LifecycleRecord) → Advances a a
Advances-refl a = ground arith

Advances-step : (a b c : LifecycleRecord) → Advances a b → IsUpdate b c → Advances a c
Advances-step a b c h u = ground arith

-- Over any chain of accepted replacements the workload stays, the fence, the revision and both
-- epochs never go back, a move to another node raises the placement epoch, a new placement raises
-- the runtime epoch, and a new runtime raises the fence.
pub History-Advances : {a b : LifecycleRecord} → History a b → Advances a b
History-Advances {a} here = Advances-refl a
History-Advances {a} (next {current = b} h c ok_) =
    Advances-step a b c (History-Advances h) ((validate_record_update_iff b c).0 ok_)

revision-eq : {a b c : LifecycleRecord} → Advances a b → IsUpdate b c → a.revision ≢ c.revision
revision-eq h u e = omega arith

-- Of two records of one chain, the later is the earlier one itself if their revisions are equal.
pub History-eq_of_revision : {a b : LifecycleRecord} → History a b → a.revision ≡ b.revision → a ≡ b
History-eq_of_revision here e = refl
History-eq_of_revision (next {current = b} h c ok_) e =
    absurd (revision-eq (History-Advances h) ((validate_record_update_iff b c).0 ok_) e)

-- A controller that holds an older fence than a record's is authorised by no later record, under
-- any placement and runtime.
stale_fence_unauthorized :
    {a b : LifecycleRecord} (node : Text) (placement runtime fence : ℕ)
    → History a b
    → fence < a.fencing_token
    → authorizes_controller b node placement runtime fence ≡ false
unfolding authorizes_controller
stale_fence_unauthorized node placement runtime fence h old = ground (arith, History-Advances h)

-- Once another node has held the workload, no controller that a record authorised before that is
-- authorised again, whatever replacements follow.
moved_unauthorized :
    {a b c : LifecycleRecord} (node : Text) (placement runtime fence : ℕ)
    → authorizes_controller a node placement runtime fence ≡ true
    → History a b
    → b.assigned_node ≢ a.assigned_node
    → History b c
    → authorizes_controller c node placement runtime fence ≡ false
unfolding authorizes_controller
moved_unauthorized node placement runtime fence held h moved later =
    ground (arith, History-Advances h, History-Advances later)
