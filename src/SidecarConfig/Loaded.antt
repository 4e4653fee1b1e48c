-- ===== src/SidecarConfig/Loaded.antt =====
-- What src/config.rs makes of a sidecar file.
use ores_otel_sidecar_rs.Prelude.{
  ◌≡◌, ◌≢◌, refl, ap, [], ◌∷◌, sym, ◌∙◌, arith, true, false, Option, none, some, List, ok, err,
  Text, All, if◌then◌else◌,
}
use ores_otel_sidecar_rs.SidecarError.{missing_sidecar}
use ores_otel_sidecar_rs.Maps.{contains}
use ores_otel_sidecar_rs.Values.{RuntimeValues, get}
use ores_otel_sidecar_rs.Values.Governed.{IsAdmissible}
use ores_otel_sidecar_rs.Values.Initial.{Governs, new-Governs, new-mutable, get-IsAdmissible}
use ores_otel_sidecar_rs.Batch.{default_inner, validate_target}
use ores_otel_sidecar_rs.Updates.{RuntimeUpdateController, apply_batch, apply_snapshot}
use ores_otel_sidecar_rs.Updates.Runs.{Delivery, batch, snapshot, deliver, deliver_all}
use ores_otel_sidecar_rs.Updates.Governed.{deliver_all-Governs}
use ores_otel_sidecar_rs.FileConfig.{
  RuntimeUpdatePolicy, SidecarDefinition, OresSidecarFile, Outcome, is_enabled,
  validate_runtime_policy, values_of, find_sidecar, validate_file,
}
use ores_otel_sidecar_rs.FileConfig.Checked.{IsOnly, Found, find_sidecar-Found_file}
use ores_otel_sidecar_rs.SidecarConfig.{SidecarConfig, controller_of, with_loaded_sidecar_file}

-- A new controller of the values, for the keyspace of the policy if that is enabled; if not, one
-- that no delivery changes.
pub record IsController (values : RuntimeValues) (policy : RuntimeUpdatePolicy)
    (c : RuntimeUpdateController) : Type 0 where
  pub holds : c.values ≡ values
  pub new : c.state ≡ default_inner
  pub usable : c.poisoned ≡ false
  pub keyspace :
      is_enabled policy ≡ true
      → c.target ≡ some (record { namespace = policy.namespace; cache = policy.cache })
  pub closed : is_enabled policy ≡ false → (ds : List Delivery) → deliver_all ds c ≡ c

deliver_closed : (d : Delivery) (c : RuntimeUpdateController) → c.target ≡ none → deliver d c ≡ c
unfolding apply_batch apply_snapshot validate_target
deliver_closed (batch b s) c h = rw h refl
deliver_closed (snapshot namespace cache revision entries s) c h = rw h refl

-- A controller without a target fails closed.
deliver_all_closed :
    (ds : List Delivery) (c : RuntimeUpdateController) → c.target ≡ none → deliver_all ds c ≡ c
deliver_all_closed [] c h = refl
deliver_all_closed (d ∷ ds) c h =
    ap (deliver_all ds) (deliver_closed d c h) ∙ deliver_all_closed ds c h

-- The policy was tested when the file was read, so that its controller can be made.
controller_of-IsController :
    (values : RuntimeValues) (policy : RuntimeUpdatePolicy)
    → validate_runtime_policy policy ≡ ok tt
    → (c : RuntimeUpdateController) × (controller_of values policy ≡ ok c)
      × IsController values policy c
unfolding controller_of validate_runtime_policy is_enabled
controller_of-IsController values policy h = (
  record {
    values = values;
    target =
        if is_enabled policy
        then some (record { namespace = policy.namespace; cache = policy.cache })
        else none;
    state = default_inner;
    poisoned = false;
  },
  ground arith,
  record {
    holds = refl;
    new = refl;
    usable = refl;
    keyspace = λ e. rw e;
    closed = λ e ds. deliver_all_closed ds _ (rw e refl);
  },
)

pub record IsConfigured (config : SidecarConfig) (definition : SidecarDefinition)
    (loaded : SidecarConfig) : Type 0 where
  pub identity : loaded.identity ≡ config.identity
  pub listen : loaded.listen ≡ config.listen
  pub overrides : loaded.overrides ≡ config.overrides
  pub policy : loaded.runtime_updates ≡ some definition.runtime_updates
  pub values : RuntimeValues
  pub made : values_of definition ≡ ok values
  pub controller : IsController values definition.runtime_updates loaded.runtime_controller

-- How a file that was accepted is taken.
pub data Loads (config : SidecarConfig) (file : OresSidecarFile)
    : Outcome SidecarConfig → Type 0 where
  taken :
      (loaded : SidecarConfig) (definition : SidecarDefinition)
      → IsOnly config.identity.service definition file.sidecars
      → IsConfigured config definition loaded
      → Loads config file (ok loaded)
  missing :
      All (λ s. s.id ≢ config.identity.service) file.sidecars
      → Loads config file (err (missing_sidecar config.identity.service))

find_sidecar-Loads :
    (config : SidecarConfig) (file : OresSidecarFile) (found : Option SidecarDefinition)
    → find_sidecar config.identity.service file.sidecars ≡ found
    → Found config.identity.service file.sidecars found
    → Loads config file (with_loaded_sidecar_file config file)
unfolding with_loaded_sidecar_file
find_sidecar-Loads config file none is f = rw is (missing f)
find_sidecar-Loads config file (some definition) is (only, usable) =
    let (c, made, holds) =
      controller_of-IsController usable.runtime_values definition.runtime_updates usable.policy in
    rw (is, usable.made, made)
      (taken _ definition only (record {
        identity = refl;
        listen = refl;
        overrides = refl;
        policy = refl;
        values = usable.runtime_values;
        made = usable.made;
        controller = holds;
      }))

-- An accepted file never fails to load for another reason than that it has no sidecar of the
-- service. Otherwise the service's only sidecar in it is taken: the configuration keeps its
-- identity, its address and its hooks, and gets the sidecar's policy and a new controller of the
-- sidecar's values: for the policy's keyspace if the policy is enabled, and else one that no batch
-- and no snapshot changes.
pub with_loaded_sidecar_file-Loads :
    (config : SidecarConfig) (file : OresSidecarFile)
    → validate_file file ≡ ok tt
    → Loads config file (with_loaded_sidecar_file config file)
with_loaded_sidecar_file-Loads config file h =
    find_sidecar-Loads config file (find_sidecar config.identity.service file.sidecars) refl
      (find_sidecar-Found_file config.identity.service file h)

-- A value that the sidecar's definition lets the backend write.
pub record IsAllowed (config : SidecarConfig) (file : OresSidecarFile) (k v : Text) : Type 0 where
  pub definition : SidecarDefinition
  pub only : IsOnly config.identity.service definition file.sidecars
  pub listed : contains definition.runtime_mutable k ≡ true
  pub admissible : IsAdmissible definition.runtime_mutable k v

IsAdmissible-contains :
    (m : RuntimeValues) (mutable : List Text) (k v : Text)
    → contains m.mutable k ≡ contains mutable k
    → IsAdmissible m.mutable k v
    → IsAdmissible mutable k v
IsAdmissible-contains m mutable k v same a = (sym same ∙ a.0, a.1, a.2, a.3)

taken-IsAllowed :
    (config : SidecarConfig) (file : OresSidecarFile) (loaded : SidecarConfig)
    (definition : SidecarDefinition) (ds : List Delivery) (k v : Text)
    → IsOnly config.identity.service definition file.sidecars
    → IsConfigured config definition loaded
    → get (deliver_all ds loaded.runtime_controller).values k ≡ ok (some v)
    → IsAllowed config file k v
unfolding values_of
taken-IsAllowed config file loaded definition ds k v only is h =
    let initial : Governs is.values.mutable loaded.runtime_controller.values =
      rw is.controller.holds (new-Governs definition.runtime_mutable _ is.values is.made) in
    let read =
      get-IsAdmissible is.values.mutable (deliver_all ds loaded.runtime_controller).values k v
        (deliver_all-Governs is.values.mutable ds loaded.runtime_controller initial) h in
    let allowed =
      IsAdmissible-contains is.values definition.runtime_mutable k v
        (new-mutable definition.runtime_mutable _ is.values k is.made) read in
    record { definition = definition; only = only; listed = allowed.0; admissible = allowed }

Loads-IsAllowed :
    (config : SidecarConfig) (file : OresSidecarFile) (r : Outcome SidecarConfig)
    (loaded : SidecarConfig) (ds : List Delivery) (k v : Text)
    → Loads config file r
    → r ≡ ok loaded
    → get (deliver_all ds loaded.runtime_controller).values k ≡ ok (some v)
    → IsAllowed config file k v
Loads-IsAllowed config file _ loaded ds k v (taken l definition only is) e h =
    taken-IsAllowed config file l definition ds k v only is (ground (arith, e, h))
Loads-IsAllowed config file _ loaded ds k v (missing m) e h = cc

-- Once an accepted file was loaded, whatever batches and snapshots are delivered to the controller,
-- a value is read only of a key that the service's only sidecar in the file lists as mutable, which
-- is well shaped and names no secret, and the value is within the bound.
pub loaded_get-IsAllowed :
    (config loaded : SidecarConfig) (file : OresSidecarFile) (ds : List Delivery) (k v : Text)
    → validate_file file ≡ ok tt
    → with_loaded_sidecar_file config file ≡ ok loaded
    → get (deliver_all ds loaded.runtime_controller).values k ≡ ok (some v)
    → IsAllowed config file k v
loaded_get-IsAllowed config loaded file ds k v valid h read =
    Loads-IsAllowed config file (with_loaded_sidecar_file config file) loaded ds k v
      (with_loaded_sidecar_file-Loads config file valid) h read
