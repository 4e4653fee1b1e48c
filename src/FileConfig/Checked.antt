-- ===== src/FileConfig/Checked.antt =====
-- What the tests of src/file_config.rs say of a file.
use ores_otel_sidecar_rs.Prelude.{
  ◌≡◌, ◌≢◌, refl, ap, inl, inr, Bool-cases, arith, true, false, Option, none, some, List, [], ◌∷◌,
  ◌++◌, ◌≟◌, ok, err, Text, text_eq, All,
}
use ores_otel_sidecar_rs.Maps.{KeySet, contains, collect_keys}
use ores_otel_sidecar_rs.Maps.Laws.{contains-collect_keys}
use ores_otel_sidecar_rs.Values.{RuntimeValues}
use ores_otel_sidecar_rs.FileConfig.{
  SidecarDefinition, OresSidecarFile, Outcome, validate_runtime_policy, values_of,
  validate_sidecar_shape, validate_sidecars, validate_file, find_sidecar,
}

-- A sidecar whose policy is accepted and whose values can be made.
pub record IsUsable (sidecar : SidecarDefinition) : Type 0 where
  pub policy : validate_runtime_policy sidecar.runtime_updates ≡ ok tt
  pub runtime_values : RuntimeValues
  pub made : values_of sidecar ≡ ok runtime_values

-- The only sidecar of the service in a list.
pub record IsOnly (service : Text) (sidecar : SidecarDefinition) (sidecars : List SidecarDefinition)
    : Type 0 where
  pub before : List SidecarDefinition
  pub after : List SidecarDefinition
  pub splits : sidecars ≡ before ++ sidecar ∷ after
  pub named : sidecar.id ≡ service
  pub none_before : All (λ s. s.id ≢ service) before
  pub none_after : All (λ s. s.id ≢ service) after

validate_sidecar_shape-IsUsable :
    (sidecar : SidecarDefinition) (r : Outcome RuntimeValues)
    → values_of sidecar ≡ r
    → validate_sidecar_shape sidecar ≡ ok tt
    → IsUsable sidecar
unfolding validate_sidecar_shape
validate_sidecar_shape-IsUsable sidecar (ok v) is h = record {
  policy = ground arith;
  runtime_values = v;
  made = is;
}
validate_sidecar_shape-IsUsable sidecar (err e) is h = ground (arith, is)

record Head (ids : KeySet) (sidecar : SidecarDefinition) (rest : List SidecarDefinition)
    : Type 0 where
  new : contains ids sidecar.id ≡ false
  shape : validate_sidecar_shape sidecar ≡ ok tt
  more : validate_sidecars (collect_keys ids (sidecar.id ∷ [])) rest ≡ ok tt

validate_sidecars-Head :
    (ids : KeySet) (sidecar : SidecarDefinition) (rest : List SidecarDefinition)
    → validate_sidecars ids (sidecar ∷ rest) ≡ ok tt
    → Head ids sidecar rest
unfolding validate_sidecars
validate_sidecars-Head ids sidecar rest h = ground arith

-- An identity that was seen comes no more.
seen_no_more :
    (ids : KeySet) (service : Text) (sidecars : List SidecarDefinition)
    → contains ids service ≡ true
    → validate_sidecars ids sidecars ≡ ok tt
    → All (λ s. s.id ≢ service) sidecars
seen_no_more ids service [] seen h = tt
seen_no_more ids service (sidecar ∷ rest) seen h =
    let first = validate_sidecars-Head ids sidecar rest h in
    (
      (λ e. ground (arith, e, first.new)),
      seen_no_more (collect_keys ids (sidecar.id ∷ [])) service rest
          (ground (arith, contains-collect_keys service (sidecar.id ∷ []) ids)) first.more,
    )

-- What a search finds in a list that was accepted.
abbrev pub Found : Text → List SidecarDefinition → Option SidecarDefinition → Type 0
Found service sidecars none = All (λ s. s.id ≢ service) sidecars
Found service sidecars (some sidecar) = IsOnly service sidecar sidecars × IsUsable sidecar

Found-cons :
    (service : Text) (sidecar : SidecarDefinition) (rest : List SidecarDefinition)
    (found : Option SidecarDefinition)
    → sidecar.id ≢ service
    → Found service rest found
    → Found service (sidecar ∷ rest) found
Found-cons service sidecar rest none other f = (other, f)
Found-cons service sidecar rest (some s) other f = (
  record {
    before = sidecar ∷ f.0.before;
    after = f.0.after;
    splits = ap (λ r. sidecar ∷ r) f.0.splits;
    named = f.0.named;
    none_before = (other, f.0.none_before);
    none_after = f.0.none_after;
  },
  f.1,
)

seen_now :
    (ids : KeySet) (id service : Text)
    → id ≡ service
    → contains (collect_keys ids (id ∷ [])) service ≡ true
unfolding contains
seen_now ids id service e = ground (arith, contains-collect_keys service (id ∷ []) ids, e)

find_sidecar-Found :
    (service : Text) (ids : KeySet) (sidecars : List SidecarDefinition)
    → validate_sidecars ids sidecars ≡ ok tt
    → Found service sidecars (find_sidecar service sidecars)
unfolding find_sidecar
find_sidecar-Found service ids [] h = tt
find_sidecar-Found service ids (sidecar ∷ rest) h =
    let first = validate_sidecars-Head ids sidecar rest h in
    let later = find_sidecar-Found service (collect_keys ids (sidecar.id ∷ [])) rest first.more in
    elim (Bool-cases (sidecar.id ≟ service)) [
      | inl same ↦ rw same (
        record {
          before = [];
          after = rest;
          splits = refl;
          named = ground (arith, same);
          none_before = tt;
          none_after =
              seen_no_more (collect_keys ids (sidecar.id ∷ [])) service rest
                (seen_now ids sidecar.id service (ground (arith, same))) first.more;
        },
        validate_sidecar_shape-IsUsable sidecar (values_of sidecar) refl first.shape,
      )
      | inr different ↦ rw different (
          Found-cons service sidecar rest (find_sidecar service rest)
            (λ e. ground (arith, e, different)) later)
    ]

-- An accepted file is searched for a service: it has no sidecar of that name, or one, usable.
pub find_sidecar-Found_file :
    (service : Text) (file : OresSidecarFile)
    → validate_file file ≡ ok tt
    → Found service file.sidecars (find_sidecar service file.sidecars)
unfolding validate_file
find_sidecar-Found_file service file h = find_sidecar-Found service [] file.sidecars (ground arith)
