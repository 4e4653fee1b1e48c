-- ===== src/Identity/Evidence.antt =====
-- What the kernel's files said when src/adapters/process_lifecycle_identity.rs attested an identity.
use ores_otel_sidecar_rs.Prelude.{ℕ, ◌<◌, ◌≡◌, refl, arith, List, [], ok, err, Text}
use ores_otel_sidecar_rs.Paths.{components, texts_eq}
use ores_otel_sidecar_rs.HostControl.Snapshot.{IsManaged}
use ores_otel_sidecar_rs.Identity.{
  ProcHost, LinuxProcessIdentityAttestor, ExpectedLinuxProcessIdentity, require_start_ticks,
  require_cgroup, expected_proc_cgroup_path, validate_managed_cgroup_path, validate_expected,
  validate_process_directory, validate_managed_cgroup_directory, read_process_start_ticks,
  read_process_cgroup, require_cgroup_membership, attest_second, attest_first, attest, Checked,
  checked_again, Attest, continue,
}

abbrev text_of : Checked Text → Text
text_of (ok t) = t
text_of (err e) = []

module _ (H : ProcHost) (a : LinuxProcessIdentityAttestor) (e : ExpectedLinuxProcessIdentity) where
  -- The process started when it was expected to, and is in the expected control group.
  pub record IsSeen (w after : H.World) : Type 0 where
    pub between : H.World
    pub cgroup : Text
    pub started : read_process_start_ticks H a e.pid w ≡ (ok e.process_start_ticks, between)
    pub placed : read_process_cgroup H a e.pid between ≡ (ok cgroup, after)
    pub expected : expected_proc_cgroup_path a e.managed_cgroup ≡ ok (components cgroup)

  require_start_ticks-eq : (m n : ℕ) → require_start_ticks m n ≡ ok tt → m ≡ n
  unfolding require_start_ticks
  require_start_ticks-eq m n h = ground arith

  require_cgroup-eq : (m n : List Text) → require_cgroup m n ≡ ok tt → m ≡ n
  unfolding require_cgroup
  require_cgroup-eq m n h = ground arith

  continue_ok :
      {A B : Type 0} {f : A → Attest H B} {b : B} {w' : H.World} (r : Checked A × H.World)
      → continue H r.0 f r.1 ≡ (ok b, w')
      → (x : A) × (between : H.World) × (r ≡ (ok x, between)) × (f x between ≡ (ok b, w'))
  continue_ok (ok x, between) h = (x, between, refl, h)
  continue_ok (err x, between) h = cc

  attest_second-IsSeen :
      (group : List Text) (n : ℕ) (c : Text) (w after : H.World) (e' : ExpectedLinuxProcessIdentity)
      → expected_proc_cgroup_path a e.managed_cgroup ≡ ok group
      → attest_second H a e group n c w ≡ (ok e', after)
      → IsSeen w after
  unfolding attest_second
  attest_second-IsSeen group n c w after e' found h =
      let (ticks, w1, started, h1) = continue_ok (read_process_start_ticks H a e.pid w) h in
      let (path, w2, placed, h2) = continue_ok (read_process_cgroup H a e.pid w1) h1 in
      let (_, w3, same_start, h3) =
        continue_ok (require_start_ticks e.process_start_ticks ticks, w2) h2 in
      let (_, w4, same_group, h4) = continue_ok (require_cgroup group (components path), w3) h3 in
      let (_, w5, unmoved, h5) = continue_ok (checked_again n c ticks path, w4) h4 in
      record {
        between = w1;
        cgroup = path;
        started =
            ground (arith, started, require_start_ticks-eq e.process_start_ticks ticks, same_start);
        placed = ground (arith, placed, same_start, same_group, unmoved, h5);
        expected = ground (arith, found, same_group, require_cgroup-eq group (components path));
      }

  -- The identity is one that may be attested; its process and its control group are directories;
  -- the process is listed in the group, and was seen there before and after that.
  pub record IsAttested (w after : H.World) : Type 0 where
    pub live : (0 < e.pid) × (0 < e.process_start_ticks)
    pub managed : IsManaged a.cgroup_mount e.managed_cgroup
    pub w1 : H.World
    pub w2 : H.World
    pub w3 : H.World
    pub w4 : H.World
    pub process : validate_process_directory H a e.pid w ≡ (ok tt, w1)
    pub group : validate_managed_cgroup_directory H a e.managed_cgroup w1 ≡ (ok tt, w2)
    pub before : IsSeen w2 w3
    pub member : require_cgroup_membership H a e.managed_cgroup e.pid w3 ≡ (ok tt, w4)
    pub again : IsSeen w4 after

  record IsFound (w after : H.World) : Type 0 where
    w3 : H.World
    w4 : H.World
    before : IsSeen w w3
    member : require_cgroup_membership H a e.managed_cgroup e.pid w3 ≡ (ok tt, w4)
    again : IsSeen w4 after

  attest_first-IsFound :
      (w after : H.World) (e' : ExpectedLinuxProcessIdentity)
      → attest_first H a e w ≡ (ok e', after)
      → IsFound w after
  unfolding attest_first
  attest_first-IsFound w after e' h =
      let (ticks, w1, started, h1) = continue_ok (read_process_start_ticks H a e.pid w) h in
      let (_, w2, same_start, h2) =
        continue_ok (require_start_ticks e.process_start_ticks ticks, w1) h1 in
      let (path, w3, placed, h3) = continue_ok (read_process_cgroup H a e.pid w2) h2 in
      let (group, w4, found, h4) =
        continue_ok (expected_proc_cgroup_path a e.managed_cgroup, w3) h3 in
      let (_, w5, same_group, h5) = continue_ok (require_cgroup group (components path), w4) h4 in
      let (_, w6, listed, h6) =
        continue_ok (require_cgroup_membership H a e.managed_cgroup e.pid w5) h5 in
      record {
        w3 = w5;
        w4 = w6;
        before = record {
          between = w2;
          cgroup = path;
          started =
              ground
                (arith, started, require_start_ticks-eq e.process_start_ticks ticks, same_start);
          placed = ground (arith, placed, found, same_group);
          expected = ground (arith, found, same_group, require_cgroup-eq group (components path));
        };
        member = listed;
        again = attest_second-IsSeen group ticks path w6 after e' (ground (arith, found)) h6;
      }

  abbrev IsAllowed : H.World → H.World → Type 0
  IsAllowed w after =
      (0 < e.pid)
      × (0 < e.process_start_ticks)
      × IsManaged a.cgroup_mount e.managed_cgroup
      × (w ≡ after)

  validate_expected-IsAllowed :
      (w after : H.World) → validate_expected H a e w ≡ (ok tt, after) → IsAllowed w after
  unfolding validate_expected validate_managed_cgroup_path
  validate_expected-IsAllowed w after h = ground arith

  pub attest-IsAttested :
      (w after : H.World) (e' : ExpectedLinuxProcessIdentity)
      → attest H a e w ≡ (ok e', after)
      → IsAttested w after
  unfolding attest
  attest-IsAttested w after e' h =
      let (_, w0, allowed, h0) = continue_ok (validate_expected H a e w) h in
      let (live, started, managed, same) = validate_expected-IsAllowed w w0 allowed in
      let (_, w1, process, h1) = continue_ok (validate_process_directory H a e.pid w0) h0 in
      let (_, w2, group, h2) =
        continue_ok (validate_managed_cgroup_directory H a e.managed_cgroup w1) h1 in
      let found = attest_first-IsFound w2 after e' h2 in
      record {
        live = (live, started);
        managed = managed;
        w1 = w1;
        w2 = w2;
        w3 = found.w3;
        w4 = found.w4;
        process = ground (arith, process, same);
        group = group;
        before = found.before;
        member = found.member;
        again = found.again;
      }
