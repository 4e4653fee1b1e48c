-- ===== src/Cgroup/Wait.antt =====
-- How the waits of src/adapters/linux_process_lifecycle.rs end.
use ores_otel_sidecar_rs.Prelude.{
  ℕ, suc, zero, ◌+◌, ◌≤◌, ◌<◌, ◌≡◌, ◌≢◌, refl, ap, ◌⊎◌, ltb, subst, ◌==◌, Bool, true, false,
  Bool-cases, inl, inr, leb, leb→le, Option, arith, Result, ok, err, Text, codes,
}
use ores_otel_sidecar_rs.Strings.{lines}
use ores_otel_sidecar_rs.Cgroup.{
  Host, unfinished, panicked, returned, invalid_poll_interval, Done, displayed, requested,
  cgroup_freeze_file, Waited, cgroup_events_file, flag_of, find_value, parse_event_flag,
  parse_status, after_status, CgroupV2Status, LinuxLifecycleError, timeout_error, status, wait_loop,
  wait_for_frozen_state, FreezeOnlyCgroupEffects, freeze, thaw, request, same_flag,
}

-- The monotonic clock: no call turns it back, it is what `now` reads, and a sleep lasts at least as
-- long as it was asked for.
pub record Clock (H : Host) : Type 0 where
  pub clock : H.World → ℕ
  pub read_keeps : (p : H.FilePath) (w : H.World) → clock w ≤ clock (H.read_to_string p w).1
  pub now_reads : (w : H.World) → (H.now w).0 ≡ clock w
  pub now_keeps : (w : H.World) → clock w ≤ clock (H.now w).1
  pub sleep_waits : (d : ℕ) (w : H.World) → clock w + d ≤ clock (H.sleep d w)

no_interval : {A : Type 0} → (expected : Bool) → invalid_poll_interval ≡ timeout_error expected → A
no_interval true q = cc
no_interval false q = cc

module _ (H : Host) (C : Clock H) (dir : H.FilePath) (expected : Bool) where
  -- The last call was a read of the events, and it reported the state that was waited for.
  pub record IsConfirmed (after : H.World) : Type 0 where
    pub before : H.World
    pub reported : CgroupV2Status
    pub read : status H dir before ≡ (ok reported, after)
    pub agrees : reported.frozen ≡ expected

  -- How the loop ends: with a confirmation, with its timeout error not before the deadline, or with
  -- an error of a read; never out of fuel.
  abbrev pub Ends : ℕ → Waited H → Type 0
  Ends deadline (unfinished, after) = ⊥
  Ends deadline (panicked, after) = ⊥
  Ends deadline (returned (ok _), after) = IsConfirmed after
  Ends deadline (returned (err e), after) = e ≡ timeout_error expected → deadline ≤ C.clock after

  -- How a wait ends: it panics if its deadline cannot be represented, and else as the loop does.
  abbrev pub WaitEnds : ℕ → ℕ → Waited H → Type 0
  WaitEnds poll deadline (unfinished, after) = ⊥
  WaitEnds poll deadline (panicked, after) = (0 < poll) × (H.latest < deadline)
  WaitEnds poll deadline (returned r, after) =
      ((poll ≡ 0) ⊎ (deadline ≤ H.latest)) × Ends deadline (returned r, after)

  same_flag-eq : (a b : Bool) → same_flag a b ≡ true → a ≡ b
  same_flag-eq true true h = refl
  same_flag-eq false false h = refl
  same_flag-eq true false h = cc
  same_flag-eq false true h = cc

  flag_of_no_timeout :
      (key : Text) (o : Option Text) (b : Bool) (e : LinuxLifecycleError)
      → flag_of key o ≡ err e
      → e ≢ timeout_error b
  unfolding flag_of
  flag_of_no_timeout key o b e h q = ground arith

  parse_status_no_timeout :
      (input : Text) (b : Bool) (e : LinuxLifecycleError)
      → parse_status input ≡ err e
      → e ≢ timeout_error b
  unfolding parse_status parse_event_flag
  parse_status_no_timeout input b e h q = ground (
    arith,
    flag_of_no_timeout (codes "populated") (find_value (codes "populated") (lines input)) b e,
    flag_of_no_timeout (codes "frozen") (find_value (codes "frozen") (lines input)) b e,
  )

  status_no_timeout :
      (w w' : H.World) (e : LinuxLifecycleError)
      → status H dir w ≡ (err e, w')
      → e ≢ timeout_error expected
  unfolding status
  status_no_timeout w w' e h q =
      ground (arith, λ (input : Text). parse_status_no_timeout input expected e)

  status_keeps : (w : H.World) → C.clock w ≤ C.clock (status H dir w).1
  unfolding status
  status_keeps w = C.read_keeps (H.join dir cgroup_events_file) w

  turn-Ends :
      (deadline : ℕ) (rest : H.World → Waited H) (w : H.World)
      (s : Result LinuxLifecycleError CgroupV2Status × H.World)
      → status H dir w ≡ s
      → ((w' : H.World)
          → C.clock s.1 ≤ C.clock w'
          → C.clock s.1 < deadline
          → Ends deadline (rest w'))
      → Ends deadline (after_status H expected deadline rest s)
  turn-Ends deadline rest w (err e, w') h k = λ q. absurd (status_no_timeout w w' e h q)
  turn-Ends deadline rest w (ok st, w') h k = elim (Bool-cases (same_flag st.frozen expected)) [
    | inl e ↦
        rw e (record {
          before = w;
          reported = st;
          read = h;
          agrees = same_flag-eq st.frozen expected e;
        })
    | inr e ↦ rw e (elim (Bool-cases (leb deadline (H.now w').0)) [
      | inl over ↦
          rw over
            (λ q. omega (arith, leb→le deadline (H.now w').0 over, C.now_reads w', C.now_keeps w'))
      | inr open_ ↦
          rw open_ (k (H.now w').1 (C.now_keeps w') (ground (arith, C.now_reads w', open_)))
    ])
  ]

  wait_loop-Ends :
      (fuel deadline poll : ℕ) (w : H.World)
      → 0 < poll
      → deadline < C.clock w + suc fuel
      → Ends deadline (wait_loop H (suc fuel) dir expected deadline poll w)
  unfolding wait_loop
  wait_loop-Ends zero deadline poll w pos enough =
      turn-Ends deadline (λ w'. (unfinished, H.sleep poll w')) w (status H dir w) refl
        λ w' later open_. absurd (omega (arith, status_keeps w))
  wait_loop-Ends (suc fuel) deadline poll w pos enough =
      turn-Ends deadline (λ w'. wait_loop H (suc fuel) dir expected deadline poll (H.sleep poll w'))
        w (status H dir w) refl
        λ w' later open_.
          wait_loop-Ends fuel deadline poll (H.sleep poll w') pos
            (omega (arith, status_keeps w, C.sleep_waits poll w'))

  started-Ends :
      (timeout poll : ℕ) (w : H.World)
      → 0 < poll
      → Ends
          (C.clock w + timeout)
          (wait_loop H (suc (suc timeout)) dir expected ((H.now w).0 + timeout) poll (H.now w).1)
  started-Ends timeout poll w pos =
      let r =
        wait_loop H (suc (suc timeout)) dir expected ((H.now w).0 + timeout) poll (H.now w).1 in
      subst (λ n. Ends (n + timeout) r) (C.now_reads w)
        (wait_loop-Ends (suc timeout) ((H.now w).0 + timeout) poll (H.now w).1 pos
          (omega (arith, C.now_reads w, C.now_keeps w)))

  representable-WaitEnds :
      (poll deadline : ℕ) (r : Waited H)
      → deadline ≤ H.latest
      → Ends deadline r
      → WaitEnds poll deadline r
  representable-WaitEnds poll deadline (unfinished, after) small h = h
  representable-WaitEnds poll deadline (panicked, after) small h = absurd h
  representable-WaitEnds poll deadline (returned r, after) small h = (inr small, h)

  deadline_past :
      (timeout : ℕ) (w : H.World)
      → ltb H.latest ((H.now w).0 + timeout) ≡ true
      → H.latest < C.clock w + timeout
  deadline_past timeout w h = ground (arith, C.now_reads w)

  deadline_fits :
      (timeout : ℕ) (w : H.World)
      → ltb H.latest ((H.now w).0 + timeout) ≡ false
      → C.clock w + timeout ≤ H.latest
  deadline_fits timeout w h = ground (arith, C.now_reads w)

  -- A wait panics if its poll interval is positive and its timeout leads past the latest instant
  -- that can be represented. Every other wait returns: with the kernel's report of the state that
  -- was waited for as its last call, or with its timeout error once the timeout has passed, or with
  -- another error.
  pub wait_for_frozen_state-Ends :
      (timeout poll : ℕ) (w : H.World)
      → WaitEnds poll (C.clock w + timeout) (wait_for_frozen_state H dir expected timeout poll w)
  unfolding wait_for_frozen_state
  wait_for_frozen_state-Ends timeout poll w = elim (Bool-cases (poll == 0)) [
    | inl e ↦ rw e (inl (ground (arith, e)), λ q. no_interval expected q)
    | inr e ↦
        let pos : 0 < poll = ground (arith, e) in
        rw e (elim (Bool-cases (ltb H.latest ((H.now w).0 + timeout))) [
          | inl past ↦ rw past (pos, deadline_past timeout w past)
          | inr fits ↦ rw fits (
              representable-WaitEnds poll (C.clock w + timeout) _ (deadline_fits timeout w fits)
                (started-Ends timeout poll w pos))
        ])
  ]

module _ (H : Host) (C : Clock H) (e : FreezeOnlyCgroupEffects H) where
  -- How an effect ends: if it succeeds, the kernel took the request and then, as the last call,
  -- reported the state that was asked for. It panics only if its timeout leads past the latest
  -- instant that can be represented.
  abbrev pub Completes : Bool → Text → H.World → Done H → Type 0
  Completes expected flag w (unfinished, after) = ⊥
  Completes expected flag w (panicked, after) =
      let asked = (H.write (H.join e.cgroup_dir cgroup_freeze_file) flag w).1 in
      H.latest < C.clock asked + e.effect_timeout
  Completes expected flag w (returned (err x), after) = Unit
  Completes expected flag w (returned (ok _), after) =
      ((H.write (H.join e.cgroup_dir cgroup_freeze_file) flag w).0 ≡ ok tt)
      × IsConfirmed H C e.cgroup_dir expected after

  displayed-Completes :
      (expected : Bool) (flag : Text) (w : H.World) (r : Waited H)
      → (H.write (H.join e.cgroup_dir cgroup_freeze_file) flag w).0 ≡ ok tt
      → let asked = (H.write (H.join e.cgroup_dir cgroup_freeze_file) flag w).1 in
        WaitEnds H C e.cgroup_dir expected e.poll_interval (C.clock asked + e.effect_timeout) r
        → Completes expected flag w (displayed H r)
  displayed-Completes expected flag w (unfinished, after) a h = h
  displayed-Completes expected flag w (panicked, after) a h = h.1
  displayed-Completes expected flag w (returned (ok u), after) a h = (a, h.1)
  displayed-Completes expected flag w (returned (err x), after) a h = tt

  requested-Completes :
      (expected : Bool) (flag : Text) (w : H.World)
      (r : Result LinuxLifecycleError (Unit {0}) × H.World)
      → request H flag e.cgroup_dir w ≡ r
      → Completes expected flag w (requested H e expected r)
  unfolding request
  requested-Completes expected flag w (err x, after) h = tt
  requested-Completes expected flag w (ok u, after) h =
      displayed-Completes expected flag w _ (ground (arith, h)) (
        rw (ap (λ p. p.1) h) (
          wait_for_frozen_state-Ends H C e.cgroup_dir expected e.effect_timeout e.poll_interval
            after))

  -- A freeze and a thaw return, or panic if the timeout leads past the latest instant that can be
  -- represented; if one succeeds, the kernel accepted the request and then, as the last call,
  -- reported the cgroup frozen, or thawed.
  pub freeze-Completes :
      (w : H.World)
      → Completes true (codes "1\n") w (freeze H e w) × Completes false (codes "0\n") w (thaw H e w)
  unfolding freeze thaw
  freeze-Completes w = (
    requested-Completes true (codes "1\n") w _ refl,
    requested-Completes false (codes "0\n") w _ refl,
  )
