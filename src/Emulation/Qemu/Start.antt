-- ===== src/Emulation/Qemu/Start.antt =====
-- What a `start` of the QEMU process that succeeds has done.
use linblock.Prelude.{
  ℕ, string_eq, ◌≡◌, refl, some, true, false, arith, ok, ◌>>◌, >>=-ok, ap, sym, ◌∙◌,
}
use linblock.Emulation.Qemu.Command.{build_command}
use linblock.Emulation.Qemu.Process.{
  running, QemuProcess, set_state, Spawn, no_binary, raises, spawned, lives, exits, Host, fail,
  choose_ports, enter_starting, confirm, launch, check, start, is_active,
}

launch-ok :
    (host : Host) (p : QemuProcess) (spawn : Spawn)
    → (launch host spawn p).0 ≡ ok tt
    → ((launch host spawn p).1.state ≡ running)
      × ((launch host spawn p).1.process
          ≡ some (build_command host.kvm_available (launch host spawn p).1.config))
      × ((pid : ℕ) × (spawn ≡ spawned pid lives) × ((launch host spawn p).1.pid ≡ some pid))
unfolding launch confirm fail set_state
launch-ok host p no_binary h = absurd (cc h)
launch-ok host p (raises text) h = absurd (cc h)
launch-ok host p (spawned pid lives) h = (ground arith, ground arith, (pid, refl, ground arith))
launch-ok host p (spawned pid (exits code stderr true)) h = absurd (cc h)
launch-ok host p (spawned pid (exits code stderr false)) h = absurd (cc h)

module _ (host : Host) (p : QemuProcess) where
  check-ok :
      (check host p).0 ≡ ok tt
      → ((check host p).1 ≡ p)
        × (host.qemu_available ≡ true)
        × (host.exists p.config.system_image ≡ true)
        × (is_active p.state ≡ false)
  unfolding check fail is_active
  check-ok h = ground arith

  start_reaches :
      (start host p).0 ≡ ok tt
      → (q : QemuProcess) × ((check host p).0 ≡ ok tt) × (start host p ≡ launch host host.spawn q)
  unfolding start
  start_reaches h =
      let go = enter_starting >> launch host host.spawn in
      let (_, checked, e) = >>=-ok (check host) (λ _. choose_ports host >> go) p tt h in
      let p₁ = (check host p).1 in
      let (_, _, e') = >>=-ok (choose_ports host) (λ _. go) p₁ tt (ap (λ r. r.0) (sym e) ∙ h) in
      let p₂ = (choose_ports host p₁).1 in
      ((enter_starting p₂).1, checked, e ∙ e' ∙ (unfold enter_starting in refl))

  -- A start that succeeds has found QEMU and the image of a process that was not active; its child was
  -- started by the command line of the configuration with the ports that were chosen, it has lived
  -- through the wait, its id is kept, and the state is RUNNING.
  pub start-ok :
      (start host p).0 ≡ ok tt
      → ((start host p).1.state ≡ running)
        × ((start host p).1.process
            ≡ some (build_command host.kvm_available (start host p).1.config))
        × ((pid : ℕ) × (host.spawn ≡ spawned pid lives) × ((start host p).1.pid ≡ some pid))
        × (host.qemu_available ≡ true)
        × (host.exists p.config.system_image ≡ true)
        × (is_active p.state ≡ false)
  start-ok h =
      let (q, checked, e) = start_reaches h in
      let (live, child, (pid, alive, numbered)) =
        launch-ok host q host.spawn (ap (λ r. r.0) (sym e) ∙ h) in
      let (_, available, there, idle) = check-ok checked in
      (rw e live, rw e child, (pid, alive, rw e numbered), available, there, idle)
