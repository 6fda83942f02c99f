-- ===== src/Server/Lifecycle/Waiting.antt =====
-- The states of the server that the process reaches, the wait of Run, and Stop.
use hostpath_provisioner.Base.{
  ◌≡◌, ◌≢◌, ◌⊎◌, inl, inr, refl, Text, true, false, panics, Bool-cases, ◌↔◌, Option-cases, Option,
  none, some, returns, arith,
}
use hostpath_provisioner.Os.{Os}
use hostpath_provisioner.Server.Lifecycle.{
  absent, has_server, serving, exited, before_start, in_wait, returned, GrpcServer,
  new_non_blocking_grpc_server, call_cleanup, stop, force_stop, Step, start, listens, listen_fails,
  sets_server, sets_cleanup, serve_returns, handler_panics, wait_returns, works, Reach, begin,
  later,
}

-- What holds of the server at any time: behind the start the counter is 1, before it is 0; the caller
-- is not behind the wait; the goroutine serves or has ended only with both fields set.
pub record Inv {S : Type 0} (g : GrpcServer S) : Type 0 where
  pub waits : g.caller ≢ returned
  pub counted : g.caller ≡ in_wait → g.wait_group ≡ 1
  pub idle : g.caller ≡ before_start → g.wait_group ≡ 0
  pub still : g.caller ≡ before_start → g.goroutine ≡ absent
  pub set : (file : Option Text) → g.goroutine ≡ has_server file → g.server ≡ true
  pub only :
      (c : Option Text) → g.cleanup ≡ some c → (g.goroutine ≡ serving) ⊎ (g.goroutine ≡ exited)
  pub ready :
      (g.goroutine ≡ serving) ⊎ (g.goroutine ≡ exited)
      → (g.server ≡ true) × ((file : Option Text) × (g.cleanup ≡ some file))

new_non_blocking_grpc_server-Inv : {S : Type 0} (s : S) → Inv (new_non_blocking_grpc_server s)
new_non_blocking_grpc_server-Inv s = record {
  waits = λ h. cc;
  counted = λ h. cc;
  idle = λ h. refl;
  still = λ h. refl;
  set = λ f h. absurd (ground arith);
  only = λ c h. absurd (ground arith);
  ready = λ h. absurd (ground arith);
}

module _ (O : Os) (endpoint : Text) where
  Step-Inv : {g h : GrpcServer O.State} → Step O endpoint g h → Inv g → Inv h
  Step-Inv (start run at_start) inv = record {
    waits = λ h. cc;
    counted = λ h. omega (arith, inv.idle at_start);
    idle = λ h. absurd (ground arith);
    still = λ h. absurd (ground arith);
    set = λ f h. absurd (ground arith);
    only = λ c h. absurd (let q = inv.only c h in let p = inv.still at_start in ground arith);
    ready = λ h. absurd (ground arith);
  }
  Step-Inv (listens e file s run about heard) inv = record {
    waits = inv.waits;
    counted = inv.counted;
    idle = inv.idle;
    still = λ h. absurd (let q = inv.still h in ground arith);
    set = λ f h. absurd (ground arith);
    only = λ c h. absurd (let q = inv.only c h in ground arith);
    ready = λ h. absurd (ground arith);
  }
  Step-Inv (listen_fails e x s run about failed) inv = record {
    waits = inv.waits;
    counted = inv.counted;
    idle = inv.idle;
    still = inv.still;
    set = inv.set;
    only = inv.only;
    ready = inv.ready;
  }
  Step-Inv (sets_server file run about) inv = record {
    waits = inv.waits;
    counted = inv.counted;
    idle = inv.idle;
    still = λ h. absurd (let q = inv.still h in ground arith);
    set = λ f h. refl;
    only = λ c h. absurd (let q = inv.only c h in ground arith);
    ready = λ h. absurd (ground arith);
  }
  Step-Inv (sets_cleanup file run about) inv = record {
    waits = inv.waits;
    counted = inv.counted;
    idle = inv.idle;
    still = λ h. absurd (let q = inv.still h in ground arith);
    set = λ f h. absurd (ground arith);
    only = λ c h. inl refl;
    ready = λ h. (inv.set file about, (file, refl));
  }
  Step-Inv (serve_returns run about) inv = record {
    waits = inv.waits;
    counted = inv.counted;
    idle = inv.idle;
    still = λ h. absurd (let q = inv.still h in ground arith);
    set = λ f h. absurd (ground arith);
    only = λ c h. inr refl;
    ready = λ h. inv.ready (inl about);
  }
  Step-Inv (handler_panics run about) inv = record {
    waits = inv.waits;
    counted = inv.counted;
    idle = inv.idle;
    still = inv.still;
    set = inv.set;
    only = inv.only;
    ready = inv.ready;
  }
  Step-Inv (wait_returns run waiting done) inv =
      absurd (let q = inv.counted waiting in ground arith)
  Step-Inv (works s run) inv = record {
    waits = inv.waits;
    counted = inv.counted;
    idle = inv.idle;
    still = inv.still;
    set = inv.set;
    only = inv.only;
    ready = inv.ready;
  }

  Reach-Inv : {s : O.State} {g : GrpcServer O.State} → Reach O endpoint s g → Inv g
  Reach-Inv {s} begin = new_non_blocking_grpc_server-Inv s
  Reach-Inv (later r st) = Step-Inv st (Reach-Inv r)

  -- Run does not return: in no state that the process reaches, in any interleaving, is the caller
  -- behind s.Wait, also where the goroutine that serves has ended.
  pub Reach-ne-returned :
      {s : O.State} {g : GrpcServer O.State} → Reach O endpoint s g → g.caller ≢ returned
  Reach-ne-returned r = (Reach-Inv r).waits

  -- The goroutine serves or has ended.
  abbrev pub HasServed : GrpcServer O.State → Type 0
  HasServed g = (g.goroutine ≡ serving) ⊎ (g.goroutine ≡ exited)

  -- A field that is not set.
  abbrev pub LacksField : GrpcServer O.State → Type 0
  LacksField g = (g.server ≡ false) ⊎ (g.cleanup ≡ none)

  call_cleanup_unset :
      (g : GrpcServer O.State) (t : O.State) → g.cleanup ≡ none → call_cleanup O g t ≡ (panics, t)
  unfolding call_cleanup
  call_cleanup_unset g t h = rw h refl

  call_cleanup_set :
      (g : GrpcServer O.State) (t : O.State) (c : Option Text)
      → g.cleanup ≡ some c
      → (call_cleanup O g t).0 ≡ returns tt
  unfolding call_cleanup
  call_cleanup_set g t none h = rw h refl
  call_cleanup_set g t (some file) h = rw h refl

  -- Both fields are set exactly where the goroutine serves or has ended.
  served_or_unset :
      {s : O.State} {g : GrpcServer O.State}
      → Reach O endpoint s g
      → HasServed g ⊎ (¬ HasServed g × LacksField g)
  served_or_unset {g} r = elim (Option-cases g.cleanup) [
    | inl e ↦ inr (λ h. let (_, (c, f)) = (Reach-Inv r).ready h in absurd (ground arith), inr e)
    | inr (c, e) ↦ inl ((Reach-Inv r).only c e)
  ]

  force_stop_unset :
      (g : GrpcServer O.State) (t : O.State) → LacksField g → force_stop O g t ≡ (panics, t)
  unfolding force_stop
  force_stop_unset g t (inl h) = rw h refl
  force_stop_unset g t (inr h) = elim (Bool-cases g.server) [
    | inl e ↦ rw e (call_cleanup_unset g t h)
    | inr e ↦ rw e refl
  ]

  force_stop_set :
      (g : GrpcServer O.State) (t : O.State) (c : Option Text)
      → g.server ≡ true
      → g.cleanup ≡ some c
      → (force_stop O g t).0 ≡ returns tt
  unfolding force_stop
  force_stop_set g t c h k = rw h (call_cleanup_set g t c k)

  -- With no call to wait for, Stop and ForceStop do the same.
  stop-eq-force_stop :
      (g : GrpcServer O.State) (t : O.State) → stop O 0 g t ≡ some (force_stop O g t)
  unfolding stop force_stop
  stop-eq-force_stop g t = elim (Bool-cases g.server) [ inl e ↦ rw e refl | inr e ↦ rw e refl ]

  -- In every state that the process reaches: ForceStop, and Stop where no call is being served, return
  -- exactly where the goroutine serves or has ended, and panic, with the machine left as it is,
  -- exactly where it does not yet serve.
  pub stop_iff :
      {s : O.State} {g : GrpcServer O.State}
      → Reach O endpoint s g
      → (t : O.State)
      → (((force_stop O g t).0 ≡ returns tt) ↔ HasServed g)
        × ((force_stop O g t ≡ (panics, t)) ↔ ¬ HasServed g)
        × (stop O 0 g t ≡ some (force_stop O g t))
  stop_iff {g} r t = elim (served_or_unset r) [
    | inl served ↦
        let (set, (c, e)) = (Reach-Inv r).ready served in
        let stopped = force_stop_set g t c set e in
        (
          (λ h. served, λ h. stopped),
          (λ h. absurd (ground arith), λ h. absurd (h served)),
          stop-eq-force_stop g t,
        )
    | inr (not_served, unset) ↦
        let stopped = force_stop_unset g t unset in
        (
          (λ h. absurd (ground arith), λ h. absurd (not_served h)),
          (λ h. not_served, λ h. stopped),
          stop-eq-force_stop g t,
        )
  ]
