-- ===== src/Server/Lifecycle.antt =====
-- nonBlockingGRPCServer (pkg/hostpath/server.go) and Run (pkg/hostpath/hostpath.go): the goroutine that
-- serves, Stop and ForceStop, and the wait for the goroutine.
pub mod Waiting
use hostpath_provisioner.Base.{
  ℕ, zero, suc, ◌+◌, ◌≡◌, Text, Bool, true, false, Option, none, some, Result, ok, err, Error,
  Outcome, returns, fails, panics, Exec, if◌then◌else◌,
}
use hostpath_provisioner.Os.{Os}
use hostpath_provisioner.Server.{listen}

-- The goroutine of Start: not there, before the call of listen, between the two assignments behind it
-- (with the file for the cleanup), in server.Serve, and ended.
pub data Goroutine : Type 0 where
  absent : Goroutine
  about_to_listen : Text → Goroutine
  listening : Option Text → Goroutine
  has_server : Option Text → Goroutine
  serving : Goroutine
  exited : Goroutine

-- Whether the process runs, klog.Fatalf has ended it, or a goroutine has panicked.
pub data Process : Type 0 where
  running fatal panicked : Process

-- The caller of Run: before s.Start, in s.Wait, and behind it.
pub data Caller : Type 0 where
  before_start in_wait returned : Caller

-- wait_group: the counter of wg. server: it is set. cleanup: the function is set, and the file that it
-- removes, if there is one.
pub record GrpcServer (S : Type 0) : Type 0 where
  pub wait_group : ℕ
  pub server : Bool
  pub cleanup : Option (Option Text)
  pub goroutine : Goroutine
  pub caller : Caller
  pub process : Process
  pub machine : S

abbrev pub new_non_blocking_grpc_server : {S : Type 0} → S → GrpcServer S
new_non_blocking_grpc_server machine = record {
  wait_group = 0;
  server = false;
  cleanup = none;
  goroutine = absent;
  caller = before_start;
  process = running;
  machine = machine;
}

module _ (O : Os) where
  -- s.cleanup(): a nil function panics; the socket is removed, and the error of the removal is not
  -- looked at.
  unfoldable pub call_cleanup : GrpcServer O.State → Exec O.State (Unit {0})
  call_cleanup g s = elim g.cleanup [
    | none ↦ (panics, s)
    | some none ↦ (returns tt, s)
    | some (some file) ↦ (returns tt, (O.remove file s).1)
  ]

  -- s.Stop(), with the number of calls that grpc is serving: a nil server panics, and GracefulStop
  -- does not return while there is a call, for which there is no outcome.
  unfoldable pub stop : ℕ → GrpcServer O.State → O.State → Option (Outcome (Unit {0}) × O.State)
  unfolding call_cleanup
  stop pending g s = elim g.server [
    | false ↦ some (panics, s)
    | true ↦ elim pending [ zero ↦ some (call_cleanup g s) | suc _ ↦ none ]
  ]

  -- s.ForceStop(): Stop of the server cancels the calls.
  unfoldable pub force_stop : GrpcServer O.State → Exec O.State (Unit {0})
  unfolding call_cleanup
  force_stop g s = elim g.server [ false ↦ (panics, s) | true ↦ call_cleanup g s ]

  -- The steps of the process that calls Run, in any interleaving of the caller and the goroutine.
  pub data Step (endpoint : Text) (g : GrpcServer O.State) : GrpcServer O.State → Type 0 where
    -- s.Start: the counter is raised, and the goroutine is there.
    start :
        g.process ≡ running
        → g.caller ≡ before_start
        → Step endpoint g (record g {
          wait_group = g.wait_group + 1;
          goroutine = about_to_listen endpoint;
          caller = in_wait;
        })
    -- listen works.
    listens :
        (e : Text) (file : Option Text) (s : O.State)
        → g.process ≡ running
        → g.goroutine ≡ about_to_listen e
        → listen O e g.machine ≡ (returns file, s)
        → Step endpoint g (record g { goroutine = listening file; machine = s })
    -- listen fails: klog.Fatalf.
    listen_fails :
        (e : Text) (x : Error) (s : O.State)
        → g.process ≡ running
        → g.goroutine ≡ about_to_listen e
        → listen O e g.machine ≡ (fails x, s)
        → Step endpoint g (record g { process = fatal; machine = s })
    -- s.server = server
    sets_server :
        (file : Option Text)
        → g.process ≡ running
        → g.goroutine ≡ listening file
        → Step endpoint g (record g { goroutine = has_server file; server = true })
    -- s.cleanup = cleanup
    sets_cleanup :
        (file : Option Text)
        → g.process ≡ running
        → g.goroutine ≡ has_server file
        → Step endpoint g (record g { goroutine = serving; cleanup = some file })
    -- server.Serve returns, with an error or without, and the goroutine ends.
    serve_returns :
        g.process ≡ running
        → g.goroutine ≡ serving
        → Step endpoint g (record g { goroutine = exited })
    -- A handler panics; grpc does not recover, so the process ends.
    handler_panics :
        g.process ≡ running
        → g.goroutine ≡ serving
        → Step endpoint g (record g { process = panicked })
    -- s.Wait returns, and with it Run.
    wait_returns :
        g.process ≡ running
        → g.caller ≡ in_wait
        → g.wait_group ≡ 0
        → Step endpoint g (record g { caller = returned })
    -- The handlers and everything else change the machine.
    works : (s : O.State) → g.process ≡ running → Step endpoint g (record g { machine = s })

  pub data Reach (endpoint : Text) (s : O.State) : GrpcServer O.State → Type 0 where
    begin : Reach endpoint s (new_non_blocking_grpc_server s)
    later : {g h : GrpcServer O.State} → Reach endpoint s g → Step endpoint g h → Reach endpoint s h
