-- ===== src/Server/Logging.antt =====
-- logGRPC and logGRPCJson (pkg/hostpath/server.go): the lines that the interceptor
-- writes for a call. The handlers write lines of their own, CreateVolume and NodePublishVolume the
-- whole request at verbosity 3, which are no part of it.
use hostpath_provisioner.Base.{
  ℕ, Text, bytes, ◌==◌, text_eq, leb, List, [], ◌∷◌, ◌++◌, Option, none, some, Result, ok, err,
  Error, message, if◌then◌else◌, Exec, Outcome, returns, fails, panics,
}

-- protosanitizer.StripSecrets as it is printed, and encoding/json over a request, a reply that may be
-- nil, the text of the error and the error.
pub record LogLibrary (Req Resp : Type 0) : Type 0 where
  pub strip_request : Req → Text
  pub strip_response : Option Resp → Text
  pub marshal : Text → Req → Option Resp → Text → Option Error → Result Text

-- A line of the log: what klog.V(level).Infof or klog.Errorf is given.
pub data LogLine : Type 0 where
  call_line : Text → LogLine
  request_line : Text → LogLine
  error_line : Error → LogLine
  response_line : Text → LogLine
  json_line : Text → LogLine

-- The level that a call is logged at.
unfoldable pub call_level : Text → ℕ
call_level full_method = if full_method == bytes "/csi.v1.Identity/Probe" then 5 else 3

-- klog.V(level) at a verbosity
unfoldable pub at_level : ℕ → ℕ → LogLine → List LogLine
at_level verbosity level line = if leb level verbosity then line ∷ [] else []

module _ {Req Resp : Type 0} (L : LogLibrary Req Resp) where
  -- logGRPCJson. Where the message cannot be marshalled it is empty; the field Error, which is then
  -- set, is not read again.
  unfoldable pub log_grpc_json : ℕ → Text → Req → Option Resp → Option Error → List LogLine
  unfolding at_level
  log_grpc_json verbosity method request reply e =
      let error_text : Text = elim e [ none ↦ [] | some x ↦ message x ] in
      elim (L.marshal method request reply error_text e) [
        | ok text ↦ at_level verbosity 5 (json_line text)
        | err _ ↦ at_level verbosity 5 (json_line [])
      ]

  -- The lines behind the handler's return.
  unfoldable pub log_reply : ℕ → Text → Req → Option Resp → Option Error → List LogLine
  unfolding log_grpc_json
  log_reply verbosity method request reply e =
      let errors : List LogLine = elim e [ none ↦ [] | some x ↦ error_line x ∷ [] ] in
      errors
      ++ (if leb 5 verbosity
          then response_line (L.strip_response reply)
            ∷ log_grpc_json verbosity method request reply e
          else [])

  -- The lines before the handler is called.
  unfoldable pub log_request : ℕ → Text → Req → List LogLine
  unfolding call_level at_level
  log_request verbosity method request =
      at_level verbosity (call_level method) (call_line method)
      ++ at_level verbosity 5 (request_line (L.strip_request request))

  -- logGRPC: the lines, and what the handler has done. A handler that panics takes the lines behind
  -- it along.
  unfoldable pub log_grpc :
      {S : Type 0} → ℕ → Text → Req → (Req → Exec S Resp) → S → List LogLine × (Outcome Resp × S)
  unfolding log_request log_reply
  log_grpc verbosity method request handler s =
      let before = log_request verbosity method request in
      let (result, s') = handler request s in
      (
        elim result [
          | returns reply ↦ before ++ log_reply verbosity method request (some reply) none
          | fails e ↦ before ++ log_reply verbosity method request none (some e)
          | panics ↦ before
        ],
        (result, s'),
      )
