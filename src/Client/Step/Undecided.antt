-- ===== src/Client/Step/Undecided.antt =====
-- Results whose metadata lacks the key that a test compares with the empty text: a missing key
-- reads as `nil`, which is not that text.
use Prim.Native.String.{◌++◌ as join}
use manglekit.Common.{◌≡◌, refl, String, none, lookup, arith, ap}
use manglekit.Workflow.{Value, null}
use manglekit.SessionState.{Envelope}
use manglekit.Client.{meta, ok, halted, Params, Client, Env}
use manglekit.Client.Step.{handle_decision, save_state, halt_reason, build_halt_error}
use manglekit.Client.Context.{World}

module _ (env : Env) (c : Client) where
  -- A result with no decision at all is returned, but its state is not saved and the exchange is not
  -- memorized, whatever the client has for either.
  pub undecided-unsaved :
      (name : String) (r : Envelope) (payload : Value) (p : Params) (w : World env c)
      → lookup "manglekit.decision" r.metadata ≡ none
      → (save_state env c r p w ≡ w) × (handle_decision env c name r payload p w ≡ (ok r, p, w))
  unfolding save_state handle_decision
  undecided-unsaved name r payload p w h = ground arith

  -- A result that halts with no reason in its metadata is reported without its violation message,
  -- with a formatting mark for `nil` in the place of a reason.
  pub build_halt_error-no_reason :
      (r : Envelope)
      → lookup "reason" r.metadata ≡ none
      → build_halt_error env c r ≡ halted "action halted by blueprint: %!s(<nil>)"
  unfolding build_halt_error
  build_halt_error-no_reason r h =
      let missing : meta "reason" r.metadata ≡ null = rw (h, meta) refl in
      ap
        (λ (v : Value). halted (
          join "action halted by blueprint: "
            (halt_reason env c v (meta "violation_msg" r.metadata))))
        missing
