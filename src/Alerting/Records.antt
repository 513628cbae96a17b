-- ===== src/Alerting/Records.antt =====
-- What a transition leaves in the database and sends, failures of statements included.
use server_monitor.Common.{ℕ, ◌+◌, ◌≡◌, ◌≢◌, refl, arith, Bool, true, false}
use server_monitor.Common.Assoc.{lookup, lookup-insert_ne}
use server_monitor.Alerting.{
  Rule, State, ok, pending, firing, AlertState, Key, Key-discrete, Channels, World, failed,
  dispatch, exec, fire_or_wait, start_pending, stay_firing, settle, dispatch_state, state_or_ok,
  transition,
}

-- A transition of which some statement that matters failed sends nothing.
dispatch_state-failed :
    (fails : ℕ → Bool) (s : State) (p : Bool) (r : Rule) (key : Key) (st : AlertState)
    (value now : ℕ) (cs : Channels) (w : World)
    → (dispatch_state fails s p r key st value now cs w).1 ≡ failed
    → (dispatch_state fails s p r key st value now cs w).0.sent ≡ w.sent
unfolding dispatch_state start_pending fire_or_wait stay_firing settle exec
dispatch_state-failed fails ok true r key st value now cs w h = ground arith
dispatch_state-failed fails pending true r key st value now cs w h = ground arith
dispatch_state-failed fails firing true r key st value now cs w h = ground arith
dispatch_state-failed fails firing false r key st value now cs w h = ground arith
dispatch_state-failed fails pending false r key st value now cs w h = ground arith
dispatch_state-failed fails ok false r key st value now cs w h = refl

-- A transition that returns an error sends no notification.
pub transition-failed :
    (fails : ℕ → Bool) (r : Rule) (key : Key) (p : Bool) (value now : ℕ) (cs : Channels) (w : World)
    → (transition fails r key p value now cs w).1 ≡ failed
    → (transition fails r key p value now cs w).0.sent ≡ w.sent
unfolding transition exec
transition-failed fails r key p value now cs w h =
    let st = state_or_ok now (lookup Key-discrete key w.states) in
    ground (
      arith,
      dispatch_state-failed fails st.state p r key st value now cs
          (record w { statements = w.statements + 1 }),
    )

dispatch_state-frame :
    (fails : ℕ → Bool) (s : State) (p : Bool) (r : Rule) (key j : Key) (st : AlertState)
    (value now : ℕ) (cs : Channels) (w : World)
    → key ≢ j
    → lookup Key-discrete j (dispatch_state fails s p r key st value now cs w).0.states
      ≡ lookup Key-discrete j w.states
unfolding dispatch_state start_pending fire_or_wait stay_firing settle exec dispatch
dispatch_state-frame fails ok true r key j st value now cs w h = grind (arith, lookup-insert_ne)
dispatch_state-frame fails pending true r key j st value now cs w h =
    grind (arith, lookup-insert_ne)
dispatch_state-frame fails firing true r key j st value now cs w h = grind (arith, lookup-insert_ne)
dispatch_state-frame fails firing false r key j st value now cs w h =
    grind (arith, lookup-insert_ne)
dispatch_state-frame fails pending false r key j st value now cs w h =
    grind (arith, lookup-insert_ne)
dispatch_state-frame fails ok false r key j st value now cs w h = refl

-- A transition touches the row of its own key alone.
pub transition-frame :
    (fails : ℕ → Bool) (r : Rule) (key j : Key) (p : Bool) (value now : ℕ) (cs : Channels)
    (w : World)
    → key ≢ j
    → lookup Key-discrete j (transition fails r key p value now cs w).0.states
      ≡ lookup Key-discrete j w.states
unfolding transition exec
transition-frame fails r key j p value now cs w h =
    let st = state_or_ok now (lookup Key-discrete key w.states) in
    ground (
      arith,
      dispatch_state-frame fails st.state p r key j st value now cs
          (record w { statements = w.statements + 1 }) h,
    )
