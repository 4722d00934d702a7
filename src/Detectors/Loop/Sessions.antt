-- ===== src/Detectors/Loop/Sessions.antt =====
-- The session that internal/analyzer/detectors/loop.go keeps: a call added, and old ones trimmed.
use agent_transponder.Prelude.{
  ◌≡◌, refl, [], ◌∷◌, length, length-append, length-drop, ltb, ◌&&◌, if_ind, arith,
}
use agent_transponder.Prelude.Int.{ℤ, pos, ltb_ℤ, ◌-ℤ◌}
use agent_transponder.Types.Event.{Event, Time, ToolCallData}
use agent_transponder.Detectors.Loop.{LoopSession, trim, append_call, first_within, seconds_long}
use agent_transponder.Detectors.Loop.Starts.{NoDup}

-- A session with an event id for each tool name, and no start twice.
pub record IsSession (sess : LoopSession) : Type 0 where
  pub paired : length sess.event_ids ≡ length sess.tool_names
  pub distinct : NoDup sess.emitted_start_ids

pub trim-IsSession :
    (w : ℤ) (now : Time) (sess : LoopSession)
    → IsSession sess
    → IsSession (trim w now sess) × ((trim w now sess).emitted_start_ids ≡ sess.emitted_start_ids)
unfolding trim
trim-IsSession w now sess h =
    let first = first_within (now -ℤ seconds_long w) sess.times in
    if_ind (λ (s : LoopSession). IsSession s × (s.emitted_start_ids ≡ sess.emitted_start_ids))
      (ltb_ℤ (pos 0) w && ltb 0 first)
      (λ t. (
        record {
          paired = omega (
            arith,
            length-drop first sess.event_ids,
            length-drop first sess.tool_names,
            h.paired,
          );
          distinct = h.distinct;
        },
        refl,
      ))
      (λ t. (h, refl))

pub append_call-IsSession :
    (event : Event) (call : ToolCallData) (sess : LoopSession)
    → IsSession sess
    → IsSession (append_call event call sess)
unfolding append_call
append_call-IsSession event call sess h = record {
  paired = omega (
    arith,
    length-append sess.event_ids (event.id ∷ []),
    length-append sess.tool_names (call.tool_name ∷ []),
    h.paired,
  );
  distinct = h.distinct;
}

pub append_call_emitted :
    (event : Event) (call : ToolCallData) (sess : LoopSession)
    → (append_call event call sess).emitted_start_ids ≡ sess.emitted_start_ids
unfolding append_call
append_call_emitted event call sess = refl
